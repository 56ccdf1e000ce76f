-- ===== src/Lib.antt =====
-- Myrmidon (Iris): a runtime of actors with mailboxes, supervision, names and shared buffers.
--
-- The program is the Rust crate under src/. An actor has a process identifier from the slab allocator
-- (src/pid.rs) and a mailbox (src/mailbox.rs) of two channels, one for user messages and one for
-- system messages. The supervisor (src/supervisor.rs) holds how children are restarted and which
-- actors are linked; an exit marks the child and spawns restart tasks. Actors are found by names and
-- paths (src/registry.rs). Buffers shared with foreign code live in src/buffer.rs.
--
-- Files, each with the code it is about:
--   Pid         src/pid.rs: `SlabAllocator` with `new`, `allocate`, `deallocate`, `is_valid`;
--               `make_pid`, `split_pid`. An index out of bounds would be a panic, `none`; numbers of
--               32 and 64 bits wrap as written out.
--   Mailbox     src/mailbox.rs: `channel`, `send`, `send_user_bytes`, `send_system`, `len`, `recv`,
--               `try_recv`, `selective_recv`. Sender and receiver share one record. `recv` and
--               `selective_recv` are one poll of their futures: `pending` or `ready`.
--   Supervisor  src/supervisor.rs: the methods, and the restart tasks as values that `attempt` steps
--               with the answer of a factory. Pauses are numbers in the task, nothing waits for them.
--   Registry    src/registry.rs: registration, `list_children`, `list_direct_children`.
--   Buffer      src/buffer.rs: `allocate`, `ptr_len`, `take`, `free`; a pointer is its buffer's name.
--   Runtime     src/lib.rs: `new`, `spawn_actor` (what all spawning functions do first),
--               `spawn_observed_handler`, `send`, `stop`, `hot_swap`, `mailbox_size`, `is_alive`, and
--               `exit_actor`, the task that waits for an actor from there to its exit signals. Senders
--               are places in a list of mailboxes, which actors read by the same place.
--               Runtime/Names: names, paths and path supervisors. Runtime/Observers: observed actors.
--               Runtime/Exiting: the parts of an exit; Runtime/Interleaved: them in any order among
--               other calls.
--               Runtime/Timers: timers, whose tasks sleep outside the model and step in any order.
--               Runtime/Handlers: the ways to spawn, the loop of a handler with a budget.
--   Network     src/network.rs: `read_exact_with_timeout`, `handle_connection`, the frame that
--               `send_remote` writes, the request and the answer of `resolve_remote`; Network/Monitor
--               has the loop of `monitor_remote`, its pauses as numbers; Network/Serving makes the
--               runtime the node that a connection serves, whose mailboxes Network/Arrival is about;
--               Network/Peers has the pool of connections, `get_or_connect_peer`, `send_remote` turn
--               by turn, and the tasks that write.
--   Python      src/py.rs: the objects for messages and the matchers (Python/Messages), the blocking
--               `recv` and `selective_recv` in slices (Python/Waiting), `spawn_py_handler` with its
--               dedicated threads, its pool and their counter (Python/Handler), the shared buffers
--               (Python/Buffers), `watch` and the supervision with factories (Python/Supervising), the
--               methods that pass on to the runtime and `join` (Python/Calls), the wait for an observed
--               message (Python/Observing).
--   Node        src/node.rs: identifiers as signed numbers, `WrappedMessage::from`, the handler of
--               `spawn` with its hot swaps (Node/Swapping), the methods that pass on.
--   Deps        what third-party packages do, as parameters with their documented behaviour: the
--               concurrent map (dashmap), the unbounded channel (tokio, and crossbeam in src/py.rs),
--               the bounded channel and the timed read (tokio), the buffer (bytes), the numbers of
--               JavaScript (napi), each with an instance.
--   Base        numbers, texts, lists and association lists for all of them.
--
-- Fuel: the loop of `selective_recv` takes at most one more round than there are messages in the
-- channels, and that much is shown to be enough. A restart task is run over a list of answers, of
-- which three are shown to be enough. An exact read takes at most as many reads as it wants bytes, and a
-- connection at most one frame more than there are bytes; both are shown to be enough. A call of
-- `send_remote` has six turns at most, apart from those that wait for room. A blocking receive goes
-- over the slices that it is given, of which `t / 100 + 1` are enough for a timeout of `t` ms.
--
-- Not modelled: of src/lib.rs the getters and setters of the settings for Python and of the backoff; of
-- src/network.rs `start_server`, which only spawns `handle_connection`; of src/py.rs the
-- registration of the module, the futures of `PyMailbox` for asyncio, the pull actor of
-- `spawn_with_mailbox`, and the timers and network calls that only pass on; of src/node.rs
-- `message_to_js`, which does not compile, the loop that keeps a mailbox actor alive, and the network
-- calls that only pass on. What the interpreters do is an argument. Log lines
-- are left out. A call of a map or a channel is atomic, and so are the spawn of an actor and the methods of
-- the supervisor, which are several calls of its maps, but for the two halves of `link`. The exit of an
-- actor steps part by part, a timer before and after it takes its key out, a call of `send_remote` one
-- `await` at a time and a dedicated thread one message at a time.
pub mod Base
pub mod Deps
pub mod Node
pub mod Python
pub mod Pid
pub mod Buffer
pub mod Registry
pub mod Mailbox
pub mod Supervisor
pub mod Runtime
pub mod Network

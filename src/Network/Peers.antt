-- ===== src/Network/Peers.antt =====
-- The pool of connections of src/network.rs: `get_or_connect_peer`, the rest of `send_remote`, and
-- the task that writes to a connection. `PEER_POOL` is a map from addresses to senders; a sender is
-- known by the place of its connection. What a connect or a write comes to is an argument.
pub mod Framing
pub mod Opening
pub mod Turns
pub mod System
pub mod Progress
pub mod Sending
pub mod Delivery
mod Tests
use myrmidon.Base.{
  ℕ, zero, suc, ◌+◌, Bool, true, false, Option, none, some, List, [], ◌∷◌, ◌++◌, if◌then◌else◌,
  Result, ok, err, same_text, length, get_elem?, set, take,
}
use myrmidon.Deps.DashMap.{DashMap}
use myrmidon.Deps.Mpsc.{Poll, pending, ready}
use myrmidon.Deps.BoundedMpsc.{BoundedMpsc}
use myrmidon.Deps.BufMut.{BufMut}
use myrmidon.Deps.Reader.{ErrorKind}
use myrmidon.Supervisor.{Text}
use myrmidon.Network.{
  Bytes, protocol_version, WriteOutcome, complete, late, write_failed, remote_frame,
}

-- Where the task of a connection is: in its loop, behind the loop, behind the removal of its entry,
-- and over, with the receiver dropped.
pub data Writer : Type 0 where
  writing removing dropping ended : Writer

-- Where a call of `send_remote` is, with its frame made: before the look into the pool, before the
-- connect, before `send` on the channel of a connection, and over.
pub data Stage : Type 0 where
  looking connecting : Stage
  sending : ℕ → Stage
  returned : Result (Unit {0}) ErrorKind → Stage

pub record Call : Type 0 where
  pub addr : Text
  pub msg : Bytes
  pub retried : Bool
  pub stage : Stage

-- The operator `?` on a connect or a write under the timeout.
abbrev pub io_result : WriteOutcome → Result (Unit {0}) ErrorKind
io_result complete = ok tt
io_result late = err ErrorKind.timed_out
io_result (write_failed kind) = err kind

-- The beginning of `send_remote`, before the first `await`.
unfoldable pub send_remote : BufMut → ℕ → Text → ℕ → Bytes → Result Call ErrorKind
send_remote b max_payload addr pid payload = elim (remote_frame b max_payload pid payload) [
  | err e ↦ err e
  | ok msg ↦ ok (record { addr = addr; msg = msg; retried = false; stage = looking })
]

module _ (q : BoundedMpsc) (n : DashMap Text same_text) where
  -- A connection that was opened: the channel to its task, and what is on the wire.
  pub record Link : Type 0 where
    pub addr : Text
    pub queue : q.Chan Bytes
    pub wire : Bytes
    pub writer : Writer

  pub record Pool : Type 0 where
    pub peers : n.Map ℕ
    pub links : List Link

  -- The part of `get_or_connect_peer` behind the look into the pool.
  pub connect_peer : Pool → Text → WriteOutcome → WriteOutcome → Pool × Result ℕ ErrorKind
  connect_peer p addr connected version_written = elim (io_result connected) [
    | err e ↦ (p, err e)
    | ok _ ↦ elim (io_result version_written) [
      | err e ↦ (p, err e)
      | ok _ ↦ (
        record {
          peers = n.insert p.peers addr (length p.links);
          links =
              p.links
              ++ record {
                addr = addr;
                queue = q.channel 1024;
                wire = protocol_version ∷ [];
                writer = writing;
              }
                ∷ [];
        },
        ok (length p.links),
      )
    ]
  ]

  -- `get_or_connect_peer` when nothing runs between its parts.
  pub get_or_connect_peer : Pool → Text → WriteOutcome → WriteOutcome → Pool × Result ℕ ErrorKind
  get_or_connect_peer p addr connected version_written = elim (n.get p.peers addr) [
    | some i ↦ (p, ok i)
    | none ↦ connect_peer p addr connected version_written
  ]

  pub stage_of : Result ℕ ErrorKind → Stage
  stage_of (ok i) = sending i
  stage_of (err e) = returned (err e)

  -- `send` on a channel whose receiver is gone: once, the entry is cleared and the call begins again.
  pub retry : Pool → Call → Pool × Call
  retry p call =
      if call.retried
      then (p, record call { stage = returned (err ErrorKind.connection_aborted) })
      else (
        record p { peers = n.remove p.peers call.addr },
        record call { retried = true; stage = looking },
      )

  pub send_to : Pool → Call → ℕ → Link → Pool × Call
  send_to p call i l =
      let (polled, queue) = q.poll_send l.queue call.msg in
      let after = record p { links = set p.links i (record l { queue = queue }) } in
      elim polled [
        | pending ↦ (after, call)
        | ready sent ↦
            if sent then (after, record call { stage = returned (ok tt) }) else retry after call
      ]

  -- The next part of a call, up to the next `await`.
  unfoldable pub turn : Pool → Call → WriteOutcome → WriteOutcome → Pool × Call
  unfolding connect_peer stage_of retry send_to
  turn p call connected version_written = elim call.stage [
    | looking ↦ elim (n.get p.peers call.addr) [
      | some i ↦ (p, record call { stage = sending i })
      | none ↦ (p, record call { stage = connecting })
    ]
    | connecting ↦
        let (after, connection) = connect_peer p call.addr connected version_written in
        (after, record call { stage = stage_of connection })
    | sending i ↦ elim (get_elem? p.links i) [ none ↦ (p, call) | some l ↦ send_to p call i l ]
    | returned _ ↦ (p, call)
  ]

  -- The task of a connection takes a message and writes it, or a part of it and breaks.
  unfoldable pub write_next : Link → WriteOutcome → ℕ → Link
  write_next l outcome part = elim (q.state l.queue).items [
    | [] ↦ l
    | msg ∷ _ ↦ elim (io_result outcome) [
      | ok _ ↦ record l { queue = q.taken l.queue; wire = l.wire ++ msg }
      | err _ ↦ record l {
        queue = q.taken l.queue;
        wire = l.wire ++ take part msg;
        writer = removing;
      }
    ]
  ]

  -- The other steps of the task: the end of its loop when no sender is left, the removal of the entry
  -- of its address, whatever stands there, and the end of the task.
  unfoldable pub no_senders : Link → Link
  no_senders l = record l { writer = removing }

  unfoldable pub remove_entry : Pool → ℕ → Link → Pool
  remove_entry p i l = record {
    peers = n.remove p.peers l.addr;
    links = set p.links i (record l { writer = dropping });
  }

  unfoldable pub end_writer : Link → Link
  end_writer l = record l { queue = q.drop_receiver l.queue; writer = ended }

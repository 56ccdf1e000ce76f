-- ===== src/Network/Peers/Tests.antt =====
-- A run of the pool of src/network.rs, and its theorems at the states of the run.
use myrmidon.Base.{
  ℕ, zero, suc, ◌++◌, ◌==◌, ==_iff, ◌^◌, count, ◌≤◌, ◌<◌, ◌≡◌, refl, ◌⊎◌, true, false, some, List,
  [], ◌∷◌, ok, same_text, same_text_iff, length, arith,
}
use myrmidon.Base.BigEndian.{to_be_bytes, from_be}
use myrmidon.Deps.DashMap.{DashMap, assoc_map}
use myrmidon.Deps.BoundedMpsc.{BoundedMpsc, bounded_list}
use myrmidon.Deps.BufMut.{BufMut, list_buffer}
use myrmidon.Deps.Reader.{closed, dribbling}
use myrmidon.Supervisor.{Text}
use myrmidon.Network.{
  Bytes, protocol_version, Node, Conn, handle_connection, complete, late, user_message,
  remote_frame,
}
use myrmidon.Network.Connection.{sent, delivered}
use myrmidon.Network.Peers.{
  Call, sending, looking, connecting, writing, send_remote, Link, turn, write_next, remove_entry,
  end_writer,
}
use myrmidon.Network.Peers.Framing.{Leads}
use myrmidon.Network.Peers.Sending.{Settles, turn-Settles}
use myrmidon.Network.Peers.System.{Senders, begins, turns, writes, Reach, start, later}
use myrmidon.Network.Peers.Progress.{left, Waits, turn-progress}
use myrmidon.Network.Serving.{serving, limited}
use myrmidon.Network.Arrival.{messages_for, Reach-arrives}
use myrmidon.Deps.Mpsc.{Mpsc, list_channel}
use myrmidon.Pid
use myrmidon.Pid.{SlabAllocator}
use myrmidon.Pid.Invariant
use myrmidon.Pid.Invariant.{vacancy, generation_at}
use myrmidon.Mailbox.{Mailbox}
use myrmidon.Mailbox.Contents.{pending_system, pending_user}
use myrmidon.Runtime
use myrmidon.Runtime.{Runtime, box_at}
use myrmidon.Runtime.Invariant.{IsWf, box_at_lem}

program : Unit {0}
unfolding send_remote remote_frame turn write_next remove_entry end_writer same_text sent delivered
    to_be_bytes from_be user_message
program = tt

abbrev b : BufMut
b = list_buffer

abbrev q : BoundedMpsc
q = bounded_list

abbrev n : DashMap Text same_text
n = assoc_map Text same_text same_text_iff

abbrev peer : Text
peer = 9 ∷ []

abbrev payload : Bytes
payload = 1 ∷ 2 ∷ []

abbrev target : ℕ
target = 0x1_0000_0000

abbrev call : Call
call = record { addr = peer; msg = user_message b target payload; retried = false; stage = looking }

abbrev empty : Senders b 5 q n
empty = record { pool = record { peers = n.new; links = [] }; calls = [] }

abbrev begun : Senders b 5 q n
begun = record empty { calls = call ∷ [] }

abbrev turn_of : Senders b 5 q n → Call → Senders b 5 q n
unfolding program
turn_of s current =
    let (pool, next) = turn q n s.pool current complete complete in
    record { pool = pool; calls = next ∷ [] }

abbrev waiting_to_connect : Call
waiting_to_connect = record call { stage = connecting }

abbrev on_connection : Call
on_connection = record call { stage = sending 0 }

abbrev connected : Senders b 5 q n
connected = turn_of (turn_of begun call) waiting_to_connect

abbrev handed_over : Senders b 5 q n
handed_over = turn_of connected on_connection

begun-Reach : Reach b 5 q n begun
unfolding program
begun-Reach = later start (begins peer target payload call (omega arith) (omega arith) refl)

connected-Reach : Reach b 5 q n connected
unfolding program
connected-Reach =
    later (later begun-Reach (turns 0 call complete complete refl))
      (turns 0 waiting_to_connect complete complete refl)

handed_over-Reach : Reach b 5 q n handed_over
unfolding program
handed_over-Reach = later connected-Reach (turns 0 on_connection complete complete refl)

abbrev open_link : Link q n
open_link = record {
  addr = peer;
  queue = record {
    items = user_message b target payload ∷ [];
    capacity = 1024;
    has_receiver = true;
  };
  wire = protocol_version ∷ [];
  writer = writing;
}

abbrev written_link : Link q n
written_link = record {
  addr = peer;
  queue = record { items = []; capacity = 1024; has_receiver = true };
  wire = protocol_version ∷ user_message b target payload;
  writer = writing;
}

abbrev written : Senders b 5 q n
written = record handed_over { pool = record { peers = (peer, 0) ∷ []; links = written_link ∷ [] } }

written-Reach : Reach b 5 q n written
unfolding program
written-Reach = later handed_over-Reach (writes 0 open_link complete 0 refl refl)

-- The frame whose write is late is lost, though its call was `Ok`.
lost : (write_next q n open_link late 3).wire ≡ protocol_version ∷ 0 ∷ 0 ∷ 0 ∷ []
unfolding program
lost = refl

turn-progress_example :
    (left on_connection ≤ 6)
    × ((left on_connection ≡ 0)
        ⊎ (left (turn q n connected.pool on_connection complete late).1 < left on_connection)
        ⊎ Waits connected.pool on_connection)
unfolding turn_of
turn-progress_example = turn-progress b 5 q n 0 on_connection complete late connected-Reach refl

turn-Settles_example :
    (there : Leads connected.pool.links 0 peer) × Settles b 5 connected.pool on_connection 0
      there.link
      (turn q n connected.pool on_connection complete late)
unfolding turn_of
turn-Settles_example = turn-Settles b 5 0 on_connection 0 complete late connected-Reach refl refl

wire_short : length written_link.wire ≤ 20
unfolding program
wire_short = omega arith

abbrev c : Mpsc
c = list_channel

abbrev d : DashMap ℕ ◌==◌
d = assoc_map ℕ ◌==◌ ==_iff

abbrev box : Mailbox c
box = record {
  to_user = record { items = (5 ∷ []) ∷ []; has_sender = true; has_receiver = true };
  to_sys = record { items = []; has_sender = true; has_receiver = true };
  stash = [];
  counter = 1;
}

abbrev slab : SlabAllocator
slab = record { entries = record { generation = 1; occupied = true } ∷ []; free_list = [] }

-- The runtime of the peer, where a message waits for the actor.
abbrev receiving : Runtime c d n ℕ
receiving = record {
  slab = slab;
  boxes = box ∷ [];
  mailboxes = (target, 0) ∷ [];
  supervisor = record { children = []; errors = []; links = []; restarting = [] };
  observers = [];
  registry = record { names = [] };
  path_supervisors = [];
}

slab-IsWf : Pid.Invariant.IsWf slab
slab-IsWf = record { counted = λ i. counted i; small = λ i. small i; fits = omega arith }
  where
    counted : (i : ℕ) → count i slab.free_list ≡ vacancy slab.entries i
    counted zero = refl
    counted (suc i) = ground arith

    small : (i : ℕ) → generation_at slab.entries i < 2 ^ 32
    small zero = omega arith
    small (suc i) = omega arith

target_alive : Runtime.is_alive receiving target ≡ true
unfolding Runtime.is_alive Pid.is_valid Pid.split_pid
target_alive = refl

receiving-IsWf : IsWf receiving
receiving-IsWf = record {
  slab = slab-IsWf;
  alive = λ q i e. ground (arith, e, target_alive);
  small = λ q i e. ground arith;
  bounded = λ q i e. ground arith;
  separate = λ p q i e f. ground arith;
}

target_box : box_at receiving target ≡ some (0, box)
target_box = box_at_lem receiving target 0 box refl refl

abbrev peer_node : Node
peer_node = serving c d n ℕ

abbrev arriving : Conn dribbling peer_node
arriving = record {
  state = limited c d n ℕ receiving;
  source = record { bytes = written_link.wire; last = closed };
  written = [];
  outcomes = [];
}

Reach-arrives_example :
    (messages : List (ℕ × Bytes)) × (written_link.wire ≡ protocol_version ∷ sent b messages)
    × (after : Conn dribbling peer_node) × (handle_connection dribbling peer_node 20 arriving
        ≡ some (ok tt, after))
    × (m' : Mailbox c) × (box_at after.state.runtime target ≡ some (0, m'))
    × (pending_user c m' ≡ pending_user c box ++ messages_for target messages)
    × (pending_system c m' ≡ pending_system c box)
Reach-arrives_example =
    Reach-arrives c d n ℕ b dribbling 5 q 0 written_link arriving 20 target 0 box written-Reach refl
      refl refl refl (omega arith) wire_short receiving-IsWf target_box refl
      (omega (arith, wire_short))

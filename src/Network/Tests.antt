-- ===== src/Network/Tests.antt =====
-- Runs of the connection of src/network.rs over a source that gives a byte at a time, with a runtime
-- over lists behind it, and its theorems at concrete connections.
use myrmidon.Base.{
  All, Bool, ◌*◌, none, Option, ℕ, ◌<◌, ◌≡◌, refl, true, false, some, List, [], ◌∷◌, ◌++◌, ◌==◌,
  ==_iff, same_text, same_text_iff, ok, err, arith,
}
use myrmidon.Base.BigEndian.{to_be_bytes, from_be}
use myrmidon.Deps.BufMut.{BufMut, list_buffer}
use myrmidon.Deps.DashMap.{DashMap, assoc_map}
use myrmidon.Deps.Mpsc.{Mpsc, list_channel}
use myrmidon.Deps.Reader.{ErrorKind, Reader, dribbling, closed, elapsed}
use myrmidon.Registry
use myrmidon.Supervisor.{Text}
use myrmidon.Runtime
use myrmidon.Network.{
  Node, Conn, Bytes, is_utf8, read_exact_with_timeout, handle_connection, remote_frame,
  resolve_request, resolve_answer, resolve_remote_async,
}
use myrmidon.Network.Reading.{Reads, read_exact-Reads}
use myrmidon.Network.Connection.{sent, delivered, Sendable, handle_connection-sent}
use myrmidon.Network.Refusal.{handle_connection-too_large}
use myrmidon.Network.Resolving.{resolve_remote-answered}
use myrmidon.Network.Totality.{Within, handle_connection-Within}
use myrmidon.Network.Monitor.{Backoff, Probe, Watched, rounds, rounds-Watched}
use myrmidon.Network.Serving.{Limited, limited, serving, set_network_max_payload}

program : Unit {0}
unfolding is_utf8 read_exact_with_timeout remote_frame resolve_request resolve_answer
    resolve_remote_async sent delivered to_be_bytes from_be Registry.resolve Registry.register
    Runtime.new same_text
program = tt

abbrev c : Mpsc
c = list_channel

abbrev d : DashMap ℕ ◌==◌
d = assoc_map ℕ ◌==◌ ==_iff

abbrev n : DashMap Text same_text
n = assoc_map Text same_text same_text_iff

abbrev r : Reader
r = dribbling

abbrev b : BufMut
b = list_buffer

abbrev node : Node
node = serving c d n ℕ

abbrev here : Limited c d n ℕ
here = set_network_max_payload c d n ℕ (limited c d n ℕ (Runtime.new c d n ℕ)) 5

abbrev arriving : Bytes → Conn r node
arriving bytes = record {
  state = here;
  source = record { bytes = bytes; last = closed };
  written = [];
  outcomes = [];
}

abbrev messages : List (ℕ × Bytes)
messages = (7, 1 ∷ 2 ∷ []) ∷ (8, []) ∷ []

sendable : All (Sendable b r node (node.max_payload here)) messages
sendable = (
  record { pid_fits = omega arith; length_fits = omega arith; allowed = omega arith },
  (record { pid_fits = omega arith; length_fits = omega arith; allowed = omega arith }, tt),
)

too_long : remote_frame b 5 7 (1 ∷ 2 ∷ 3 ∷ 4 ∷ 5 ∷ 6 ∷ []) ≡ err ErrorKind.invalid_input
unfolding program
too_long = refl

not_utf8 : (is_utf8 (0xe2 ∷ 0x82 ∷ 0xac ∷ []) ≡ true) × (is_utf8 (0xed ∷ 0xa0 ∷ 0x80 ∷ []) ≡ false)
unfolding program
not_utf8 = (refl, refl)

read_exact-Reads_example :
    Reads r
      (record { bytes = 1 ∷ 2 ∷ 3 ∷ []; last = elapsed })
      2
      []
      (read_exact_with_timeout r (record { bytes = 1 ∷ 2 ∷ 3 ∷ []; last = elapsed }) 2)
read_exact-Reads_example = read_exact-Reads r (record { bytes = 1 ∷ 2 ∷ 3 ∷ []; last = elapsed }) 2

handle_connection-sent_example :
    let conn = arriving (1 ∷ sent b messages) in
    (after : r.Source) × (handle_connection r node 3 conn
      ≡ some (ok tt, record conn { state = delivered b r node here messages; source = after }))
handle_connection-sent_example =
    handle_connection-sent b r node messages 3 (arriving (1 ∷ sent b messages)) (omega arith)
      sendable refl

abbrev too_large : Bytes
too_large = 1 ∷ (sent b messages ++ (0 ∷ ((to_be_bytes 8 9 ++ to_be_bytes 4 6) ++ [])))

limit_kept : node.max_payload (delivered b r node here messages) < 6
unfolding program
limit_kept = omega arith

handle_connection-too_large_example :
    (after : r.Source) × (handle_connection r node 3 (arriving too_large)
      ≡ some (
        err ErrorKind.invalid_data,
        record (arriving too_large) { state = delivered b r node here messages; source = after },
      ))
handle_connection-too_large_example =
    handle_connection-too_large b r node messages 3 (arriving too_large) 9 6 [] (omega arith)
      sendable (omega arith) (omega arith) limit_kept refl

handle_connection-Within_example :
    Within r node (Unit {0}) 3 (handle_connection r node 4 (arriving (1 ∷ 2 ∷ 9 ∷ [])))
handle_connection-Within_example =
    handle_connection-Within r node 4 (arriving (1 ∷ 2 ∷ 9 ∷ [])) (omega arith)

-- A node on which the name `a` stands for 3.
abbrev named : Conn r node
named = record {
  state =
      limited c d n ℕ
        (record (Runtime.new c d n ℕ) { registry = record { names = (b'a' ∷ [], 3) ∷ [] } });
  source = record { bytes = (resolve_request 1024 (b'a' ∷ [])).0; last = closed };
  written = [];
  outcomes = [];
}

abbrev answered : r.Source
answered = record { bytes = to_be_bytes 8 3; last = closed }

found_named : node.resolve_name named.state (b'a' ∷ []) ≡ some 3
unfolding program
found_named = refl

resolve_remote-answered_example :
    (after : r.Source) × (last : r.Source) × (pid : ℕ) × ((resolve_request 1024 (b'a' ∷ [])).1
      ≡ ok tt)
    × (handle_connection r node 2 named
        ≡ some (ok tt, record named { source = after; written = to_be_bytes 8 3 }))
    × (resolve_answer r answered ≡ some (ok pid, last))
    × (resolve_remote_async (ok pid) ≡ some 3)
unfolding program
resolve_remote-answered_example =
    resolve_remote-answered r node 0 1024 named (b'a' ∷ []) answered refl (omega arith)
      (omega arith) (omega arith) refl refl refl (omega arith) (λ e. ground arith)

-- Two failures in a row are too many; pauses double up to 60.
abbrev backoff : Backoff
backoff = record { base = 10; scaled = λ curr. some (curr * 2); max_backoff = 60; threshold = 2 }

abbrev answering : Probe
answering = record { version_written = true; ping_written = true; pong = ok (3 ∷ []) }

-- A failure, a success and two failures, the last first.
abbrev probes : List (Bool × Option Probe)
probes = (true, none) ∷ (true, none) ∷ (true, some answering) ∷ (true, none) ∷ []

rounds-Watched_example : Watched backoff probes (rounds backoff probes)
rounds-Watched_example = rounds-Watched backoff probes

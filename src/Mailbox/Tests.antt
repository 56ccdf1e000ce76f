-- ===== src/Mailbox/Tests.antt =====
-- Runs of src/mailbox.rs over list channels, and its theorems at concrete mailboxes.
use myrmidon.Base.{
  ◌≡◌, refl, Bool, true, false, Option, none, some, [], ◌∷◌, ◌++◌, arith, same_text, ok,
}
use myrmidon.Base.Search.{position, remove_at}
use myrmidon.Deps.Mpsc.{Mpsc, Poll, ready, list_channel}
use myrmidon.Mailbox.Messages.{SystemMessage, Message, user, system}
use myrmidon.Mailbox.{
  Mailbox, fetch_add, fetch_sub, counted_down, counted_taken, channel, send, take_ready, recv_user,
  recv_select, recv, try_recv_user, try_recv, offer, select_user, select_round, round, rounds,
  selective_recv, len,
}
use myrmidon.Mailbox.Contents.{pending_system, pending_user, IsCounted}
use myrmidon.Mailbox.Sending.{send_lem}
use myrmidon.Mailbox.Receiving.{Receives, try_recv-Receives}
use myrmidon.Mailbox.Awaiting.{Polls, recv-Polls, recv_closed}
use myrmidon.Mailbox.Selective.{Selects}
use myrmidon.Mailbox.Selecting.{selective_recv-Selects}
use myrmidon.Mailbox.Counting.{sends, happens}

program : Unit {0}
unfolding fetch_add fetch_sub counted_down counted_taken channel send take_ready recv_user
    recv_select recv try_recv_user try_recv offer select_user select_round round rounds
    selective_recv position remove_at same_text happens
program = tt

abbrev c : Mpsc
c = list_channel

-- One deferred message, one of each kind in the channels.
abbrev busy : Mailbox c
busy = record {
  to_user = record { items = (5 ∷ []) ∷ (6 ∷ []) ∷ []; has_sender = true; has_receiver = true };
  to_sys = record { items = SystemMessage.ping ∷ []; has_sender = true; has_receiver = true };
  stash = user (4 ∷ []) ∷ [];
  counter = 3;
}

-- What `stop` leaves: no sender, and user messages in the channel.
abbrev stopped : Mailbox c
stopped = record {
  to_user = record { items = (5 ∷ []) ∷ []; has_sender = false; has_receiver = true };
  to_sys = record { items = []; has_sender = false; has_receiver = true };
  stash = [];
  counter = 1;
}

abbrev is_six : Message → Bool
is_six (user b) = same_text b (6 ∷ [])
is_six (system s) = false

-- The test `selective_receive_defers_and_preserves_order`.
after_selection : Mailbox c
after_selection = (selective_recv c is_six 4 busy).1

deferred :
    ((selective_recv c is_six 4 busy).0 ≡ some (ready (some (user (6 ∷ [])))))
    × ((recv c after_selection).0 ≡ ready (some (system SystemMessage.ping)))
    × ((recv c (recv c after_selection).1).0 ≡ ready (some (user (4 ∷ []))))
    × ((recv c (recv c (recv c after_selection).1).1).0 ≡ ready (some (user (5 ∷ []))))
unfolding program after_selection
deferred = (refl, refl, refl, refl)

busy-IsCounted : IsCounted c busy
busy-IsCounted = record { counted = refl; fits = omega arith }

send_lem_example :
    ((send c busy (user [])).1 ≡ ok tt)
    × (pending_system c (send c busy (user [])).0 ≡ pending_system c busy)
    × (pending_user c (send c busy (user [])).0 ≡ pending_user c busy ++ user [] ∷ [])
    × ((send c busy (user [])).0.counter ≡ 4)
unfolding program
send_lem_example = send_lem c busy (user []) (omega arith)

recv-Polls_example : Polls c busy (recv c busy).1 (recv c busy).0
recv-Polls_example = recv-Polls c busy

recv_closed_example :
    ((recv c stopped).0 ≡ ready none)
    × (pending_user c (recv c stopped).1 ≡ user (5 ∷ []) ∷ [])
    × ((try_recv c stopped).0 ≡ some (user (5 ∷ [])))
recv_closed_example = recv_closed c stopped refl refl refl

selective_recv-Selects_example :
    (p : Poll (Option Message)) × ((selective_recv c is_six 4 busy).0 ≡ some p)
    × Selects c is_six busy (selective_recv c is_six 4 busy).1 p
selective_recv-Selects_example = selective_recv-Selects c is_six 4 busy (omega arith)

abbrev one_waits : Mailbox c
one_waits = happens c (channel c) (sends (user (1 ∷ [])))

counted_once : len c one_waits ≡ 1
unfolding program len
counted_once = refl

try_recv-Receives_example : Receives c busy (try_recv c busy).1 (try_recv c busy).0
try_recv-Receives_example = try_recv-Receives c busy

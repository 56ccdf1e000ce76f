-- ===== src/Python/Handler/Inline.antt =====
-- A push actor of src/py.rs with a dedicated thread does what it would do without.
pub mod Refine
use mathlib.Core.Option
use myrmidon.Base.{
  subst, inl, inr, All-push, ℕ, ◌≡◌, refl, sym, ap, ◌∙◌, Bool, true, false, Option, none, some,
  List, [], ◌∷◌, ◌++◌, All, arith, List-cases,
}
use myrmidon.Deps.Mpsc.{Mpsc, Queue, pending, ready, polled, rest}
use myrmidon.Mailbox.Messages.{
  Bytes, SystemMessage, exit, hot_swap, ping, pong, Message, user, system,
}
use myrmidon.Python.Handler.{
  PoolTask, execute, swap, Actor, called, swapped, with_tx, handle_inline, handle, forward,
  thread_handles, thread_receives, thread_round,
}

-- A round of a thread with a channel, by what the channel gives.
pub round_receives :
    {c : Mpsc} (up : Bool) (threads : ℕ) (a : Actor c) (tx : c.Chan Message)
    → a.tx ≡ some tx
    → thread_round true up threads a
      ≡ thread_receives up threads (with_tx a (c.poll_recv tx).1) (c.poll_recv tx).0
unfolding thread_round
round_receives {c} up threads a tx e = ground (arith, e)

-- What Python sees of an actor: the behaviour in force, and the calls so far.
pub record Seen : Type 0 where
  pub behavior : ℕ
  pub calls : List (ℕ × Bytes)

-- The abstract handler: each message at once, in its turn.
unfoldable pub sees : Message → Seen → Seen
sees (user bytes) s = record s { calls = s.calls ++ (s.behavior, bytes) ∷ [] }
sees (system (hot_swap ptr)) s = record s { behavior = ptr }
sees (system _) s = s

unfoldable pub sees_all : List Message → Seen → Seen
sees_all [] s = s
sees_all (msg ∷ msgs) s = sees_all msgs (sees msg s)

sees_all-push :
    (msgs : List Message) (m : Message) (s : Seen)
    → sees_all (msgs ++ m ∷ []) s ≡ sees m (sees_all msgs s)
unfolding sees_all
sees_all-push [] m s = refl
sees_all-push (x ∷ msgs) m s = sees_all-push msgs m (sees x s)

-- A message that the handler forwards to the thread.
pub data IsForwarded : Message → Type 0 where
  a_user : (bytes : Bytes) → IsForwarded (user bytes)
  a_swap : (ptr : ℕ) → IsForwarded (system (hot_swap ptr))

-- The handler is called with a message, or the thread goes one round.
pub data Event : Type 0 where
  handles : Message → Event
  goes_round : Event

module _ {c : Mpsc} where
  abbrev pub seen : Actor c → Seen
  seen a = record { behavior = a.behavior; calls = a.calls }

  -- What Python will have seen when the thread is through with its channel.
  abbrev pub seen_at_last : Actor c → c.Chan Message → Seen
  seen_at_last a tx = sees_all (c.state tx).items (seen a)

  -- A dedicated thread that runs, whose channel has what the handler forwards only.
  pub record IsDedicated (a : Actor c) (tx : c.Chan Message) : Type 0 where
    pub has_tx : a.tx ≡ some tx
    pub runs : a.is_running ≡ true
    pub receives : (c.state tx).has_receiver ≡ true
    pub held : (c.state tx).has_sender ≡ true
    pub forwarded : All IsForwarded (c.state tx).items

  abbrev pub happens : Event → ℕ × Actor c → ℕ × Actor c
  happens (handles msg) (threads, a) = (threads, (handle true 0 msg none a).1)
  happens goes_round (threads, a) = thread_round true true threads a

  pub happen : List Event → ℕ × Actor c → ℕ × Actor c
  happen [] s = s
  happen (e ∷ es) s = happen es (happens e s)

-- The messages that the handler is called with.
abbrev pub handled_messages : List Event → List Message
handled_messages [] = []
handled_messages (handles msg ∷ es) = msg ∷ handled_messages es
handled_messages (goes_round ∷ es) = handled_messages es

module _ {c : Mpsc} where
  pub seen_inline : (msg : Message) (a : Actor c) → seen (handle_inline msg a) ≡ sees msg (seen a)
  unfolding handle_inline sees
  seen_inline (user bytes) a = refl
  seen_inline (system (hot_swap ptr)) a = refl
  seen_inline (system (exit info)) a = refl
  seen_inline (system ping) a = refl
  seen_inline (system pong) a = refl

  -- What holds behind an event: the actor has a channel still, and Python will have seen as much.
  pub record Follows (s : Seen) (a : Actor c) : Type 0 where
    pub chan : c.Chan Message
    pub dedicated : IsDedicated a chan
    pub agrees : seen_at_last a chan ≡ s

  forward_dedicated :
      (msg : Message) (a : Actor c) (tx : c.Chan Message) (task : PoolTask)
      → a.tx ≡ some tx
      → (forward 0 task msg none a).1 ≡ with_tx a (c.send tx msg).1
  unfolding forward
  forward_dedicated msg a tx task e = ground (arith, e)

  sent-IsDedicated :
      (msg : Message) (a : Actor c) (tx : c.Chan Message)
      → IsDedicated a tx
      → IsForwarded msg
      → IsDedicated (with_tx a (c.send tx msg).1) (c.send tx msg).1
  sent-IsDedicated msg a tx v f =
      let after = c.state-send tx msg in
      record {
        has_tx = refl;
        runs = v.runs;
        receives = ground (arith, after, v.receives);
        held = ground (arith, after, v.receives, v.held);
        forwarded =
            subst (λ q. All IsForwarded q.items) (sym after)
              (rw v.receives (All-push IsForwarded (c.state tx).items msg v.forwarded f));
      }

  forward-Follows :
      (msg : Message) (a : Actor c) (tx : c.Chan Message) (task : PoolTask)
      → IsDedicated a tx
      → IsForwarded msg
      → Follows (sees msg (seen_at_last a tx)) (forward 0 task msg none a).1
  forward-Follows msg a tx task v f =
      subst (Follows (sees msg (seen_at_last a tx)))
        (sym (forward_dedicated msg a tx task v.has_tx))
        (record {
          chan = (c.send tx msg).1;
          dedicated = sent-IsDedicated msg a tx v f;
          agrees =
              ap (λ q. sees_all q.items (seen a)) (c.state-send tx msg)
              ∙ rw v.receives (sees_all-push (c.state tx).items msg (seen a));
        })

  pub handle-Follows :
      (msg : Message) (a : Actor c) (tx : c.Chan Message)
      → IsDedicated a tx
      → Follows (sees msg (seen_at_last a tx)) (handle true 0 msg none a).1
  unfolding handle sees
  handle-Follows (user bytes) a tx v =
      forward-Follows (user bytes) a tx (execute 0 bytes) v (a_user bytes)
  handle-Follows (system (hot_swap ptr)) a tx v =
      forward-Follows (system (hot_swap ptr)) a tx (swap 0 ptr) v (a_swap ptr)
  handle-Follows (system (exit info)) a tx v = record { chan = tx; dedicated = v; agrees = refl }
  handle-Follows (system ping) a tx v = record { chan = tx; dedicated = v; agrees = refl }
  handle-Follows (system pong) a tx v = record { chan = tx; dedicated = v; agrees = refl }

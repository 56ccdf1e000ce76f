-- ===== src/Runtime/Invariant.antt =====
-- The invariant of the runtime of src/lib.rs: whom a sender leads to is alive, and no two actors
-- share a mailbox.
use myrmidon.Base.{
  ℕ, ◌%◌, ◌^◌, ◌<◌, ◌≢◌, ◌≡◌, refl, sym, ap, ◌∙◌, ◌⊎◌, inl, inr, true, false, ◌||◌, none, some, [],
  ◌∷◌, ◌++◌, ◌==◌, if◌then◌else◌, err, same_text, length, get_elem?, get_elem?-set, length-set,
  get_elem?-push, length-append, arith, Option-cases, Bool-cases,
}
use myrmidon.Deps.DashMap.{DashMap}
use myrmidon.Deps.Mpsc.{Mpsc}
use myrmidon.Pid
use myrmidon.Pid.Invariant
use myrmidon.Pid.Validity.{allocate-is_valid}
use myrmidon.Mailbox
use myrmidon.Mailbox.{Mailbox}
use myrmidon.Mailbox.Messages.{Message}
use myrmidon.Supervisor.{Pid, Text}
use myrmidon.Runtime.{
  Runtime, new, box_at, put_box, send, hot_swap, is_alive, closed, stop, spawn_actor,
}

module _ {c : Mpsc} {d : DashMap ℕ ◌==◌} {n : DashMap Text same_text} {Factory : Type 0} where
  pub record IsWf (rt : Runtime c d n Factory) : Type 0 where
    pub slab : Pid.Invariant.IsWf rt.slab
    pub alive : (q : Pid) (i : ℕ) → d.get rt.mailboxes q ≡ some i → is_alive rt q ≡ true
    pub small : (q : Pid) (i : ℕ) → d.get rt.mailboxes q ≡ some i → q < 2 ^ 64
    pub bounded : (q : Pid) (i : ℕ) → d.get rt.mailboxes q ≡ some i → i < length rt.boxes
    pub separate :
        (p q : Pid) (i : ℕ) → d.get rt.mailboxes p ≡ some i → d.get rt.mailboxes q ≡ some i → p ≡ q

  -- What leaves the allocator, the mailboxes and their map alone.
  pub same_slots-IsWf :
      (rt after : Runtime c d n Factory)
      → IsWf rt
      → after.slab ≡ rt.slab
      → after.boxes ≡ rt.boxes
      → after.mailboxes ≡ rt.mailboxes
      → IsWf after
  unfolding is_alive
  same_slots-IsWf rt after v slab boxes mailboxes = record {
    slab = rw slab v.slab;
    alive = λ q i e. rw slab (v.alive q i (ap (λ m. d.get m q) (sym mailboxes) ∙ e));
    small = λ q i e. v.small q i (ap (λ m. d.get m q) (sym mailboxes) ∙ e);
    bounded = λ q i e. rw boxes (v.bounded q i (ap (λ m. d.get m q) (sym mailboxes) ∙ e));
    separate = λ p q i e f.
        v.separate p q i (ap (λ m. d.get m p) (sym mailboxes) ∙ e)
          (ap (λ m. d.get m q) (sym mailboxes) ∙ f);
  }

  -- The parts of a box that was found.
  pub found :
      (rt : Runtime c d n Factory) (q : Pid) (i : ℕ) (m : Mailbox c)
      → box_at rt q ≡ some (i, m)
      → (d.get rt.mailboxes q ≡ some i) × (get_elem? rt.boxes i ≡ some m)
  unfolding box_at
  found rt q i m e = elim (Option-cases (d.get rt.mailboxes q)) [
    | inl f ↦ absurd (ground arith)
    | inr (j, f) ↦ elim (Option-cases (get_elem? rt.boxes j)) [
      | inl g ↦ absurd (ground arith)
      | inr (m', g) ↦ (ground arith, ground arith)
    ]
  ]

  pub box_at_lem :
      (rt : Runtime c d n Factory) (q : Pid) (i : ℕ) (m : Mailbox c)
      → d.get rt.mailboxes q ≡ some i
      → get_elem? rt.boxes i ≡ some m
      → box_at rt q ≡ some (i, m)
  unfolding box_at
  box_at_lem rt q i m e f = ground arith

  -- Changing the mailbox of one actor changes nobody else's.
  pub box_at-put_box :
      (rt : Runtime c d n Factory) (pid q : Pid) (i : ℕ) (m m' : Mailbox c)
      → IsWf rt
      → box_at rt pid ≡ some (i, m)
      → box_at (put_box rt i m') q ≡ (if pid == q then some (i, m') else box_at rt q)
  unfolding box_at put_box
  box_at-put_box rt pid q i m m' v e =
      let (f, g) = found rt pid i m e in
      let fits = v.bounded pid i f in
      elim (Option-cases (d.get rt.mailboxes q)) [
        | inl none_at ↦ ground arith
        | inr (j, at) ↦ elim (Bool-cases (i == j)) [
          | inl same ↦
              let pid_is : pid ≡ q = v.separate pid q i f (at ∙ ap some (sym (ground arith))) in
              ground (arith, get_elem?-set rt.boxes i j m')
          | inr other ↦ ground (arith, get_elem?-set rt.boxes i j m')
        ]
      ]

  pub put_box-IsWf :
      (rt : Runtime c d n Factory) (i : ℕ) (m : Mailbox c) → IsWf rt → IsWf (put_box rt i m)
  unfolding put_box is_alive
  put_box-IsWf rt i m v = record {
    slab = v.slab;
    alive = v.alive;
    small = v.small;
    bounded = λ q j e. omega (arith, v.bounded q j e, length-set rt.boxes i m);
    separate = v.separate;
  }

  pub send_found :
      (rt : Runtime c d n Factory) (pid : Pid) (i : ℕ) (m : Mailbox c) (msg : Message)
      → box_at rt pid ≡ some (i, m)
      → send rt pid msg ≡ (put_box rt i (Mailbox.send c m msg).0, (Mailbox.send c m msg).1)
  unfolding send
  send_found rt pid i m msg e = ground arith

  pub send_missing :
      (rt : Runtime c d n Factory) (pid : Pid) (msg : Message)
      → box_at rt pid ≡ none
      → send rt pid msg ≡ (rt, err msg)
  unfolding send
  send_missing rt pid msg e = ground arith

  pub send-IsWf :
      (rt : Runtime c d n Factory) (pid : Pid) (msg : Message) → IsWf rt → IsWf (send rt pid msg).0
  send-IsWf rt pid msg v = elim (Option-cases (box_at rt pid)) [
    | inl e ↦ rw (send_missing rt pid msg e) v
    | inr ((i, m), e) ↦
        rw (send_found rt pid i m msg e) (put_box-IsWf rt i (Mailbox.send c m msg).0 v)
  ]

  pub hot_swap-IsWf :
      (rt : Runtime c d n Factory) (pid : Pid) (handler_ptr : ℕ)
      → IsWf rt
      → IsWf (hot_swap rt pid handler_ptr)
  unfolding hot_swap
  hot_swap-IsWf rt pid handler_ptr v = elim (Option-cases (box_at rt pid)) [
    | inl e ↦ rw (e, hot_swap) v
    | inr ((i, m), e) ↦ rw (e, hot_swap) (put_box-IsWf rt i _ v)
  ]

  -- An actor leaves the map, and everyone else stays alive.
  pub removed-IsWf :
      (rt after : Runtime c d n Factory) (pid : Pid)
      → IsWf rt
      → Pid.Invariant.IsWf after.slab
      → ((q : Pid)
          → (pid == q) ≡ false
          → q < 2 ^ 64
          → is_alive rt q ≡ true
          → is_alive after q ≡ true)
      → length after.boxes ≡ length rt.boxes
      → ((q : Pid) → d.get after.mailboxes q ≡ (if pid == q then none else d.get rt.mailboxes q))
      → IsWf after
  removed-IsWf rt after pid v slab alive len at =
      let kept : (q : Pid) (i : ℕ)
          → d.get after.mailboxes q ≡ some i
          → ((pid == q) ≡ false) × (d.get rt.mailboxes q ≡ some i) =
        λ q i e. (ground (arith, e, at q), ground (arith, e, at q)) in
      record {
        slab = slab;
        alive = λ q i e.
            alive q (kept q i e).0 (v.small q i (kept q i e).1) (v.alive q i (kept q i e).1);
        small = λ q i e. v.small q i (kept q i e).1;
        bounded = λ q i e. omega (arith, len, v.bounded q i (kept q i e).1);
        separate = λ p q i e f. v.separate p q i (kept p i e).1 (kept q i f).1;
      }

  pub stop_parts :
      (rt : Runtime c d n Factory) (pid : Pid)
      → ((stop rt pid).slab ≡ rt.slab)
        × ((stop rt pid).supervisor ≡ rt.supervisor)
        × (length (stop rt pid).boxes ≡ length rt.boxes)
        × ((stop rt pid).mailboxes ≡ d.remove rt.mailboxes pid)
  unfolding stop
  stop_parts rt pid = elim (Option-cases (box_at rt pid)) [
    | inl e ↦ rw (e, stop) (refl, refl, refl, refl)
    | inr ((i, m), e) ↦ rw (e, stop) (refl, refl, length-set rt.boxes i (closed c m), refl)
  ]

  pub stop-IsWf : (rt : Runtime c d n Factory) (pid : Pid) → IsWf rt → IsWf (stop rt pid)
  unfolding is_alive
  stop-IsWf rt pid v =
      let (slab, supervisor, len, mailboxes) = stop_parts rt pid in
      removed-IsWf rt (stop rt pid) pid v (rw slab v.slab) (λ q ne fits alive. rw slab alive) len
        (λ q. rw mailboxes (d.get-remove rt.mailboxes pid q))

  -- What a spawn does before anything runs: a fresh identifier whose sender leads to an empty mailbox.
  pub record Spawned (rt after : Runtime c d n Factory) (pid : Pid) : Type 0 where
    pub wf : IsWf after
    pub small : pid < 2 ^ 64
    pub was_dead : is_alive rt pid ≡ false
    pub alive : (q : Pid) → is_alive after q ≡ (pid == q % 2 ^ 64 || is_alive rt q)
    pub own : box_at after pid ≡ some (length rt.boxes, Mailbox.channel c)
    pub others : (q : Pid) → (pid == q) ≡ false → box_at after q ≡ box_at rt q

  -- On a well-formed runtime whose allocator has room, a spawn gives an identifier that was not alive
  -- and is now, the only one that has become so; its sender leads to a new, empty mailbox that no
  -- other actor shares, everyone else keeps theirs, and the runtime is well formed again.
  pub spawn_actor-Spawned :
      (rt : Runtime c d n Factory)
      → IsWf rt
      → (rt.slab.free_list ≢ []) ⊎ (length rt.slab.entries < 2 ^ 32)
      → (after : Runtime c d n Factory) × (pid : Pid) × (spawn_actor rt
          ≡ some (after, pid, length rt.boxes))
        × Spawned rt after pid
  unfolding spawn_actor is_alive box_at
  spawn_actor-Spawned rt v room =
      let (pid, slab, allocated, slab_wf, small, was_dead, alive) =
        allocate-is_valid rt.slab v.slab room in
      let after = record rt {
        slab = slab;
        boxes = rt.boxes ++ Mailbox.channel c ∷ [];
        mailboxes = d.insert rt.mailboxes pid (length rt.boxes);
      } in
      let at : (q : Pid)
          → d.get after.mailboxes q
            ≡ (if pid == q then some (length rt.boxes) else d.get rt.mailboxes q) =
        d.get-insert rt.mailboxes pid (length rt.boxes) in
      (
        after,
        pid,
        ground (arith, allocated),
        record {
          wf = record {
            slab = slab_wf;
            alive = λ q i e. ground (arith, e, at q, alive q, v.alive q i, small);
            small = λ q i e. ground (arith, e, at q, v.small q i, small);
            bounded = λ q i e.
                ground
                  (arith, e, at q, v.bounded q i, length-append rt.boxes (Mailbox.channel c ∷ []));
            separate = λ p q i e f.
                ground (arith, e, f, at p, at q, v.separate p q i, v.bounded p i, v.bounded q i);
          };
          small = small;
          was_dead = was_dead;
          alive = alive;
          own =
              ground (arith, at pid, get_elem?-push rt.boxes (Mailbox.channel c) (length rt.boxes));
          others = λ q ne. elim (Option-cases (d.get rt.mailboxes q)) [
            | inl e ↦ ground (arith, at q)
            | inr (i, e) ↦
                ground (arith, at q, v.bounded q i e, get_elem?-push rt.boxes (Mailbox.channel c) i)
          ];
        },
      )

  pub new-IsWf : IsWf (new c d n Factory)
  unfolding new is_alive
  new-IsWf = record {
    slab = Pid.Invariant.new-IsWf;
    alive = λ q i e. absurd (ground (arith, d.get-new {V = ℕ} q));
    small = λ q i e. absurd (ground (arith, d.get-new {V = ℕ} q));
    bounded = λ q i e. absurd (ground (arith, d.get-new {V = ℕ} q));
    separate = λ p q i e f. absurd (ground (arith, d.get-new {V = ℕ} p));
  }

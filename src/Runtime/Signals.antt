-- ===== src/Runtime/Signals.antt =====
-- Exit signals of src/lib.rs: the loop that sends them, as each mailbox sees it.
use myrmidon.Base.{
  ℕ, zero, suc, ◌^◌, ◌<◌, ◌≡◌, refl, sym, ap, ◌∙◌, inl, inr, true, Option, none, some, List, [],
  ◌∷◌, ◌++◌, ◌==◌, if◌then◌else◌, Result, err, same_text, replicate, count, arith, Option-cases,
  Bool-cases,
}
use mathlib.Core.List.{append-nil, append_assoc}
use myrmidon.Deps.DashMap.{DashMap}
use myrmidon.Deps.Mpsc.{Mpsc}
use myrmidon.Mailbox
use myrmidon.Mailbox.{Mailbox}
use myrmidon.Mailbox.Messages.{SystemMessage, Message, system, ExitInfo}
use myrmidon.Mailbox.Contents.{pending_system, pending_user}
use myrmidon.Mailbox.Sending.{send_lem}
use myrmidon.Supervisor.{Pid, Text}
use myrmidon.Runtime.{Runtime, box_at, put_box, send, signal}
use myrmidon.Runtime.Invariant.{IsWf, box_at-put_box, send_found, send_missing, send-IsWf}

module _ (c : Mpsc) where
  -- What a caller of `send` is told, by the box found.
  abbrev pub answer : Message → Option (ℕ × Mailbox c) → Result (Unit {0}) Message
  answer msg none = err msg
  answer msg (some (i, m)) = (Mailbox.send c m msg).1

  -- The box of `q` after a message for `pid`.
  abbrev pub reached : Pid → Pid → Message → Option (ℕ × Mailbox c) → Option (ℕ × Mailbox c)
  reached pid q msg none = none
  reached pid q msg (some (j, m)) = some (j, if pid == q then (Mailbox.send c m msg).0 else m)

  -- A mailbox after so many signals.
  pub signalled : ℕ → Message → Mailbox c → Mailbox c
  signalled zero msg m = m
  signalled (suc k) msg m = signalled k msg (Mailbox.send c m msg).0

  open_after :
      (m : Mailbox c) (s : SystemMessage)
      → (c.state (Mailbox.send c m (system s)).0.to_sys).has_receiver
        ≡ (c.state m.to_sys).has_receiver
  unfolding Mailbox.send
  open_after m s = elim (Bool-cases (c.state m.to_sys).has_receiver) [
    | inl e ↦ ground (arith, c.send_result m.to_sys s, c.state-send m.to_sys s)
    | inr e ↦ ground (arith, c.send_result m.to_sys s, c.state-send m.to_sys s)
  ]

  -- Signals to a mailbox whose actor still reads it wait behind what waited, and disturb nothing else.
  pub signalled_lem :
      (k : ℕ) (s : SystemMessage) (m : Mailbox c)
      → m.counter < 2 ^ 64
      → (c.state m.to_sys).has_receiver ≡ true
      → (pending_system c (signalled k (system s) m) ≡ pending_system c m ++ replicate k (system s))
        × (pending_user c (signalled k (system s) m) ≡ pending_user c m)
        × ((signalled k (system s) m).counter ≡ m.counter)
  unfolding signalled
  signalled_lem zero s m h e = (sym (append-nil _), refl, refl)
  signalled_lem (suc k) s m h e =
      let (sent, sys, usr, counter) = send_lem c m (system s) h in
      let m' = (Mailbox.send c m (system s)).0 in
      let same : m'.counter ≡ m.counter = ground arith in
      let (sys', usr', counter') =
        signalled_lem k s m' (omega (arith, same)) (open_after m s ∙ e) in
      let one : pending_system c m' ≡ pending_system c m ++ system s ∷ [] = ground arith in
      let usr_same : pending_user c m' ≡ pending_user c m = ground arith in
      (
        sys'
            ∙ ap (λ l. l ++ replicate k (system s)) one
            ∙ append_assoc (pending_system c m) (system s ∷ []) (replicate k (system s)),
        usr' ∙ usr_same,
        counter' ∙ same,
      )

module _ {c : Mpsc} {d : DashMap ℕ ◌==◌} {n : DashMap Text same_text} {Factory : Type 0} where
  same_box :
      (rt : Runtime c d n Factory) (pid q : Pid) (i j : ℕ) (m m' : Mailbox c)
      → (pid == q) ≡ true
      → box_at rt pid ≡ some (i, m)
      → box_at rt q ≡ some (j, m')
      → (i ≡ j) × (m ≡ m')
  same_box rt pid q i j m m' same e f =
      let pid_is : pid ≡ q = ground arith in
      let there : box_at rt q ≡ some (i, m) = sym (ap (box_at rt) pid_is) ∙ e in
      (ground arith, ground arith)

  pub box_at-send :
      (rt : Runtime c d n Factory) (pid q : Pid) (msg : Message) (j : ℕ) (m : Mailbox c)
      → IsWf rt
      → box_at rt q ≡ some (j, m)
      → box_at (send rt pid msg).0 q ≡ some (j, if pid == q then (Mailbox.send c m msg).0 else m)
  box_at-send rt pid q msg j m v f = elim (Option-cases (box_at rt pid)) [
    | inl e ↦ elim (Bool-cases (pid == q)) [
      | inl same ↦
          let pid_is : pid ≡ q = ground arith in
          let missing : box_at rt q ≡ none = sym (ap (box_at rt) pid_is) ∙ e in
          absurd (ground arith)
      | inr other ↦ rw (send_missing rt pid msg e, other) f
    ]
    | inr ((i, m'), e) ↦ elim (Bool-cases (pid == q)) [
      | inl same ↦
          let (i_is, m_is) = same_box rt pid q i j m' m same e f in
          rw (send_found rt pid i m' msg e) (
            box_at-put_box rt pid q i m' (Mailbox.send c m' msg).0 v e ∙ rw (same, i_is, m_is) refl)
      | inr other ↦
          rw (send_found rt pid i m' msg e)
            (box_at-put_box rt pid q i m' (Mailbox.send c m' msg).0 v e ∙ rw other f)
    ]
  ]

  pub box_at-send_absent :
      (rt : Runtime c d n Factory) (pid q : Pid) (msg : Message)
      → IsWf rt
      → box_at rt q ≡ none
      → box_at (send rt pid msg).0 q ≡ none
  box_at-send_absent rt pid q msg v f = elim (Option-cases (box_at rt pid)) [
    | inl e ↦ rw (send_missing rt pid msg e) f
    | inr ((i, m), e) ↦ elim (Bool-cases (pid == q)) [
      | inl same ↦
          let pid_is : pid ≡ q = ground arith in
          let missing : box_at rt pid ≡ none = ap (box_at rt) pid_is ∙ f in absurd (ground arith)
      | inr other ↦
          rw (send_found rt pid i m msg e)
            (box_at-put_box rt pid q i m (Mailbox.send c m msg).0 v e ∙ rw other f)
    ]
  ]

  -- On a well-formed runtime a message reaches the mailbox of the actor it is sent to, as the
  -- mailbox's own `send` has it, and changes no other; without a sender in the map the caller gets
  -- it back and no mailbox changes.
  pub send-box_at :
      (rt : Runtime c d n Factory) (pid q : Pid) (msg : Message)
      → IsWf rt
      → ((send rt pid msg).1 ≡ answer c msg (box_at rt pid))
        × (box_at (send rt pid msg).0 q ≡ reached c pid q msg (box_at rt q))
  send-box_at rt pid q msg v = (
    elim (Option-cases (box_at rt pid)) [
      | inl e ↦ rw (send_missing rt pid msg e, e) refl
      | inr ((i, m), e) ↦ rw (send_found rt pid i m msg e, e) refl
    ],
    elim (Option-cases (box_at rt q)) [
      | inl e ↦ rw e (box_at-send_absent rt pid q msg v e)
      | inr ((j, m), e) ↦ rw e (box_at-send rt pid q msg j m v e)
    ],
  )

  send_keeps :
      (rt : Runtime c d n Factory) (pid : Pid) (msg : Message)
      → ((send rt pid msg).0.slab ≡ rt.slab) × ((send rt pid msg).0.supervisor ≡ rt.supervisor)
  unfolding put_box
  send_keeps rt pid msg = elim (Option-cases (box_at rt pid)) [
    | inl e ↦ rw (send_missing rt pid msg e) (refl, refl)
    | inr ((i, m), e) ↦ rw (send_found rt pid i m msg e) (refl, refl)
  ]

  -- Over a loop of signals, the mailbox of an actor gets as many as it is listed.
  pub box_at-signal :
      (linked : List Pid) (info : ExitInfo) (rt : Runtime c d n Factory) (q : Pid) (i : ℕ)
      (m : Mailbox c)
      → IsWf rt
      → box_at rt q ≡ some (i, m)
      → box_at (signal linked info rt) q
        ≡ some (i, signalled c (count q linked) (system (SystemMessage.exit info)) m)
  unfolding signal signalled
  box_at-signal [] info rt q i m v e = e
  box_at-signal (lp ∷ linked) info rt q i m v e =
      let msg = system (SystemMessage.exit info) in
      elim (Bool-cases (lp == q)) [
        | inl same ↦
            let one_more : suc (count q linked) ≡ count q (lp ∷ linked) = ground arith in
            box_at-signal linked info (send rt lp msg).0 q i (Mailbox.send c m msg).0
              (send-IsWf rt lp msg v) (box_at-send rt lp q msg i m v e ∙ rw same refl)
            ∙ ap (λ k. some (i, signalled c k msg m)) one_more
        | inr other ↦
            let no_more : count q linked ≡ count q (lp ∷ linked) = ground arith in
            box_at-signal linked info (send rt lp msg).0 q i m (send-IsWf rt lp msg v)
              (box_at-send rt lp q msg i m v e ∙ rw other refl)
            ∙ ap (λ k. some (i, signalled c k msg m)) no_more
      ]

  pub box_at-signal_absent :
      (linked : List Pid) (info : ExitInfo) (rt : Runtime c d n Factory) (q : Pid)
      → IsWf rt
      → box_at rt q ≡ none
      → box_at (signal linked info rt) q ≡ none
  unfolding signal
  box_at-signal_absent [] info rt q v e = e
  box_at-signal_absent (lp ∷ linked) info rt q v e =
      let msg = system (SystemMessage.exit info) in
      box_at-signal_absent linked info (send rt lp msg).0 q (send-IsWf rt lp msg v)
        (box_at-send_absent rt lp q msg v e)

  -- Signals only touch mailboxes.
  pub signal_keeps :
      (linked : List Pid) (info : ExitInfo) (rt : Runtime c d n Factory)
      → ((signal linked info rt).slab ≡ rt.slab)
        × ((signal linked info rt).supervisor ≡ rt.supervisor)
  unfolding signal
  signal_keeps [] info rt = (refl, refl)
  signal_keeps (lp ∷ linked) info rt =
      let msg = system (SystemMessage.exit info) in
      let (slab, supervisor) = signal_keeps linked info (send rt lp msg).0 in
      let (slab', supervisor') = send_keeps rt lp msg in (slab ∙ slab', supervisor ∙ supervisor')

  pub signal-IsWf :
      (linked : List Pid) (info : ExitInfo) (rt : Runtime c d n Factory)
      → IsWf rt
      → IsWf (signal linked info rt)
  unfolding signal
  signal-IsWf [] info rt v = v
  signal-IsWf (lp ∷ linked) info rt v =
      signal-IsWf linked info _ (send-IsWf rt lp (system (SystemMessage.exit info)) v)

-- ===== src/Network/Peers/System.antt =====
-- The calls of `send_remote` of src/network.rs and the tasks of the connections, in any order.
use myrmidon.Base.{
  ℕ, ◌^◌, ◌<◌, ◌≢◌, ◌≡◌, refl, sym, ap, subst, ◌∙◌, inl, inr, ltb, some, List, [], ◌∷◌, ◌++◌, ok,
  same_text, length, get_elem?, set, arith, get_elem?-set, get_elem?-push, ◌==◌, Bool-cases,
  List-cases,
}
use mathlib.Core.List.{append_assoc}
use myrmidon.Deps.DashMap.{DashMap}
use myrmidon.Deps.Mpsc.{rest}
use myrmidon.Deps.BoundedMpsc.{BoundedMpsc}
use myrmidon.Deps.BufMut.{BufMut}
use myrmidon.Supervisor.{Text}
use myrmidon.Network.{Bytes, WriteOutcome}
use myrmidon.Network.Peers.{
  writing, removing, dropping, looking, sending, Call, send_remote, Link, Pool, turn, write_next,
  no_senders, remove_entry, end_writer,
}
use myrmidon.Network.Peers.Framing.{
  send_remote-Frame, flat, Frame, Stream, stream, IsFramed, IsWf, IsCall, Kept, Kept-Leads,
  set-Kept, set-IsWf, remove-IsWf,
}
use myrmidon.Network.Peers.Opening.{io-cases}
use myrmidon.Network.Peers.Turns.{Turned, turn-Turned}

module _ (b : BufMut) (limit : ℕ) (q : BoundedMpsc) (n : DashMap Text same_text) where
  -- The pool and the calls of `send_remote`, those that are over included.
  pub record Senders : Type 0 where
    pub pool : Pool q n
    pub calls : List Call

  abbrev with_link : Senders → ℕ → Link q n → Senders
  with_link s i l = record s { pool = record s.pool { links = set s.pool.links i l } }

  -- No sender of a connection is left: the pool has another or none, and no call is on it.
  pub record IsUnheld (s : Senders) (i : ℕ) (l : Link q n) : Type 0 where
    pub no_entry : n.get s.pool.peers l.addr ≢ some i
    pub no_call : (j : ℕ) (call : Call) → get_elem? s.calls j ≡ some call → call.stage ≢ sending i

  abbrev turned : Senders → ℕ → Pool q n × Call → Senders
  turned s j (pool, call) = record { pool = pool; calls = set s.calls j call }

  -- A call begins or takes a turn, or the task of a connection takes a step.
  pub data Step (s : Senders) : Senders → Type 0 where
    begins :
        (addr : Text) (pid : ℕ) (payload : Bytes) (call : Call)
        → pid < 2 ^ 64
        → length payload < 2 ^ 32
        → send_remote b limit addr pid payload ≡ ok call
        → Step s (record s { calls = s.calls ++ call ∷ [] })
    turns :
        (j : ℕ) (call : Call) (connected version_written : WriteOutcome)
        → get_elem? s.calls j ≡ some call
        → Step s (turned s j (turn q n s.pool call connected version_written))
    writes :
        (i : ℕ) (l : Link q n) (outcome : WriteOutcome) (part : ℕ)
        → get_elem? s.pool.links i ≡ some l
        → l.writer ≡ writing
        → Step s (with_link s i (write_next q n l outcome part))
    loses_senders :
        (i : ℕ) (l : Link q n)
        → get_elem? s.pool.links i ≡ some l
        → l.writer ≡ writing
        → (q.state l.queue).items ≡ []
        → IsUnheld s i l
        → Step s (with_link s i (no_senders q n l))
    removes :
        (i : ℕ) (l : Link q n)
        → get_elem? s.pool.links i ≡ some l
        → l.writer ≡ removing
        → Step s (record s { pool = remove_entry q n s.pool i l })
    ends :
        (i : ℕ) (l : Link q n)
        → get_elem? s.pool.links i ≡ some l
        → l.writer ≡ dropping
        → Step s (with_link s i (end_writer q n l))

  pub data Reach : Senders → Type 0 where
    start : Reach (record { pool = record { peers = n.new; links = [] }; calls = [] })
    later : {s after : Senders} → Reach s → Step s after → Reach after

  pub record IsOrdered (s : Senders) : Type 0 where
    pub pool_IsWf : IsWf b limit s.pool
    pub calls_IsCall :
        (j : ℕ) (call : Call) → get_elem? s.calls j ≡ some call → IsCall b limit s.pool call

  moved_call :
      (p p' : Pool q n) (call : Call)
      → Kept p.links p'.links
      → IsCall b limit p call
      → IsCall b limit p' call
  moved_call p p' call k w = record {
    sends_frame = w.sends_frame;
    target = λ i e. Kept-Leads k (w.target i e);
  }

  with_link-IsOrdered :
      (s : Senders) (i : ℕ) (l l' : Link q n)
      → get_elem? s.pool.links i ≡ some l
      → l'.addr ≡ l.addr
      → IsFramed b limit l'
      → IsOrdered s
      → IsOrdered (with_link s i l')
  with_link-IsOrdered s i l l' at same f v = record {
    pool_IsWf = set-IsWf b limit s.pool i l l' v.pool_IsWf at same f;
    calls_IsCall = λ j call e.
        moved_call s.pool (with_link s i l').pool call (set-Kept s.pool.links i l l' at same)
          (v.calls_IsCall j call e);
  }

  turned-IsOrdered :
      (s : Senders) (j : ℕ) (r : Pool q n × Call)
      → Turned b limit s.pool r
      → IsOrdered s
      → IsOrdered (turned s j r)
  turned-IsOrdered s j r t v = record {
    pool_IsWf = t.pool_IsWf;
    calls_IsCall = λ k call e. elim (Bool-cases (j == k)) [
      | inl here ↦ elim (Bool-cases (ltb j (length s.calls))) [
        | inl inside ↦
            let same : r.1 ≡ call =
              ground (arith, get_elem?-set s.calls j k r.1, e, here, inside) in
            subst (IsCall b limit r.0) same t.call_IsCall
        | inr outside ↦ absurd (ground (arith, get_elem?-set s.calls j k r.1, e, here, outside))
      ]
      | inr there ↦
          moved_call s.pool r.0 call t.kept
            (v.calls_IsCall k call (ground (arith, get_elem?-set s.calls j k r.1, e, there)))
    ];
  }

  -- A message that is taken and written is in its place still.
  moved_on :
      (l : Link q n) (msg : Bytes) (left : List Bytes)
      → (q.state l.queue).items ≡ msg ∷ left
      → stream b limit l ≡ (l.wire ++ msg) ++ flat (q.state (q.taken l.queue)).items
  moved_on l msg left e =
      ap (λ ms. l.wire ++ flat ms) e
      ∙ sym (append_assoc l.wire msg (flat left))
      ∙ ap (λ ms. (l.wire ++ msg) ++ flat ms)
          (sym (ap (λ s. s.items) (q.state-taken l.queue) ∙ ap rest e))

  write-addr :
      (l : Link q n) (outcome : WriteOutcome) (part : ℕ)
      → (write_next q n l outcome part).addr ≡ l.addr
  unfolding write_next
  write-addr l outcome part = elim (List-cases (q.state l.queue).items) [
    | inl e ↦ rw (e, write_next) refl
    | inr h ↦ elim (io-cases outcome) [
      | inl c ↦ rw (h.eq, c, write_next) refl
      | inr (kind, c) ↦ rw (h.eq, c, write_next) refl
    ]
  ]

  write-IsFramed :
      (l : Link q n) (outcome : WriteOutcome) (part : ℕ)
      → IsFramed b limit l
      → l.writer ≡ writing
      → IsFramed b limit (write_next q n l outcome part)
  unfolding write_next
  write-IsFramed l outcome part f w = elim (List-cases (q.state l.queue).items) [
    | inl e ↦ rw (e, write_next) f
    | inr h ↦ elim (io-cases outcome) [
      | inl c ↦
          rw (h.eq, c, write_next)
            (λ w'. subst (Stream b limit) (moved_on l h.first h.rest h.eq) (f w))
      | inr (kind, c) ↦ rw (h.eq, c, write_next) (λ w'. absurd (ground arith))
    ]
  ]

  begun-IsOrdered :
      (s : Senders) (call : Call)
      → Frame b limit call.msg
      → call.stage ≡ looking
      → IsOrdered s
      → IsOrdered (record s { calls = s.calls ++ call ∷ [] })
  begun-IsOrdered s call f looks v = record {
    pool_IsWf = v.pool_IsWf;
    calls_IsCall = λ j call' e. elim (Bool-cases (length s.calls == j)) [
      | inl here ↦
          let same : call ≡ call' = ground (arith, get_elem?-push s.calls call j, e, here) in
          subst (IsCall b limit s.pool) same
            (record { sends_frame = f; target = λ i at. absurd (ground arith) })
      | inr there ↦ v.calls_IsCall j call' (ground (arith, get_elem?-push s.calls call j, e, there))
    ];
  }

  Step-IsOrdered : {s after : Senders} → Step s after → IsOrdered s → IsOrdered after
  unfolding no_senders remove_entry end_writer
  Step-IsOrdered {s} (begins addr pid payload call small short e) v =
      let (frame, looks) = send_remote-Frame b limit addr pid payload call small short e in
      begun-IsOrdered s call frame looks v
  Step-IsOrdered {s} (turns j call connected version_written at) v =
      turned-IsOrdered s j (turn q n s.pool call connected version_written)
        (turn-Turned b limit s.pool call connected version_written v.pool_IsWf
          (v.calls_IsCall j call at))
        v
  Step-IsOrdered {s} (writes i l outcome part at w) v =
      with_link-IsOrdered s i l (write_next q n l outcome part) at (write-addr l outcome part)
        (write-IsFramed l outcome part (v.pool_IsWf.framed i l at) w) v
  Step-IsOrdered {s} (loses_senders i l at w empty held) v =
      with_link-IsOrdered s i l (no_senders q n l) at refl (λ w'. absurd (ground arith)) v
  Step-IsOrdered {s} (removes i l at w) v =
      let marked = record l { writer = dropping } in
      let there = with_link-IsOrdered s i l marked at refl (λ w'. absurd (ground arith)) v in
      record {
        pool_IsWf = remove-IsWf b limit (with_link s i marked).pool l.addr there.pool_IsWf;
        calls_IsCall = λ j call e.
            moved_call (with_link s i marked).pool (remove_entry q n s.pool i l) call
              (λ k m at'. record { link = m; at = at'; same_addr = refl })
              (there.calls_IsCall j call e);
      }
  Step-IsOrdered {s} (ends i l at w) v =
      with_link-IsOrdered s i l (end_writer q n l) at refl (λ w'. absurd (ground arith)) v

  pub Reach-IsOrdered : {s : Senders} → Reach s → IsOrdered s
  Reach-IsOrdered start = record {
    pool_IsWf = record {
      framed = λ i l at. absurd (ground arith);
      routed = λ addr i e. absurd (ground (arith, n.get-new {V = ℕ} addr, e));
    };
    calls_IsCall = λ j call e. absurd (ground arith);
  }
  Reach-IsOrdered (later r st) = Step-IsOrdered st (Reach-IsOrdered r)

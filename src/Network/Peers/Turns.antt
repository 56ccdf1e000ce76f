-- ===== src/Network/Peers/Turns.antt =====
-- One turn of a call of `send_remote` of src/network.rs, from any state of the pool.
use myrmidon.Base.{
  ℕ, ◌≢◌, ◌≡◌, refl, sym, ap, subst, ◌∙◌, inl, inr, some, [], ◌∷◌, ◌++◌, same_text, get_elem?,
  arith, Bool-cases, Option-cases,
}
use mathlib.Core.List.{append_assoc}
use myrmidon.Deps.DashMap.{DashMap}
use myrmidon.Deps.BoundedMpsc.{BoundedMpsc}
use myrmidon.Deps.BufMut.{BufMut}
use myrmidon.Supervisor.{Text}
use myrmidon.Network.{Bytes, WriteOutcome}
use myrmidon.Network.Peers.{
  Stage, looking, connecting, sending, returned, Call, Link, Pool, connect_peer, retry, send_to,
  turn, stage_of,
}
use myrmidon.Network.Peers.Framing.{
  flat, flat-push, Frame, Stream, Stream-push, IsFramed, Leads, IsWf, IsCall, Kept, Kept-Leads,
  set-Kept, set-IsWf, remove-IsWf,
}
use myrmidon.Network.Peers.Opening.{
  opened, opened-Kept, opened-Leads, opened-IsWf, connect-cases, polled_link, polled_pool, accepts,
  waits, is_gone, send_to-Sends,
}

module _ (b : BufMut) (limit : ℕ) {q : BoundedMpsc} {n : DashMap Text same_text} where
  -- What holds behind a turn.
  pub record Turned (p : Pool q n) (r : Pool q n × Call) : Type 0 where
    pub pool_IsWf : IsWf b limit r.0
    pub call_IsCall : IsCall b limit r.0 r.1
    pub kept : Kept p.links r.0.links

  -- A call goes on to a stage that is not on a connection.
  moved :
      (p : Pool q n) (call after : Call)
      → IsWf b limit p
      → IsCall b limit p call
      → after.msg ≡ call.msg
      → ((i : ℕ) → after.stage ≢ sending i)
      → Turned p (p, after)
  moved p call after v w same away = record {
    pool_IsWf = v;
    call_IsCall = record {
      sends_frame = subst (Frame b limit) (sym same) w.sends_frame;
      target = λ i e. absurd (away i e);
    };
    kept = λ i l at. record { link = l; at = at; same_addr = refl };
  }

  retry-Turned :
      (p : Pool q n) (call : Call)
      → IsWf b limit p
      → IsCall b limit p call
      → Turned p (retry q n p call)
  unfolding retry
  retry-Turned p call v w = elim (Bool-cases call.retried) [
    | inl again ↦ rw again (moved p call _ v w refl (λ i e. absurd (ground arith)))
    | inr first ↦ rw first (record {
      pool_IsWf = remove-IsWf b limit p call.addr v;
      call_IsCall = record { sends_frame = w.sends_frame; target = λ i e. absurd (ground arith) };
      kept = λ i l at. record { link = l; at = at; same_addr = refl };
    })
  ]

  connect-Turned :
      (p : Pool q n) (call : Call) (connected version_written : WriteOutcome)
      → IsWf b limit p
      → IsCall b limit p call
      → let (after, connection) = connect_peer q n p call.addr connected version_written in
        Turned p (after, record call { stage = stage_of q n connection })
  unfolding stage_of
  connect-Turned p call connected version_written v w =
      elim (connect-cases b limit p call.addr connected version_written) [
        | inl (e, r) ↦ rw r (moved p call _ v w refl (λ i e. absurd (ground arith)))
        | inr r ↦ rw r (record {
          pool_IsWf = opened-IsWf b limit p call.addr v;
          call_IsCall = record {
            sends_frame = w.sends_frame;
            target = λ i e.
                subst (λ k. Leads (opened b limit p call.addr).links k call.addr)
                  (ground (arith, e)) (opened-Leads b limit p call.addr);
          };
          kept = opened-Kept b limit p call.addr;
        })
      ]

  same_stream :
      (l : Link q n) (msg : Bytes)
      → (q.state (polled_link b limit l msg).queue).items ≡ (q.state l.queue).items
      → IsFramed b limit l
      → IsFramed b limit (polled_link b limit l msg)
  same_stream l msg e f w = subst (Stream b limit) (sym (ap (λ ms. l.wire ++ flat ms) e)) (f w)

  longer_stream :
      (l : Link q n) (msg : Bytes)
      → (q.state (polled_link b limit l msg).queue).items ≡ (q.state l.queue).items ++ msg ∷ []
      → Frame b limit msg
      → IsFramed b limit l
      → IsFramed b limit (polled_link b limit l msg)
  longer_stream l msg e frame f w =
      let items = (q.state l.queue).items in
      subst (Stream b limit)
        (append_assoc l.wire (flat items) msg
          ∙ sym (ap (λ ms. l.wire ++ flat ms) e ∙ ap (λ s. l.wire ++ s) (flat-push items msg)))
        (Stream-push b limit (l.wire ++ flat items) msg (f w) frame)

  -- A call whose connection changed in place.
  polled_call :
      (p : Pool q n) (call : Call) (i : ℕ) (l : Link q n)
      → get_elem? p.links i ≡ some l
      → IsCall b limit p call
      → IsCall b limit (polled_pool b limit p i l call.msg) call
  polled_call p call i l at w = record {
    sends_frame = w.sends_frame;
    target = λ j e.
        Kept-Leads (set-Kept p.links i l (polled_link b limit l call.msg) at refl) (w.target j e);
  }

  polled_behind :
      {p : Pool q n} {r : Pool q n × Call} (i : ℕ) (l : Link q n) (msg : Bytes)
      → get_elem? p.links i ≡ some l
      → Turned (polled_pool b limit p i l msg) r
      → Turned p r
  polled_behind {p} i l msg at t = record {
    pool_IsWf = t.pool_IsWf;
    call_IsCall = t.call_IsCall;
    kept =
        λ j m e. Kept-Leads t.kept (set-Kept p.links i l (polled_link b limit l msg) at refl j m e);
  }

  unchanged-IsWf :
      (p : Pool q n) (msg : Bytes) (i : ℕ) (l : Link q n)
      → get_elem? p.links i ≡ some l
      → (q.state (polled_link b limit l msg).queue).items ≡ (q.state l.queue).items
      → IsWf b limit p
      → IsWf b limit (polled_pool b limit p i l msg)
  unchanged-IsWf p msg i l at e v =
      set-IsWf b limit p i l (polled_link b limit l msg) v at refl
        (same_stream l msg e (v.framed i l at))

  send_to-Turned :
      (p : Pool q n) (call : Call) (i : ℕ) (l : Link q n)
      → get_elem? p.links i ≡ some l
      → IsWf b limit p
      → IsCall b limit p call
      → Turned p (send_to q n p call i l)
  send_to-Turned p call i l at v w =
      let behind = polled_pool b limit p i l call.msg in
      polled_behind i l call.msg at (elim (send_to-Sends b limit p call i l) [
        | accepts alive room items r ↦ rw r (
            moved behind call _
              (set-IsWf b limit p i l (polled_link b limit l call.msg) v at refl
                (longer_stream l call.msg items w.sends_frame (v.framed i l at)))
              (polled_call p call i l at w) refl (λ j e. absurd (ground arith)))
        | waits alive full items r ↦ rw r (record {
          pool_IsWf = unchanged-IsWf p call.msg i l at items v;
          call_IsCall = polled_call p call i l at w;
          kept = λ j m e. record { link = m; at = e; same_addr = refl };
        })
        | is_gone gone items r ↦ rw r (
            retry-Turned behind call (unchanged-IsWf p call.msg i l at items v)
              (polled_call p call i l at w))
      ])

  over_call :
      (p : Pool q n) (call : Call) → IsWf b limit p → IsCall b limit p call → Turned p (p, call)
  over_call p call v w = record {
    pool_IsWf = v;
    call_IsCall = w;
    kept = λ i l at. record { link = l; at = at; same_addr = refl };
  }

  looked-Turned :
      (p : Pool q n) (call : Call) (i : ℕ)
      → n.get p.peers call.addr ≡ some i
      → IsWf b limit p
      → IsCall b limit p call
      → Turned p (p, record call { stage = sending i })
  looked-Turned p call i e v w = record {
    pool_IsWf = v;
    call_IsCall = record {
      sends_frame = w.sends_frame;
      target = λ j s.
          subst (λ k. Leads p.links k call.addr) (ground (arith, s)) (v.routed call.addr i e);
    };
    kept = λ j l at. record { link = l; at = at; same_addr = refl };
  }

  pub turn-Turned :
      (p : Pool q n) (call : Call) (connected version_written : WriteOutcome)
      → IsWf b limit p
      → IsCall b limit p call
      → Turned p (turn q n p call connected version_written)
  unfolding turn
  turn-Turned p call connected version_written v w = go call.stage refl
    where
      go : (s : Stage) → call.stage ≡ s → Turned p (turn q n p call connected version_written)
      go looking e = elim (Option-cases (n.get p.peers call.addr)) [
        | inl missing ↦
            rw (e, missing, turn) (moved p call _ v w refl (λ i e. absurd (ground arith)))
        | inr (i, there) ↦ rw (e, there, turn) (looked-Turned p call i there v w)
      ]
      go connecting e = rw (e, turn) (connect-Turned p call connected version_written v w)
      go (sending i) e =
          let target = w.target i e in
          rw (e, target.at, turn) (send_to-Turned p call i target.link target.at v w)
      go (returned r) e = rw (e, turn) (over_call p call v w)

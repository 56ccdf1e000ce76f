-- ===== src/Network/Peers/Opening.antt =====
-- A connection opened into the pool of src/network.rs, and a message sent on one.
use myrmidon.Base.{
  ℕ, ◌<◌, ◌≤◌, ◌≡◌, refl, ap, subst, ◌⊎◌, inl, inr, true, false, ltb, ltb→lt, [], ◌∷◌, ◌++◌, ok,
  err, same_text, same_text_iff, length, set, arith, get_elem?-push, lt-length_of_get_elem?, ◌==◌,
  Bool-cases,
}
use myrmidon.Deps.DashMap.{DashMap}
use myrmidon.Deps.BoundedMpsc.{BoundedMpsc}
use myrmidon.Deps.BufMut.{BufMut}
use myrmidon.Deps.Reader.{ErrorKind}
use myrmidon.Supervisor.{Text}
use myrmidon.Network.{Bytes, protocol_version, WriteOutcome, complete, late, write_failed}
use myrmidon.Network.Connection.{sent}
use myrmidon.Network.Peers.{
  writing, returned, Call, Link, Pool, io_result, connect_peer, retry, send_to,
}
use myrmidon.Network.Peers.Framing.{flat, IsFramed, Leads, IsWf, Kept, Kept-Leads}

pub io-cases :
    (o : WriteOutcome) → (io_result o ≡ ok tt) ⊎ ((e : ErrorKind) × (io_result o ≡ err e))
io-cases complete = inl refl
io-cases late = inr (ErrorKind.timed_out, refl)
io-cases (write_failed kind) = inr (kind, refl)

module _ (q : BoundedMpsc) (n : DashMap Text same_text) where
  pub fresh : Text → Link q n
  fresh addr = record {
    addr = addr;
    queue = q.channel 1024;
    wire = protocol_version ∷ [];
    writer = writing;
  }

  pub fresh-IsFramed : (b : BufMut) (limit : ℕ) (addr : Text) → IsFramed b limit (fresh addr)
  unfolding fresh sent
  fresh-IsFramed b limit addr w = record {
    messages = [];
    fit = tt;
    framed = ap (λ s. protocol_version ∷ flat s.items) (q.state-channel 1024);
  }

module _ (b : BufMut) (limit : ℕ) {q : BoundedMpsc} {n : DashMap Text same_text} where
  pub opened : Pool q n → Text → Pool q n
  unfolding fresh
  opened p addr = record {
    peers = n.insert p.peers addr (length p.links);
    links = p.links ++ fresh q n addr ∷ [];
  }

  pub opened-Kept : (p : Pool q n) (addr : Text) → Kept p.links (opened p addr).links
  unfolding opened
  opened-Kept p addr i l at = record {
    link = l;
    at =
        ground
          (arith, get_elem?-push p.links (fresh q n addr) i, lt-length_of_get_elem? p.links i l at);
    same_addr = refl;
  }

  pub opened-Leads :
      (p : Pool q n) (addr : Text) → Leads (opened p addr).links (length p.links) addr
  unfolding opened fresh
  opened-Leads p addr = record {
    link = fresh q n addr;
    at = ground (arith, get_elem?-push p.links (fresh q n addr) (length p.links));
    same_addr = refl;
  }

  pub opened-IsWf : (p : Pool q n) (addr : Text) → IsWf b limit p → IsWf b limit (opened p addr)
  unfolding opened
  opened-IsWf p addr v = record {
    framed = λ i l at. elim (Bool-cases (length p.links == i)) [
      | inl here ↦
          let same : fresh q n addr ≡ l =
            ground (arith, get_elem?-push p.links (fresh q n addr) i, at, here) in
          subst (IsFramed b limit) same (fresh-IsFramed q n b limit addr)
      | inr there ↦
          v.framed i l (ground (arith, get_elem?-push p.links (fresh q n addr) i, at, there))
    ];
    routed = λ other i e. elim (Bool-cases (same_text addr other)) [
      | inl same ↦
          let addr_is : addr ≡ other = (same_text_iff addr other).0 same in
          let place : length p.links ≡ i =
            ground (arith, n.get-insert p.peers addr (length p.links) other, same, e) in
          subst (λ a. Leads (opened p addr).links i a) addr_is
            (subst (λ k. Leads (opened p addr).links k addr) place (opened-Leads p addr))
      | inr differ ↦ Kept-Leads (opened-Kept p addr) (
          v.routed other i
            (ground (arith, n.get-insert p.peers addr (length p.links) other, differ, e)))
    ];
  }

  pub connect-cases :
      (p : Pool q n) (addr : Text) (connected version_written : WriteOutcome)
      → ((e : ErrorKind) × (connect_peer q n p addr connected version_written ≡ (p, err e)))
        ⊎ (connect_peer q n p addr connected version_written ≡ (opened p addr, ok (length p.links)))
  unfolding connect_peer opened fresh
  connect-cases p addr connected version_written = elim (io-cases connected) [
    | inr (e, c) ↦ inl (e, rw (c, connect_peer) refl)
    | inl c ↦ elim (io-cases version_written) [
      | inr (e, w) ↦ inl (e, rw (c, w, connect_peer) refl)
      | inl w ↦ inr (rw (c, w, connect_peer) refl)
    ]
  ]

  -- The connection behind a poll of `send`.
  abbrev pub polled_link : Link q n → Bytes → Link q n
  polled_link l msg = record l { queue = (q.poll_send l.queue msg).1 }

  abbrev pub polled_pool : Pool q n → ℕ → Link q n → Bytes → Pool q n
  polled_pool p i l msg = record p { links = set p.links i (polled_link l msg) }

  -- What `send` on the channel of a connection comes to.
  pub data Sends (p : Pool q n) (call : Call) (i : ℕ) (l : Link q n) (r : Pool q n × Call)
      : Type 0 where
    accepts :
        (q.state l.queue).has_receiver ≡ true
        → length (q.state l.queue).items < (q.state l.queue).capacity
        → (q.state (polled_link l call.msg).queue).items ≡ (q.state l.queue).items ++ call.msg ∷ []
        → r ≡ (polled_pool p i l call.msg, record call { stage = returned (ok tt) })
        → Sends p call i l r
    waits :
        (q.state l.queue).has_receiver ≡ true
        → (q.state l.queue).capacity ≤ length (q.state l.queue).items
        → (q.state (polled_link l call.msg).queue).items ≡ (q.state l.queue).items
        → r ≡ (polled_pool p i l call.msg, call)
        → Sends p call i l r
    is_gone :
        (q.state l.queue).has_receiver ≡ false
        → (q.state (polled_link l call.msg).queue).items ≡ (q.state l.queue).items
        → r ≡ retry q n (polled_pool p i l call.msg) call
        → Sends p call i l r

  pub send_to-Sends :
      (p : Pool q n) (call : Call) (i : ℕ) (l : Link q n)
      → Sends p call i l (send_to q n p call i l)
  unfolding send_to
  send_to-Sends p call i l =
      let s = q.state l.queue in
      let result = q.poll_send_result l.queue call.msg in
      let after = q.state-poll_send l.queue call.msg in
      elim (Bool-cases s.has_receiver) [
        | inr gone ↦
            is_gone gone (ground (arith, after, gone)) (rw (result, send_to) (rw gone refl))
        | inl alive ↦ elim (Bool-cases (ltb (length s.items) s.capacity)) [
          | inl room ↦
              accepts alive (ltb→lt _ _ room) (ground (arith, after, alive, room))
                (rw (result, send_to) (rw (alive, room) refl))
          | inr full ↦
              waits alive (ground arith) (ground (arith, after, alive, full))
                (rw (result, send_to) (rw (alive, full) refl))
        ]
      ]

-- ===== src/Network/Peers/Framing.antt =====
-- What stands on the connections of the pool of src/network.rs, under calls of `send_remote` and the
-- tasks of the connections in any order.
use myrmidon.Base.{
  ℕ, ◌^◌, ◌<◌, ◌≤◌, ◌≡◌, refl, sym, ap, subst, ◌∙◌, inl, inr, Bool, true, false, ltb, none, some,
  List, [], ◌∷◌, ◌++◌, if◌then◌else◌, ok, same_text, length, get_elem?, set, All, All-push, arith,
  get_elem?-set, lt-length_of_get_elem?, ◌==◌, Bool-cases,
}
use mathlib.Core.List.{append-nil, append_assoc}
use myrmidon.Deps.DashMap.{DashMap}
use myrmidon.Deps.BoundedMpsc.{BoundedMpsc}
use myrmidon.Deps.BufMut.{BufMut}
use myrmidon.Supervisor.{Text}
use myrmidon.Network.{Bytes, protocol_version, user_message, remote_frame}
use myrmidon.Network.Connection.{sent}
use myrmidon.Network.Peers.{writing, looking, sending, Call, send_remote, Link, Pool}

abbrev pub flat : List Bytes → Bytes
flat [] = []
flat (m ∷ ms) = m ++ flat ms

pub flat-push : (ms : List Bytes) (m : Bytes) → flat (ms ++ m ∷ []) ≡ flat ms ++ m
flat-push [] m = append-nil m
flat-push (x ∷ ms) m = ap (λ l. x ++ l) (flat-push ms m) ∙ sym (append_assoc x (flat ms) m)

-- A message that `send_remote` lets through at this limit, with its sizes in range.
pub record Fits (limit : ℕ) (message : ℕ × Bytes) : Type 0 where
  pub pid_fits : message.0 < 2 ^ 64
  pub length_fits : length message.1 < 2 ^ 32
  pub allowed : length message.1 ≤ limit

module _ {q : BoundedMpsc} {n : DashMap Text same_text} where
  -- The connection at a place was opened to an address.
  pub record Leads (links : List (Link q n)) (i : ℕ) (addr : Text) : Type 0 where
    pub link : Link q n
    pub at : get_elem? links i ≡ some link
    pub same_addr : link.addr ≡ addr

  -- Connections stay where they are.
  abbrev pub Kept : List (Link q n) → List (Link q n) → Type 0
  Kept links after = (i : ℕ) (l : Link q n) → get_elem? links i ≡ some l → Leads after i l.addr

  pub Kept-Leads :
      {links after : List (Link q n)} {i : ℕ} {addr : Text}
      → Kept links after
      → Leads links i addr
      → Leads after i addr
  Kept-Leads {i = i} k v =
      let v' = k i v.link v.at in
      record { link = v'.link; at = v'.at; same_addr = v'.same_addr ∙ v.same_addr }

  pub set-Kept :
      (links : List (Link q n)) (i : ℕ) (l l' : Link q n)
      → get_elem? links i ≡ some l
      → l'.addr ≡ l.addr
      → Kept links (set links i l')
  set-Kept links i l l' at same j m atj = elim (Bool-cases (i == j)) [
    | inl here ↦ record {
      link = l';
      at = ground (arith, get_elem?-set links i j l', lt-length_of_get_elem? links i l at);
      same_addr = ground (arith, same, at, atj);
    }
    | inr there ↦ record {
      link = m;
      at = ground (arith, get_elem?-set links i j l');
      same_addr = refl;
    }
  ]

module _ (b : BufMut) (limit : ℕ) where
  pub sent-push :
      (ms : List (ℕ × Bytes)) (pid : ℕ) (payload : Bytes)
      → sent b (ms ++ (pid, payload) ∷ []) ≡ sent b ms ++ user_message b pid payload
  unfolding sent
  sent-push [] pid payload = append-nil (user_message b pid payload)
  sent-push ((p, load) ∷ ms) pid payload =
      ap (λ l. user_message b p load ++ l) (sent-push ms pid payload)
      ∙ sym (append_assoc (user_message b p load) (sent b ms) (user_message b pid payload))

  -- The frame of one message.
  pub record Frame (msg : Bytes) : Type 0 where
    pub message : ℕ × Bytes
    pub fits : Fits limit message
    pub bytes : msg ≡ user_message b message.0 message.1

  -- A stream of bytes that is the version and then whole frames.
  pub record Stream (bytes : Bytes) : Type 0 where
    pub messages : List (ℕ × Bytes)
    pub fit : All (Fits limit) messages
    pub framed : bytes ≡ protocol_version ∷ sent b messages

  pub Stream-push : (bytes msg : Bytes) → Stream bytes → Frame msg → Stream (bytes ++ msg)
  Stream-push bytes msg s f = record {
    messages = s.messages ++ f.message ∷ [];
    fit = All-push (Fits limit) s.messages f.message s.fit f.fits;
    framed =
        ap (λ l. l ++ msg) s.framed
        ∙ ap (λ l. protocol_version ∷ l)
            (ap (λ l. sent b s.messages ++ l) f.bytes
              ∙ sym (sent-push s.messages f.message.0 f.message.1));
  }

  pub send_remote-Frame :
      (addr : Text) (pid : ℕ) (payload : Bytes) (call : Call)
      → pid < 2 ^ 64
      → length payload < 2 ^ 32
      → send_remote b limit addr pid payload ≡ ok call
      → Frame call.msg × (call.stage ≡ looking)
  unfolding send_remote remote_frame
  send_remote-Frame addr pid payload call small short e =
      elim (Bool-cases (ltb limit (length payload))) [
        | inl large ↦ absurd (ground arith)
        | inr allowed ↦ (
          record {
            message = (pid, payload);
            fits = record { pid_fits = small; length_fits = short; allowed = ground arith };
            bytes = ground arith;
          },
          ground arith,
        )
      ]

  module _ {q : BoundedMpsc} {n : DashMap Text same_text} where
    -- What is on the wire and what waits for it.
    abbrev pub stream : Link q n → Bytes
    stream l = l.wire ++ flat (q.state l.queue).items

    -- A connection whose writes have all succeeded carries whole frames.
    abbrev pub IsFramed : Link q n → Type 0
    IsFramed l = l.writer ≡ writing → Stream (stream l)

    -- Unbroken connections carry whole frames, and an entry leads to a connection to its address.
    pub record IsWf (p : Pool q n) : Type 0 where
      pub framed : (i : ℕ) (l : Link q n) → get_elem? p.links i ≡ some l → IsFramed l
      pub routed : (addr : Text) (i : ℕ) → n.get p.peers addr ≡ some i → Leads p.links i addr

    -- A call has a frame to send, and is on a connection to its address.
    pub record IsCall (p : Pool q n) (call : Call) : Type 0 where
      pub sends_frame : Frame call.msg
      pub target : (i : ℕ) → call.stage ≡ sending i → Leads p.links i call.addr

    pub set-IsFramed :
        (p : Pool q n) (i : ℕ) (l' : Link q n)
        → IsWf p
        → IsFramed l'
        → (j : ℕ) (m : Link q n) → get_elem? (set p.links i l') j ≡ some m
        → IsFramed m
    set-IsFramed p i l' v f j m at = elim (Bool-cases (i == j)) [
      | inl here ↦ elim (Bool-cases (ltb i (length p.links))) [
        | inl inside ↦
            let same : l' ≡ m = ground (arith, get_elem?-set p.links i j l', at, here, inside) in
            subst IsFramed same f
        | inr outside ↦ absurd (ground (arith, get_elem?-set p.links i j l', at, here, outside))
      ]
      | inr there ↦ v.framed j m (ground (arith, get_elem?-set p.links i j l', at, there))
    ]

    -- A connection changes in place, with the entries left as they are or one removed.
    pub set-IsWf :
        (p : Pool q n) (i : ℕ) (l l' : Link q n)
        → IsWf p
        → get_elem? p.links i ≡ some l
        → l'.addr ≡ l.addr
        → IsFramed l'
        → IsWf (record p { links = set p.links i l' })
    set-IsWf p i l l' v at same f = record {
      framed = set-IsFramed p i l' v f;
      routed = λ addr j e. Kept-Leads (set-Kept p.links i l l' at same) (v.routed addr j e);
    }

    pub remove-IsWf :
        (p : Pool q n) (addr : Text) → IsWf p → IsWf (record p { peers = n.remove p.peers addr })
    remove-IsWf p addr v = record {
      framed = v.framed;
      routed = λ other i e.
          v.routed other i
            (removed-get (same_text addr other) other i (n.get-remove p.peers addr other) e);
    }
      where
        removed-get :
            (same : Bool) (other : Text) (i : ℕ)
            → n.get (n.remove p.peers addr) other ≡ (if same then none else n.get p.peers other)
            → n.get (n.remove p.peers addr) other ≡ some i
            → n.get p.peers other ≡ some i
        removed-get true other i g e = absurd (ground (arith, g, e))
        removed-get false other i g e = sym g ∙ e

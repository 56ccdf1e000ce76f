-- ===== src/Supervisor/Links.antt =====
-- The links of src/supervisor.rs are symmetric, through every operation that touches them.
use myrmidon.Base.{
  ℕ, ◌+◌, ◌≡◌, inl, inr, not, List, [], ◌∷◌, ◌++◌, ◌==◌, if◌then◌else◌, keep, count, count-append,
  count-retain, arith, Option-cases,
}
use myrmidon.Deps.DashMap.{DashMap}
use myrmidon.Supervisor.{Pid, peers, retain_peers, push_peer, forget, remove_links}

module _ (d : DashMap ℕ ◌==◌) where
  peers-insert :
      (m : d.Map (List Pid)) (a x : Pid) (l : List Pid)
      → peers d (d.insert m a l) x ≡ (if a == x then l else peers d m x)
  peers-insert m a x l = ground (arith, d.get-insert m a l x)

  peers-remove :
      (m : d.Map (List Pid)) (a x : Pid)
      → peers d (d.remove m a) x ≡ (if a == x then [] else peers d m x)
  peers-remove m a x = ground (arith, d.get-remove m a x)

  -- How often `y` is linked from `x`.
  abbrev pub linked : d.Map (List Pid) → Pid → Pid → ℕ
  linked m x y = count y (peers d m x)

  pub linked-retain :
      (m : d.Map (List Pid)) (a b x y : Pid)
      → linked (retain_peers d m a b) x y
        ≡ (if a == x then (if b == y then 0 else linked m x y) else linked m x y)
  unfolding retain_peers
  linked-retain m a b x y = elim (Option-cases (d.get m a)) [
    | inl e ↦ ground (arith, e)
    | inr (l, e) ↦
        ground (arith, e, d.get-insert m a (keep (λ p. not (p == b)) l) x, count-retain y b l)
  ]

  pub linked-push :
      (m : d.Map (List Pid)) (a b x y : Pid)
      → linked (push_peer d m a b) x y
        ≡ (if a == x then linked m x y + (if b == y then 1 else 0) else linked m x y)
  unfolding push_peer
  linked-push m a b x y =
      ground
        (arith, peers-insert m a x (peers d m a ++ b ∷ []), count-append y (peers d m a) (b ∷ []))

  pub linked-forget :
      (vs : List Pid) (pid : Pid) (m : d.Map (List Pid)) (x y : Pid)
      → linked (forget d vs pid m) x y
        ≡ (if pid == y then (if count x vs == 0 then linked m x y else 0) else linked m x y)
  unfolding forget
  linked-forget [] pid m x y = ground arith
  linked-forget (v ∷ vs) pid m x y =
      ground (arith, linked-forget vs pid (retain_peers d m v pid) x y, linked-retain m v pid x y)

  pub linked-remove_links :
      (m : d.Map (List Pid)) (pid x y : Pid)
      → linked (remove_links d m pid) x y ≡ (
          if pid == x
          then 0
          else if pid == y
          then (if linked m pid x == 0 then linked m x y else 0)
          else linked m x y)
  unfolding remove_links
  linked-remove_links m pid x y = elim (Option-cases (d.get m pid)) [
    | inl e ↦ ground (arith, e, peers-remove m pid x)
    | inr (l, e) ↦ ground (arith, e, linked-forget l pid (d.remove m pid) x y, peers-remove m pid x)
  ]

  abbrev pub IsSymmetric : d.Map (List Pid) → Type 0
  IsSymmetric m = (x y : Pid) → linked m x y ≡ linked m y x

  pub remove_links-IsSymmetric :
      (m : d.Map (List Pid)) (pid : Pid) → IsSymmetric m → IsSymmetric (remove_links d m pid)
  remove_links-IsSymmetric m pid h x y =
      ground (
        arith,
        linked-remove_links m pid x y,
        linked-remove_links m pid y x,
        h x y,
        h pid x,
        h pid y,
      )

  pub link-IsSymmetric :
      (m : d.Map (List Pid)) (a b : Pid)
      → IsSymmetric m
      → IsSymmetric (push_peer d (push_peer d m a b) b a)
  link-IsSymmetric m a b h x y = ground (
    arith,
    linked-push (push_peer d m a b) b a x y,
    linked-push (push_peer d m a b) b a y x,
    linked-push m a b x y,
    linked-push m a b y x,
    h x y,
  )

  pub unlink-IsSymmetric :
      (m : d.Map (List Pid)) (a b : Pid)
      → IsSymmetric m
      → IsSymmetric (retain_peers d (retain_peers d m a b) b a)
  unlink-IsSymmetric m a b h x y = ground (
    arith,
    linked-retain (retain_peers d m a b) b a x y,
    linked-retain (retain_peers d m a b) b a y x,
    linked-retain m a b x y,
    linked-retain m a b y x,
    h x y,
  )

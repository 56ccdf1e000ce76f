-- ===== src/Supervisor/System.antt =====
-- A supervisor of src/supervisor.rs and its restart tasks, in any order, as long as calls that touch the
-- links do not overlap; and what comes of a `link` that does overlap with an exit.
use myrmidon.Base.{
  ◌&&◌, ◌||◌, ℕ, ◌+◌, ◌≡◌, refl, sym, inl, inr, false, Option, none, some, List, [], ◌∷◌, ◌++◌,
  ◌==◌, if◌then◌else◌, arith, count, Bool-cases, Result, ok, err, leb, subst,
}
use myrmidon.Deps.DashMap.{DashMap}
use myrmidon.Supervisor.{
  Pid, Text, ChildSpec, Task, Supervisor, peers, push_peer, retain_peers, new, add_child,
  remove_child, unlink, watch, link, push_link, remove_links, linked_pids, unwatch, notify_exit,
  attempt, failed, max_attempts,
}
use myrmidon.Supervisor.Links.{
  IsSymmetric, linked, linked-push, linked-retain, linked-remove_links, remove_links-IsSymmetric,
  link-IsSymmetric, unlink-IsSymmetric,
}

module _ (d : DashMap ℕ ◌==◌) (Factory : Type 0) where
  pub record World : Type 0 where
    pub sup : Supervisor d Factory
    pub tasks : List (Task Factory)

  -- What becomes of a task after an attempt.
  abbrev pub resumed : Option (Task Factory) → List (Task Factory)
  resumed none = []
  resumed (some t) = t ∷ []

  -- One call of a supervisor's method, or one attempt of one of its tasks, with nothing between its
  -- calls of the maps.
  pub data Step (w : World) : World → Type 0 where
    adds :
        (pid : Pid) (spec : ChildSpec Factory)
        → Step w (record w { sup = add_child d w.sup pid spec })
    removes : (pid : Pid) → Step w (record w { sup = remove_child d w.sup pid })
    watches :
        (same_pid : Pid → Factory) (pid : Pid)
        → Step w (record w { sup = watch d w.sup same_pid pid })
    unwatches : (pid : Pid) → Step w (record w { sup = unwatch d w.sup pid })
    links : (a b : Pid) → Step w (record w { sup = link d w.sup a b })
    unlinks : (a b : Pid) → Step w (record w { sup = unlink d w.sup a b })
    takes : (pid : Pid) → Step w (record w { sup = (linked_pids d w.sup pid).0 })
    exits :
        (pid : Pid)
        → Step w (record {
          sup = (notify_exit d w.sup pid).0;
          tasks = w.tasks ++ (notify_exit d w.sup pid).1;
        })
    attempts :
        (before behind : List (Task Factory)) (t : Task Factory) (answer : Result Pid Text)
        → w.tasks ≡ before ++ t ∷ behind
        → Step w (record {
          sup = (attempt d w.sup t answer).0;
          tasks = before ++ (resumed (attempt d w.sup t answer).1 ++ behind);
        })

  pub data Reach : World → Type 0 where
    start : Reach (record { sup = new d; tasks = [] })
    later : {v w : World} → Reach v → Step v w → Reach w

  notify_exit-links :
      (s : Supervisor d Factory) (pid : Pid) → (notify_exit d s pid).0.links ≡ s.links
  unfolding notify_exit
  notify_exit-links s pid = ground arith

  attempt-IsSymmetric :
      (s : Supervisor d Factory) (t : Task Factory) (answer : Result Pid Text)
      → IsSymmetric d s.links
      → IsSymmetric d (attempt d s t answer).0.links
  unfolding attempt
  attempt-IsSymmetric s t (ok new_pid) h = remove_links-IsSymmetric d s.links t.orig_pid h
  attempt-IsSymmetric s t (err e) h = elim (Bool-cases (leb max_attempts (t.attempts + 1))) [
    | inl last ↦ rw (last, failed) (remove_links-IsSymmetric d s.links t.orig_pid h)
    | inr more ↦ rw (more, failed) h
  ]

  Step-IsSymmetric :
      {v w : World} → Step v w → IsSymmetric d v.sup.links → IsSymmetric d w.sup.links
  unfolding add_child remove_child watch unwatch link push_link unlink linked_pids
  Step-IsSymmetric (adds pid spec) h = h
  Step-IsSymmetric {v} (removes pid) h = remove_links-IsSymmetric d v.sup.links pid h
  Step-IsSymmetric (watches same_pid pid) h = h
  Step-IsSymmetric (unwatches pid) h = h
  Step-IsSymmetric {v} (links a b) h = link-IsSymmetric d v.sup.links a b h
  Step-IsSymmetric {v} (unlinks a b) h = unlink-IsSymmetric d v.sup.links a b h
  Step-IsSymmetric {v} (takes pid) h = remove_links-IsSymmetric d v.sup.links pid h
  Step-IsSymmetric {v} (exits pid) h = subst (IsSymmetric d) (sym (notify_exit-links v.sup pid)) h
  Step-IsSymmetric {v} (attempts before behind t answer e) h = attempt-IsSymmetric v.sup t answer h

  new-IsSymmetric : IsSymmetric d (new d {Factory = Factory}).links
  unfolding new
  new-IsSymmetric x y = ground (arith, d.get-new {V = List Pid} x, d.get-new {V = List Pid} y)

  -- In every state that calls and restart attempts one after another can reach, links are symmetric: an
  -- actor is in another's list as often as the other is in its own.
  pub Reach-IsSymmetric : {w : World} → Reach w → IsSymmetric d w.sup.links
  Reach-IsSymmetric start = new-IsSymmetric
  Reach-IsSymmetric (later r st) = Step-IsSymmetric st (Reach-IsSymmetric r)

  -- On symmetric links `linked_pids` gives the actor's peers, after which the actor has none and is
  -- in nobody's list, while links between others stay.
  pub linked_pids_lem :
      (s : Supervisor d Factory) (pid : Pid)
      → IsSymmetric d s.links
      → ((linked_pids d s pid).1 ≡ peers d s.links pid)
        × ((x y : Pid)
            → linked d (linked_pids d s pid).0.links x y
              ≡ (if pid == x || pid == y then 0 else linked d s.links x y))
  unfolding linked_pids
  linked_pids_lem s pid h = (
    refl,
    λ x y. ground (
      arith,
      linked-remove_links d s.links pid x y,
      linked-remove_links d s.links pid pid y,
      linked-remove_links d s.links pid x pid,
      h x pid,
    ),
  )

  -- For two different actors `link` adds one link each way and `unlink` ends all links of the two;
  -- nobody else's change.
  pub link-unlink :
      (s : Supervisor d Factory) (a b x y : Pid)
      → (a == b) ≡ false
      → let between = (a == x && b == y) || (b == x && a == y) in
        (linked d (link d s a b).links x y ≡ linked d s.links x y + (if between then 1 else 0))
        × (linked d (unlink d (link d s a b) a b).links x y
            ≡ (if between then 0 else linked d s.links x y))
  unfolding link push_link unlink
  link-unlink s a b x y ne = (
    ground (arith, linked-push d (push_peer d s.links a b) b a x y, linked-push d s.links a b x y),
    ground (
      arith,
      linked-retain d (retain_peers d (push_peer d (push_peer d s.links a b) b a) a b) b a x y,
      linked-retain d (push_peer d (push_peer d s.links a b) b a) a b x y,
      linked-push d (push_peer d s.links a b) b a x y,
      linked-push d s.links a b x y,
    ),
  )

  -- The two statements of `link` for two different actors that are not linked, and the exit of the first
  -- of them, which takes its links. When the exit comes after both, no link of the two is left. When it
  -- comes between, it still finds its new peer, but that peer keeps a link to the actor that is gone,
  -- and the actor has none to it: the links are not symmetric any more.
  pub push_link-linked_pids :
      (s : Supervisor d Factory) (a b : Pid)
      → (a == b) ≡ false
      → IsSymmetric d s.links
      → linked d s.links a b ≡ 0
      → let half = push_link d s a b in
        let overlapped = push_link d (linked_pids d half a).0 b a in
        let whole = (linked_pids d (link d s a b) a).0 in
        (count b (linked_pids d half a).1 ≡ 1)
        × (linked d overlapped.links a b ≡ 0)
        × (linked d overlapped.links b a ≡ 1)
        × (linked d whole.links a b ≡ 0)
        × (linked d whole.links b a ≡ 0)
  unfolding push_link link linked_pids
  push_link-linked_pids s a b ne h none_yet =
      let half = push_peer d s.links a b in
      let taken = remove_links d half a in
      let both = push_peer d half b a in
      (
        ground (arith, linked-push d s.links a b a b),
        ground (arith, linked-push d taken b a a b, linked-remove_links d half a a b),
        ground (
          arith,
          linked-push d taken b a b a,
          linked-remove_links d half a b a,
          linked-push d s.links a b a b,
        ),
        ground (arith, linked-remove_links d both a a b),
        ground (
          arith,
          linked-remove_links d both a b a,
          linked-push d half b a a b,
          linked-push d s.links a b a b,
        ),
      )

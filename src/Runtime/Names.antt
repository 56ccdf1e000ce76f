-- ===== src/Runtime/Names.antt =====
-- Names, paths and path supervisors of the runtime of src/lib.rs.
use myrmidon.Base.{
  ℕ, ◌≡◌, refl, sym, ap, ◌∙◌, inl, inr, Bool, false, not, ◌&&◌, ◌||◌, Option, none, some, List, [],
  ◌∷◌, ◌++◌, ◌==◌, any, Result, ok, err, same_text, same_text_iff, arith, Option-cases, Bool-cases,
}
use myrmidon.Deps.DashMap.{DashMap}
use myrmidon.Deps.Mpsc.{Mpsc}
use myrmidon.Mailbox.Messages.{Message}
use myrmidon.Registry
use myrmidon.Supervisor
use myrmidon.Supervisor.{Pid, Text, ChildSpec, RestartStrategy, Supervisor, is_some}
use myrmidon.Runtime.{Runtime, send}

-- `"Send failed"`
abbrev pub send_failed : Text
send_failed = b'S' ∷ b'e' ∷ b'n' ∷ b'd' ∷ b' ' ∷ b'f' ∷ b'a' ∷ b'i' ∷ b'l' ∷ b'e' ∷ b'd' ∷ []

-- `format!("Name '{}' not found", name)`
abbrev pub name_not_found : Text → Text
name_not_found name =
    (b'N' ∷ b'a' ∷ b'm' ∷ b'e' ∷ b' ' ∷ 39 ∷ [])
    ++ (name ++ (39 ∷ b' ' ∷ b'n' ∷ b'o' ∷ b't' ∷ b' ' ∷ b'f' ∷ b'o' ∷ b'u' ∷ b'n' ∷ b'd' ∷ []))

-- `map_err(|_| "Send failed".to_string())`
abbrev pub sent_by_name : Result (Unit {0}) Message → Result (Unit {0}) Text
sent_by_name (ok done) = ok done
sent_by_name (err msg) = err send_failed

module _ (d : DashMap ℕ ◌==◌) {Factory : Type 0} where
  -- The loop of `watch_path`.
  pub watch_all : List (Text × Pid) → (Pid → Factory) → Supervisor d Factory → Supervisor d Factory
  watch_all [] same_pid s = s
  watch_all ((path, pid) ∷ children) same_pid s =
      watch_all children same_pid (Supervisor.watch d s same_pid pid)

  watched :
      (s : Supervisor d Factory) (same_pid : Pid → Factory) (pid q : Pid)
      → Supervisor.contains_child d (Supervisor.watch d s same_pid pid) q
        ≡ (pid == q || Supervisor.contains_child d s q)
  unfolding Supervisor.watch Supervisor.contains_child
  watched s same_pid pid q = ground (
    arith,
    d.get-insert s.children pid
        (record { factory = same_pid pid; strategy = RestartStrategy.restart_one }) q,
  )

  watch_all_lem :
      (children : List (Text × Pid)) (same_pid : Pid → Factory) (s : Supervisor d Factory) (q : Pid)
      → Supervisor.contains_child d (watch_all children same_pid s) q
        ≡ (any (λ e. e.1 == q) children || Supervisor.contains_child d s q)
  unfolding watch_all
  watch_all_lem [] same_pid s q = refl
  watch_all_lem ((path, pid) ∷ children) same_pid s q = ground (
    arith,
    watch_all_lem children same_pid (Supervisor.watch d s same_pid pid) q,
    watched s same_pid pid q,
  )

module _ {c : Mpsc} {d : DashMap ℕ ◌==◌} {n : DashMap Text same_text} {Factory : Type 0} where
  -- `register` and `register_path`.
  unfoldable pub register : Runtime c d n Factory → Text → Pid → Runtime c d n Factory
  register rt name pid = record rt { registry = Registry.register n rt.registry name pid }

  -- `unregister` and `unregister_path`.
  unfoldable pub unregister : Runtime c d n Factory → Text → Runtime c d n Factory
  unregister rt name = record rt { registry = Registry.unregister n rt.registry name }

  -- `resolve` and `whereis_path`.
  unfoldable pub resolve : Runtime c d n Factory → Text → Option Pid
  resolve rt name = Registry.resolve n rt.registry name

  unfoldable pub list_children_direct : Runtime c d n Factory → Text → List (Text × Pid)
  list_children_direct rt prefix = Registry.list_direct_children n rt.registry prefix

  unfoldable pub send_named :
      Runtime c d n Factory → Text → Message → Runtime c d n Factory × Result (Unit {0}) Text
  send_named rt name msg = elim (resolve rt name) [
    | none ↦ (rt, err (name_not_found name))
    | some pid ↦ let (after, sent) = send rt pid msg in (after, sent_by_name sent)
  ]

  unfoldable pub watch_path : Runtime c d n Factory → (Pid → Factory) → Text → Runtime c d n Factory
  unfolding watch_all
  watch_path rt same_pid prefix = record rt {
    supervisor = watch_all d (list_children_direct rt prefix) same_pid rt.supervisor;
  }

  -- `entry(path).or_insert_with(..)`
  unfoldable pub create_path_supervisor : Runtime c d n Factory → Text → Runtime c d n Factory
  create_path_supervisor rt path = elim (n.get rt.path_supervisors path) [
    | some s ↦ rt
    | none ↦ record rt { path_supervisors = n.insert rt.path_supervisors path (Supervisor.new d) }
  ]

  unfoldable pub remove_path_supervisor : Runtime c d n Factory → Text → Runtime c d n Factory
  remove_path_supervisor rt path = record rt {
    path_supervisors = n.remove rt.path_supervisors path;
  }

  unfoldable pub path_supervisor_watch :
      Runtime c d n Factory → (Pid → Factory) → Text → Pid → Runtime c d n Factory
  path_supervisor_watch rt same_pid path pid = elim (n.get rt.path_supervisors path) [
    | some s ↦ record rt {
      path_supervisors = n.insert rt.path_supervisors path (Supervisor.watch d s same_pid pid);
    }
    | none ↦ record rt { supervisor = Supervisor.watch d rt.supervisor same_pid pid }
  ]

  unfoldable pub path_supervisor_children : Runtime c d n Factory → Text → List Pid
  path_supervisor_children rt path = elim (n.get rt.path_supervisors path) [
    | some s ↦ Supervisor.child_pids d s
    | none ↦ []
  ]

  unfoldable pub path_supervise_with_factory :
      Runtime c d n Factory → Text → Pid → ChildSpec Factory → Runtime c d n Factory
  path_supervise_with_factory rt path pid spec =
      let entry : Supervisor d Factory = elim (n.get rt.path_supervisors path) [
        | some s ↦ s
        | none ↦ Supervisor.new d
      ] in
      record rt {
        path_supervisors =
            n.insert rt.path_supervisors path (Supervisor.add_child d entry pid spec);
      }

  -- Whether the supervisor of a path, if there is one, has the child.
  abbrev pub supervised_at : Runtime c d n Factory → Text → Pid → Bool
  supervised_at rt path q = elim (n.get rt.path_supervisors path) [
    | none ↦ false
    | some s ↦ Supervisor.contains_child d s q
  ]

  -- After `watch_path` the global supervisor has the children that it had and every actor that a name
  -- directly under the prefix stands for, and no other.
  pub watch_path_lem :
      (rt : Runtime c d n Factory) (same_pid : Pid → Factory) (prefix : Text) (q : Pid)
      → Supervisor.contains_child d (watch_path rt same_pid prefix).supervisor q ≡ (
          any (λ e. e.1 == q) (list_children_direct rt prefix)
          || Supervisor.contains_child d rt.supervisor q)
  unfolding watch_path
  watch_path_lem rt same_pid prefix q =
      watch_all_lem d (list_children_direct rt prefix) same_pid rt.supervisor q

  path_watched :
      (rt : Runtime c d n Factory) (same_pid : Pid → Factory) (path other : Text) (pid q : Pid)
      (s : Supervisor d Factory)
      → n.get rt.path_supervisors path ≡ some s
      → supervised_at
          (record rt {
            path_supervisors =
                n.insert rt.path_supervisors path (Supervisor.watch d s same_pid pid);
          })
          other
          q
        ≡ ((same_text path other && (pid == q)) || supervised_at rt other q)
  path_watched rt same_pid path other pid q s e =
      let at = n.get-insert rt.path_supervisors path (Supervisor.watch d s same_pid pid) other in
      elim (Bool-cases (same_text path other)) [
        | inl same ↦
            let path_is : path ≡ other = (same_text_iff path other).0 same in
            let there : n.get rt.path_supervisors other ≡ some s =
              sym (ap (n.get rt.path_supervisors) path_is) ∙ e in
            ground (arith, at, there, watched d s same_pid pid q)
        | inr differ ↦ ground (arith, at)
      ]

  -- `path_supervisor_watch` adds the actor to the supervisor of the path if there is one, else to the
  -- global supervisor; every other supervisor is as it was.
  pub path_supervisor_watch_lem :
      (rt : Runtime c d n Factory) (same_pid : Pid → Factory) (path other : Text) (pid q : Pid)
      → let after = path_supervisor_watch rt same_pid path pid in
        let has = is_some (n.get rt.path_supervisors path) in
        (supervised_at after other q
          ≡ ((same_text path other && has && (pid == q)) || supervised_at rt other q))
        × (Supervisor.contains_child d after.supervisor q
            ≡ ((not has && (pid == q)) || Supervisor.contains_child d rt.supervisor q))
  unfolding path_supervisor_watch
  path_supervisor_watch_lem rt same_pid path other pid q =
      elim (Option-cases (n.get rt.path_supervisors path)) [
        | inl e ↦
            rw (e, path_supervisor_watch)
              (ground arith, ground (arith, watched d rt.supervisor same_pid pid q))
        | inr (s, e) ↦
            rw (e, path_supervisor_watch)
              (ground (arith, path_watched rt same_pid path other pid q s e), ground arith)
      ]

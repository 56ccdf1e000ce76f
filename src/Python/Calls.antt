-- ===== src/Python/Calls.antt =====
-- The methods of `PyRuntime` and the functions of the module in src/py.rs that pass on to the runtime,
-- and `join`. A call is a value; `bytes` objects are lists of bytes.
pub mod Steps
use mathlib.Core.Option
use myrmidon.Base.{
  ℕ, ◌≡◌, refl, ◌⊎◌, inl, inr, Bool, true, false, Option, none, some, List, [], ◌∷◌, map, ◌==◌,
  if◌then◌else◌, Result, ok, err, same_text,
}
use myrmidon.Deps.DashMap.{DashMap}
use myrmidon.Deps.Mpsc.{Mpsc}
use myrmidon.Mailbox.Messages.{Bytes, Message, user}
use myrmidon.Supervisor
use myrmidon.Supervisor.{Pid, Text}
use myrmidon.Runtime
use myrmidon.Runtime.{Runtime, is_alive}
use myrmidon.Runtime.Names.{
  register, unregister, resolve, list_children_direct, watch_path, create_path_supervisor,
  remove_path_supervisor, path_supervisor_watch, path_supervisor_children,
}
use myrmidon.Runtime.Children.{list_children, link, unlink}
use myrmidon.Runtime.Observers.{get_observed_messages}
use myrmidon.Python.Messages.{PyObject, message_to_py}
use myrmidon.Python.Buffers.{is_ok}
use myrmidon.Python.Supervising.{
  PyFactory, same_pid, PyError, FactoryCall, watch, supervise_with_factory,
  py_path_supervise_with_factory,
}

pub data PyCall : Type 0 where
  py_register py_register_path : Text → Pid → PyCall
  py_unregister py_unregister_path : Text → PyCall
  py_resolve py_whereis py_whereis_path : Text → PyCall
  py_list_children py_list_children_direct py_watch_path : Text → PyCall
  py_create_path_supervisor py_remove_path_supervisor py_path_supervisor_children : Text → PyCall
  py_path_supervisor_watch : Text → Pid → PyCall
  py_stop py_is_alive py_mailbox_size py_get_messages : Pid → PyCall
  py_hot_swap : Pid → ℕ → PyCall
  py_send : Pid → Bytes → PyCall
  py_children_count py_child_pids : PyCall
  py_link py_unlink : Pid → Pid → PyCall
  py_watch : Pid → Text → PyCall
  py_supervise : Pid → ℕ → FactoryCall → Text → PyCall
  py_path_supervise : Text → Pid → ℕ → FactoryCall → Text → PyCall

-- What a call gives.
pub data PyAnswer : Type 0 where
  nothing : PyAnswer
  optional : Option ℕ → PyAnswer
  number : ℕ → PyAnswer
  truth : Bool → PyAnswer
  pids : List Pid → PyAnswer
  entries : List (Text × Pid) → PyAnswer
  objects : List PyObject → PyAnswer

abbrev pub answered : Result (Unit {0}) PyError → Result PyAnswer PyError
answered (ok _) = ok nothing
answered (err e) = err e

-- `get_messages`, of an actor that is observed or not.
abbrev pub message_objects : Option (List Message) → List PyObject
message_objects none = []
message_objects (some vec) = map message_to_py vec

module _ {c : Mpsc} {d : DashMap ℕ ◌==◌} {n : DashMap Text same_text} where
  abbrev pub stop_actor :
      Runtime c d n PyFactory → Pid → Runtime c d n PyFactory × Result PyAnswer PyError
  stop_actor rt pid = (Runtime.stop rt pid, ok nothing)

  abbrev pub swap_handler :
      Runtime c d n PyFactory → Pid → ℕ → Runtime c d n PyFactory × Result PyAnswer PyError
  swap_handler rt pid ptr = (Runtime.hot_swap rt pid ptr, ok nothing)

  abbrev pub send_bytes :
      Runtime c d n PyFactory → Pid → Bytes → Runtime c d n PyFactory × Result PyAnswer PyError
  send_bytes rt pid bytes =
      let (after, sent) = Runtime.send rt pid (user bytes) in (after, ok (truth (is_ok sent)))

  abbrev pub observed_answer :
      Runtime c d n PyFactory → Pid → Runtime c d n PyFactory × Result PyAnswer PyError
  observed_answer rt pid = (rt, ok (objects (message_objects (get_observed_messages rt pid))))

  abbrev pub alive_answer :
      Runtime c d n PyFactory → Pid → Runtime c d n PyFactory × Result PyAnswer PyError
  alive_answer rt pid = (rt, ok (truth (is_alive rt pid)))

  abbrev pub size_answer :
      Runtime c d n PyFactory → Pid → Runtime c d n PyFactory × Result PyAnswer PyError
  size_answer rt pid = (rt, ok (optional (Runtime.mailbox_size rt pid)))

  abbrev pub count_answer :
      Runtime c d n PyFactory → Runtime c d n PyFactory × Result PyAnswer PyError
  count_answer rt = (rt, ok (number (Supervisor.children_count d rt.supervisor)))

  abbrev pub children_answer :
      Runtime c d n PyFactory → Runtime c d n PyFactory × Result PyAnswer PyError
  children_answer rt = (rt, ok (pids (Supervisor.child_pids d rt.supervisor)))

  abbrev pub linked :
      Runtime c d n PyFactory → Pid → Pid → Runtime c d n PyFactory × Result PyAnswer PyError
  linked rt a b = (link rt a b, ok nothing)

  abbrev pub unlinked :
      Runtime c d n PyFactory → Pid → Pid → Runtime c d n PyFactory × Result PyAnswer PyError
  unlinked rt a b = (unlink rt a b, ok nothing)

  -- A call of a method, those of the registry written out.
  pub method : Runtime c d n PyFactory → PyCall → Runtime c d n PyFactory × Result PyAnswer PyError
  method rt (py_register name pid) = (register rt name pid, ok nothing)
  method rt (py_register_path path pid) = (register rt path pid, ok nothing)
  method rt (py_unregister name) = (unregister rt name, ok nothing)
  method rt (py_unregister_path path) = (unregister rt path, ok nothing)
  method rt (py_resolve name) = (rt, ok (optional (resolve rt name)))
  method rt (py_whereis name) = (rt, ok (optional (resolve rt name)))
  method rt (py_whereis_path path) = (rt, ok (optional (resolve rt path)))
  method rt (py_list_children prefix) = (rt, ok (entries (list_children rt prefix)))
  method rt (py_list_children_direct prefix) = (rt, ok (entries (list_children_direct rt prefix)))
  method rt (py_watch_path prefix) = (watch_path rt same_pid prefix, ok nothing)
  method rt (py_create_path_supervisor path) = (create_path_supervisor rt path, ok nothing)
  method rt (py_remove_path_supervisor path) = (remove_path_supervisor rt path, ok nothing)
  method rt (py_path_supervisor_children path) = (rt, ok (pids (path_supervisor_children rt path)))
  method rt (py_path_supervisor_watch path pid) =
      (path_supervisor_watch rt same_pid path pid, ok nothing)
  method rt (py_stop pid) = stop_actor rt pid
  method rt (py_is_alive pid) = alive_answer rt pid
  method rt (py_mailbox_size pid) = size_answer rt pid
  method rt (py_get_messages pid) = observed_answer rt pid
  method rt (py_hot_swap pid ptr) = swap_handler rt pid ptr
  method rt (py_send pid bytes) = send_bytes rt pid bytes
  method rt py_children_count = count_answer rt
  method rt py_child_pids = children_answer rt
  method rt (py_link a b) = linked rt a b
  method rt (py_unlink a b) = unlinked rt a b
  method rt (py_watch pid strategy) =
      let (after, result) = watch rt pid strategy in (after, answered result)
  method rt (py_supervise pid callable first_call strategy) =
      let (after, result) = supervise_with_factory rt pid callable first_call strategy in
      (after, answered result)
  method rt (py_path_supervise path pid callable first_call strategy) =
      let (after, result) =
        py_path_supervise_with_factory rt path pid callable first_call strategy in
      (after, answered result)

  -- The functions of the module, which are given a runtime; `none` for a call that has none.
  pub module_function :
      Runtime c d n PyFactory → PyCall → Option (Runtime c d n PyFactory × Result PyAnswer PyError)
  module_function rt (py_register_path path pid) = some (register rt path pid, ok nothing)
  module_function rt (py_unregister_path path) = some (unregister rt path, ok nothing)
  module_function rt (py_whereis_path path) = some (rt, ok (optional (resolve rt path)))
  module_function rt (py_list_children prefix) = some (rt, ok (entries (list_children rt prefix)))
  module_function rt (py_list_children_direct prefix) =
      some (rt, ok (entries (list_children_direct rt prefix)))
  module_function rt (py_watch_path prefix) = some (watch_path rt same_pid prefix, ok nothing)
  module_function rt (py_create_path_supervisor path) =
      some (create_path_supervisor rt path, ok nothing)
  module_function rt (py_remove_path_supervisor path) =
      some (remove_path_supervisor rt path, ok nothing)
  module_function rt (py_path_supervisor_watch path pid) =
      some (path_supervisor_watch rt same_pid path pid, ok nothing)
  module_function rt (py_path_supervisor_children path) =
      some (rt, ok (pids (path_supervisor_children rt path)))
  module_function rt call = none

  -- `join`, with whether a signal is raised and the runtime at each look; `none` says that the actor
  -- was alive at all of them.
  pub join : Pid → List (Bool × Runtime c d n PyFactory) → Option (Result (Unit {0}) (Unit {0}))
  join pid [] = none
  join pid ((signalled, rt) ∷ looks) =
      let later = join pid looks in
      if signalled then some (err tt) else if is_alive rt pid then later else some (ok tt)

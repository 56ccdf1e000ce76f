-- ===== src/Network/Serving.antt =====
-- The runtime of src/lib.rs as the node that a connection of src/network.rs serves, with the limits
-- that it can be given.
use myrmidon.Base.{ℕ, ◌*◌, refl, ◌==◌, same_text}
use myrmidon.Deps.DashMap.{DashMap}
use myrmidon.Deps.Mpsc.{Mpsc}
use myrmidon.Mailbox.Messages.{Message}
use myrmidon.Registry
use myrmidon.Supervisor.{Text}
use myrmidon.Runtime
use myrmidon.Runtime.{Runtime}
use myrmidon.Network.{Node}

module _ (c : Mpsc) (d : DashMap ℕ ◌==◌) (n : DashMap Text same_text) (Factory : Type 0) where
  pub record Limited : Type 0 where
    pub runtime : Runtime c d n Factory
    pub network_max_payload : ℕ
    pub network_max_name_len : ℕ

  -- The limits that `Runtime::new` sets.
  abbrev pub limited : Runtime c d n Factory → Limited
  limited rt = record {
    runtime = rt;
    network_max_payload = 1024 * 1024;
    network_max_name_len = 1024;
  }

  abbrev pub set_network_max_payload : Limited → ℕ → Limited
  set_network_max_payload l bytes = record l { network_max_payload = bytes }

  abbrev pub set_network_max_name_len : Limited → ℕ → Limited
  set_network_max_name_len l bytes = record l { network_max_name_len = bytes }

  abbrev pub serving : Node
  serving = record {
    State = Limited;
    send = λ l pid payload. record l {
      runtime = (Runtime.send l.runtime pid (Message.user payload)).0;
    };
    resolve_name = λ l name. Registry.resolve n l.runtime.registry name;
    max_payload = λ l. l.network_max_payload;
    max_name_len = λ l. l.network_max_name_len;
    max_payload-send = λ l pid payload. refl;
  }

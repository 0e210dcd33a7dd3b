-- ===== src/Store.antt =====
-- The instance store (crates/sandbox-core/src/state.rs): its records, its index, and the index
-- operations as functions. The methods that read and write the disk are in `Store.Files`.
pub mod Index
pub mod Names
pub mod Invariant
pub mod Lookup
pub mod Owned
pub mod Registry
pub mod Refinement
pub mod Files
mod Tests
use simple_sandbox_public.Prelude.{ℕ, Bool, Option, none, List, [], Text}
use simple_sandbox_public.Disk.{IoError}
use simple_sandbox_public.Policy.{MechanismKind}

-- `io`, `json` and `yaml` carry the message of the error that they wrap.
pub data StateError : Type 0 where
  io : IoError → StateError
  json : Text → StateError
  yaml : Text → StateError
  not_found : Text → StateError
  already_exists : Text → StateError

-- `created_at` is the time stamp, a number.
pub record SandboxRecord : Type 0 where
  pub id : Text
  pub name : Text
  pub mechanism : MechanismKind
  pub runtime_id : Text
  pub policy_hash : Text
  pub workdir : Text
  pub created_at : ℕ
  pub proxy_port : Option ℕ
  pub log_path : Option Text
  pub ephemeral : Bool

pub record SandboxState : Type 0 where
  pub last_used : Option Text
  pub sandboxes : List SandboxRecord

-- `SandboxState::default`
abbrev pub state_default : SandboxState
state_default = record { last_used = none; sandboxes = [] }

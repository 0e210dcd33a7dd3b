-- ===== src/Mechanism.antt =====
-- The interface of the backends (crates/sandbox-core/src/lib.rs): requests, results and errors, and
-- the trait as a record of operations over a state that backends and commands share.
use simple_sandbox_public.Prelude.{ℕ, Bool, Option, List, [], ◌≡◌, Text}
use simple_sandbox_public.Exec.{Exec, pure}
use simple_sandbox_public.Exec.Keeps.{Gives}
use simple_sandbox_public.Disk.{Disk}
use simple_sandbox_public.Policy.{MechanismKind, SandboxPolicy}

-- `other` carries the message of the error that it wraps.
pub data MechanismError : Type 0 where
  message : Text → MechanismError
  other : Text → MechanismError
  unavailable : Text → MechanismError
  not_implemented : Text → MechanismError

pub record CreateRequest : Type 0 where
  pub name : Text
  pub policy : SandboxPolicy
  pub workdir : Text
  pub ephemeral : Bool
  pub command : List Text
  pub env : List (Text × Text)

pub record ExecRequest : Type 0 where
  pub name : Text
  pub runtime_id : Text
  pub command : List Text
  pub env : List (Text × Text)
  pub tty : Bool
  pub cwd : Option Text

pub record CreateResult : Type 0 where
  pub name : Text
  pub mechanism : MechanismKind
  pub runtime_id : Text
  pub proxy_port : Option ℕ
  pub log_path : Option Text
  pub exit_code : Option ℕ

pub record DoctorItem : Type 0 where
  pub name : Text
  pub is_ok : Bool
  pub detail : Text

-- What backends and commands change: the disk, and what is outside of it, such as containers.
pub record World (Doc Out : Type 0) : Type 0 where
  pub disk : Disk Doc
  pub outside : Out

-- The exit code of a child, if it was not killed.
abbrev pub ExitStatus : Type 0
ExitStatus = Option ℕ

-- The trait, over a state `W`.
pub record Mechanism (W : Type 0) : Type 0 where
  pub kind : MechanismKind
  pub name : Text
  pub doctor : W → List DoctorItem
  pub create : CreateRequest → Exec W MechanismError CreateResult
  pub exec : ExecRequest → Exec W MechanismError ExitStatus
  pub remove : Text → Exec W MechanismError (Unit {0})
  pub logs : Text → ℕ → Exec W MechanismError Text

-- The trait's own `logs`.
unfoldable pub default_logs : {W : Type 0} → Text → ℕ → Exec W MechanismError Text
default_logs runtime_id tail = pure []

-- What a command relies on: a backend leaves a file of the disk as it is, as long as the sandboxes
-- that it creates have names that it bears, and the runtime identifiers are of its own making.
pub record Leaves {Doc Out : Type 0} (path : Text) (IsName : Text → Type 0) (Owns : Text → Type 0)
    (m : Mechanism (World Doc Out)) : Type 0 where
  pub create_leaves :
      (r : CreateRequest) (w : World Doc Out)
      → IsName r.name
      → ((m.create r w).1.disk.files path ≡ w.disk.files path)
        × Gives (λ res. Owns res.runtime_id) (m.create r w).0
  pub exec_leaves :
      (r : ExecRequest) (w : World Doc Out)
      → Owns r.runtime_id
      → (m.exec r w).1.disk.files path ≡ w.disk.files path
  pub remove_leaves :
      (id : Text) (w : World Doc Out)
      → Owns id
      → (m.remove id w).1.disk.files path ≡ w.disk.files path
  pub logs_leaves :
      (id : Text) (tail : ℕ) (w : World Doc Out)
      → Owns id
      → (m.logs id tail w).1.disk.files path ≡ w.disk.files path

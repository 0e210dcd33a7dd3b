-- ===== src/Policy.antt =====
-- The policy schema (crates/sandbox-policy/src/lib.rs): the types, their defaults and the errors.
pub mod Size
pub mod Mechanism
pub mod Validate
pub mod Preflight
pub mod HostPaths
pub mod Examples
mod Tests
use simple_sandbox_public.Prelude.{ℕ, Bool, true, Option, none, some, List, [], ◌∷◌, ◌++◌, Text, Eq}
use simple_sandbox_public.Text.{codes, to_ascii_lowercase}
use simple_sandbox_public.Text.Decimal.{decimal}
use simple_sandbox_public.Float.{F64, finite}

-- `io` and `yaml` carry the message of the error that they wrap.
pub data PolicyError : Type 0 where
  io : Text → PolicyError
  yaml : Text → PolicyError
  invalid : Text → PolicyError
  preflight : Text → PolicyError

-- `Display` of the error.
pub policy_error_text : PolicyError → Text
policy_error_text (io m) = codes "io error: " ++ m
policy_error_text (yaml m) = codes "yaml parse error: " ++ m
policy_error_text (invalid m) = codes "invalid policy: " ++ m
policy_error_text (preflight m) = codes "resource preflight failed: " ++ m

-- `deny_all` is the source's `None`.
pub data NetworkMode : Type 0 where
  deny_all allowlist unrestricted : NetworkMode

pub data MechanismKind : Type 0 where
  podman mac krun auto : MechanismKind

NetworkMode-discrete : Discrete NetworkMode
NetworkMode-discrete = hlevel

MechanismKind-discrete : Discrete MechanismKind
MechanismKind-discrete = hlevel

instance unfoldable pub network_mode_eq : Eq NetworkMode
unfolding NetworkMode-discrete
network_mode_eq = record { dec = NetworkMode-discrete }

instance unfoldable pub mechanism_eq : Eq MechanismKind
unfolding MechanismKind-discrete
mechanism_eq = record { dec = MechanismKind-discrete }

pub record FilesystemPolicy : Type 0 where
  pub workdir : Bool
  pub read_only : List Text
  pub read_write : List Text

pub record NetworkEndpoint : Type 0 where
  pub host : Text
  pub port : ℕ

pub record NetworkPolicy : Type 0 where
  pub mode : NetworkMode
  pub endpoints : List NetworkEndpoint

pub record ResourcePolicy : Type 0 where
  pub cpus : F64
  pub memory : Text

pub record SecretRef : Type 0 where
  pub env : Text
  pub from : Text

pub record SandboxPolicy : Type 0 where
  pub version : ℕ
  pub filesystem : FilesystemPolicy
  pub network : NetworkPolicy
  pub resources : ResourcePolicy
  pub mechanism : Option MechanismKind
  pub secrets : List SecretRef

-- `NetworkEndpoint::key`
unfoldable pub key : NetworkEndpoint → Text
key e = to_ascii_lowercase e.host ++ b':' ∷ decimal e.port

abbrev pub filesystem_default : FilesystemPolicy
filesystem_default = record {
  workdir = true;
  read_only = [];
  read_write = codes "/workspace" ∷ codes "/tmp" ∷ [];
}

abbrev pub network_default : NetworkPolicy
network_default = record { mode = deny_all; endpoints = [] }

abbrev pub default_cpus : F64
default_cpus = finite (Bool.false) 2 0 0

abbrev pub default_memory : Text
default_memory = codes "2G"

abbrev pub resources_default : ResourcePolicy
resources_default = record { cpus = default_cpus; memory = default_memory }

-- `SandboxPolicy::default`, also `restrictive_default`.
abbrev pub policy_default : SandboxPolicy
policy_default = record {
  version = 1;
  filesystem = filesystem_default;
  network = network_default;
  resources = resources_default;
  mechanism = none;
  secrets = [];
}

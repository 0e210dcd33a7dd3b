-- ===== src/Seatbelt.antt =====
-- The macOS backend (crates/sandbox-mech-mac/src/lib.rs): the Seatbelt profile of a policy, the
-- limits of a child, and the child that `sandbox-exec` runs. The backend's state on the disk is in
-- `Seatbelt.Instances`.
pub mod Rules
pub mod Profile
pub mod Limits
pub mod Instances
pub mod Paths
pub mod Removal
pub mod Safety
pub mod Kept
pub mod Resume
mod Tests
use mathlib.Core.Option
use simple_sandbox_public.Prelude.{
  ℕ, Bool, true, false, Option, none, some, List, [], ◌∷◌, ◌++◌, map, Text, text_eq, ◌==◌, ltb,
  if◌then◌else◌,
}
use simple_sandbox_public.Result.{Result, ok, err, ◌>>=◌, map_err}
use simple_sandbox_public.Text.{codes, join_with}
use simple_sandbox_public.Float.{times, ceil_u64}
use simple_sandbox_public.FilePath.{is_absolute, join}
use simple_sandbox_public.Policy.{
  policy_error_text, NetworkMode, deny_all, allowlist, unrestricted, network_mode_eq,
  FilesystemPolicy, SandboxPolicy,
}
use simple_sandbox_public.Policy.Size.{memory_bytes}
use simple_sandbox_public.Policy.Mechanism.{TargetOs, macos}
use simple_sandbox_public.Mechanism.{MechanismError, message, unavailable}

unfoldable pub resolve_path : Text → Text → Text
resolve_path p workdir = if is_absolute p then p else join workdir p

-- The lines that let a path and what is below it be read, or written.
abbrev pub read_prefix : Text
read_prefix = codes "(allow file-read* (subpath \""

abbrev pub write_prefix : Text
write_prefix = codes "(allow file-write* (subpath \""

abbrev pub line_end : Text
line_end = codes "\"))"

abbrev pub allow_read : Text → Text
allow_read p = read_prefix ++ (p ++ line_end)

abbrev pub allow_write : Text → Text
allow_write p = write_prefix ++ (p ++ line_end)

abbrev pub first_lines : List Text
first_lines =
    codes "(version 1)"
    ∷ codes "(deny default)"
    ∷ codes "(allow process*)"
    ∷ codes "(allow sysctl*)"
    ∷ codes "(allow mach*)"
    ∷ codes "(allow ipc*)"
    ∷ codes "(allow signal)"
    ∷ codes "(allow file-read-metadata)"
    ∷ []

abbrev pub system_paths : List Text
system_paths =
    codes "/usr"
    ∷ codes "/bin"
    ∷ codes "/sbin"
    ∷ codes "/System"
    ∷ codes "/Library"
    ∷ codes "/private/var/db"
    ∷ codes "/dev"
    ∷ codes "/private/tmp"
    ∷ codes "/tmp"
    ∷ codes "/etc"
    ∷ codes "/private/etc"
    ∷ codes "/Applications"
    ∷ []

unfoldable pub read_lines : List Text → List Text
read_lines [] = []
read_lines (p ∷ ps) = allow_read p ∷ read_lines ps

abbrev pub device_lines : List Text
device_lines =
    codes "(allow file-read* (literal \"/\"))"
    ∷ codes "(allow file-ioctl (literal \"/dev/null\"))"
    ∷ codes "(allow file-write* (literal \"/dev/null\"))"
    ∷ codes "(allow file-write* (literal \"/dev/dtracehelper\"))"
    ∷ []

unfoldable pub workdir_lines : Bool → Text → List Text
workdir_lines granted workdir =
    if granted then allow_read workdir ∷ allow_write workdir ∷ [] else []

unfoldable pub read_only_lines : List Text → Text → List Text
read_only_lines [] workdir = []
read_only_lines (p ∷ ps) workdir = allow_read (resolve_path p workdir) ∷ read_only_lines ps workdir

unfoldable pub read_write_lines : List Text → Text → List Text
read_write_lines [] workdir = []
read_write_lines (p ∷ ps) workdir =
    let path = resolve_path p workdir in
    allow_read path ∷ allow_write path ∷ read_write_lines ps workdir

abbrev pub temp_paths : List Text
temp_paths =
    codes "/tmp" ∷ codes "/private/tmp" ∷ codes "/var/folders" ∷ codes "/private/var/folders" ∷ []

unfoldable pub temp_lines : List Text
temp_lines = map allow_write temp_paths

unfoldable pub network_lines : NetworkMode → List Text
network_lines deny_all = codes "(deny network*)" ∷ []
network_lines allowlist =
    codes "(allow network* (remote ip \"localhost:*\"))"
    ∷ codes "(allow network-bind (local ip \"localhost:*\"))"
    ∷ []
network_lines unrestricted = codes "(allow network*)" ∷ []

-- The lines behind the fixed ones.
unfoldable pub policy_lines : SandboxPolicy → Text → List Text
policy_lines p workdir =
    workdir_lines p.filesystem.workdir workdir
    ++ (read_only_lines p.filesystem.read_only workdir
        ++ (read_write_lines p.filesystem.read_write workdir
            ++ (temp_lines ++ network_lines p.network.mode)))

unfoldable pub profile_lines : SandboxPolicy → Text → List Text
profile_lines p workdir =
    first_lines ++ (read_lines system_paths ++ (device_lines ++ policy_lines p workdir))

-- `canonicalize` is the host's; where it fails the path stays as it is.
unfoldable pub generate_seatbelt_profile : (Text → Option Text) → SandboxPolicy → Text → Text
generate_seatbelt_profile canonicalize p workdir =
    join_with (10 ∷ []) (profile_lines p (Option.get_or (canonicalize workdir) workdir)) ++ 10 ∷ []

-- What `setrlimit` is called for.
pub data Resource : Type 0 where
  resident_set address_space data_segment cpu_seconds : Resource

unfoldable pub memory_limits : TargetOs → ℕ → List (Resource × ℕ)
memory_limits macos mem = (resident_set, mem) ∷ []
memory_limits os mem = (address_space, mem) ∷ (data_segment, mem) ∷ []

-- `cpu_secs.max(60)`
unfoldable pub cpu_limit : SandboxPolicy → ℕ
cpu_limit p =
    let cpu_secs = ceil_u64 (times p.resources.cpus 3600) in
    if ltb cpu_secs 60 then 60 else cpu_secs

-- The limits that `apply_rlimits` asks for, soft and hard alike.
unfoldable pub apply_rlimits :
    TargetOs → SandboxPolicy → Result MechanismError (List (Resource × ℕ))
apply_rlimits os p = do
  mem ← map_err (λ e. message (policy_error_text e)) (memory_bytes p.resources)
  ok (memory_limits os mem ++ (cpu_seconds, cpu_limit p) ∷ [])

-- A process that is started: its arguments, where, with which variables set, and with which limits.
pub record Child : Type 0 where
  pub argv : List Text
  pub workdir : Text
  pub env : List (Text × Text)
  pub limits : Result MechanismError (List (Resource × ℕ))

unfoldable pub shell_or_command : List Text → List Text
shell_or_command [] = codes "/bin/zsh" ∷ codes "-i" ∷ []
shell_or_command (c ∷ cs) = c ∷ cs

unfoldable pub proxy_vars : Option Text → List (Text × Text)
proxy_vars none = []
proxy_vars (some port) =
    let url = codes "http://127.0.0.1:" ++ port in
    (codes "HTTP_PROXY", url)
    ∷ (codes "HTTPS_PROXY", url)
    ∷ (codes "http_proxy", url)
    ∷ (codes "https_proxy", url)
    ∷ (codes "NO_PROXY", codes "localhost,127.0.0.1")
    ∷ []

-- What the backend asks its host. `temp_file` is the path of a new temporary file.
pub record Host : Type 0 where
  pub os : TargetOs
  pub os_name : Text
  pub exists : Text → Bool
  pub canonicalize : Text → Option Text
  pub proxy_port : Option Text
  pub config_dir : Option Text
  pub temp_file : Result Text Text

unfoldable pub first_existing : (Text → Bool) → List Text → Option Text
first_existing exists [] = none
first_existing exists (c ∷ candidates) =
    let rest = first_existing exists candidates in if exists c then some c else rest

unfoldable pub which_sandbox_exec : Host → Option Text
which_sandbox_exec H =
    first_existing H.exists
      (codes "/usr/bin/sandbox-exec" ∷ codes "/usr/local/bin/sandbox-exec" ∷ [])

module _ (H : Host) where
  -- `spawn_sandboxed` up to the start of the child.
  unfoldable pub sandboxed :
      Text → SandboxPolicy → Text → List Text → List (Text × Text) → Result MechanismError Child
  sandboxed profile_path p workdir command env = elim (which_sandbox_exec H) [
    | none ↦ err (unavailable (codes "sandbox-exec not found (macOS only)"))
    | some bin ↦ ok (record {
      argv = bin ∷ codes "-f" ∷ profile_path ∷ shell_or_command command;
      workdir = workdir;
      env = env ++ (if p.network.mode == allowlist then proxy_vars H.proxy_port else []);
      limits = apply_rlimits H.os p;
    })
  ]

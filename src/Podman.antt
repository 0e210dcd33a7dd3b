-- ===== src/Podman.antt =====
-- The arguments that the Podman backend runs its binary with, in every mode but `allowlist`
-- (crates/sandbox-mech-podman/src/lib.rs).
pub mod Create
pub mod Options
pub mod Laws
pub mod Engine
pub mod Containers
pub mod Safety
mod Tests
use mathlib.Core.Option
use simple_sandbox_public.Prelude.{
  ℕ, zero, suc, ◌+◌, Bool, true, false, not, ◌||◌, Option, none, some, List, [], ◌∷◌, ◌++◌, Text,
  text_eq, ◌==◌, if◌then◌else◌, length, leb,
}
use simple_sandbox_public.Result.{Result, ok, err, ◌>>=◌, map_err}
use simple_sandbox_public.Text.{codes, starts_with}
use simple_sandbox_public.Text.Decimal.{decimal}
use simple_sandbox_public.Float.{F64}
use simple_sandbox_public.FilePath.{is_absolute, join, file_name}
use simple_sandbox_public.Policy.{
  policy_error_text, NetworkMode, deny_all, allowlist, unrestricted, network_mode_eq,
  FilesystemPolicy, ResourcePolicy,
}
use simple_sandbox_public.Policy.Size.{memory_bytes}
use simple_sandbox_public.Mechanism.{MechanismError, message, CreateRequest, ExecRequest}

-- What the code asks its host: the paths that are there and their canonical form, the variable
-- `SSBX_PROXY_PORT`, and how a CPU count is printed.
pub record Host : Type 0 where
  pub exists : Text → Bool
  pub canonicalize : Text → Option Text
  pub proxy_port : Option Text
  pub show_cpus : F64 → Text

unfoldable pub container_name : Text → Text
container_name name = codes "ssbx-" ++ name

abbrev pub network_flag : Text
network_flag = codes "--network"

unfoldable pub network_args : NetworkMode → List Text
network_args deny_all = network_flag ∷ codes "none" ∷ []
network_args allowlist = network_flag ∷ codes "none" ∷ []
network_args unrestricted = []

abbrev pub gateway : Text
gateway = codes "host.docker.internal:host-gateway"

unfoldable pub env_args : List (Text × Text) → List Text
env_args [] = []
env_args ((k, v) ∷ rest) = codes "-e" ∷ (k ++ b'=' ∷ v) ∷ env_args rest

-- What runs in the container.
unfoldable pub command_args : List Text → List Text
command_args [] = codes "sleep" ∷ codes "infinity" ∷ []
command_args (c ∷ cs) = c ∷ cs

-- `-v` and the mount, if there is one.
unfoldable pub volume : Option Text → List Text
volume none = []
volume (some spec) = codes "-v" ∷ spec ∷ []

unfoldable pub add_host : Option Text → List Text
add_host none = []
add_host (some port) = codes "--add-host" ∷ gateway ∷ []

-- The memory, with the error of the policy as a message.
unfoldable pub memory_of : ResourcePolicy → Result MechanismError ℕ
memory_of r = map_err (λ e. message (policy_error_text e)) (memory_bytes r)

module _ (H : Host) where
  -- The end of `mount_spec`, for the path on the host.
  unfoldable pub mount_of : Text → Bool → Option Text
  mount_of host read_only =
      if not (H.exists host)
      then none
      else let mode = if read_only then codes "ro" else codes "rw" in
        Option.map (λ name. host ++ b':' ∷ (codes "/mnt/" ++ name ++ b':' ∷ mode)) (file_name host)

  unfoldable pub mount_spec : Text → Text → Bool → Option Text
  mount_spec policy_path workdir read_only =
      if starts_with (codes "/workspace") policy_path
      then none
      else if is_absolute policy_path
      then (if H.exists policy_path then mount_of policy_path read_only else none)
      else mount_of (join workdir policy_path) read_only

  unfoldable pub read_only_mounts : Text → List Text → List Text
  unfolding volume
  read_only_mounts workdir [] = []
  read_only_mounts workdir (p ∷ ps) =
      volume (mount_spec p workdir true) ++ read_only_mounts workdir ps

  unfoldable pub read_write_mounts : Text → List Text → List Text
  unfolding volume
  read_write_mounts workdir [] = []
  read_write_mounts workdir (p ∷ ps) =
      let rest = read_write_mounts workdir ps in
      if p == codes "/workspace" || p == codes "/tmp"
      then rest
      else volume (mount_spec p workdir false) ++ rest

  unfoldable pub workspace_args : FilesystemPolicy → Text → List Text
  workspace_args fs workdir =
      if fs.workdir
      then codes "-v"
        ∷ (Option.get_or (H.canonicalize workdir) workdir ++ codes ":/workspace:rw")
        ∷ codes "-w"
        ∷ codes "/workspace"
        ∷ []
      else []

  unfoldable pub gateway_args : NetworkMode → List Text
  unfolding add_host
  gateway_args mode = if mode == allowlist then add_host H.proxy_port else []

  -- The options in front of those of the network, and behind them.
  unfoldable pub first_options : CreateRequest → Text → Bool → ℕ → List Text
  unfolding container_name
  first_options req name detach mem =
      codes "run"
      ∷ (if detach then codes "-d" else codes "--rm")
      ∷ codes "--name"
      ∷ container_name name
      ∷ (codes "--cpus=" ++ H.show_cpus req.policy.resources.cpus)
      ∷ (codes "--memory=" ++ decimal mem)
      ∷ []

  unfoldable pub last_options : CreateRequest → List Text
  unfolding workspace_args gateway_args
  last_options req =
      workspace_args req.policy.filesystem req.workdir
      ++ (read_only_mounts req.workdir req.policy.filesystem.read_only
          ++ (read_write_mounts req.workdir req.policy.filesystem.read_write
              ++ (codes "--tmpfs" ∷ codes "/tmp:rw,size=64m" ∷ env_args req.env
                  ++ gateway_args req.policy.network.mode)))

  module _ (image : Text) where
    -- All arguments, once the memory is known.
    unfoldable pub run_args : CreateRequest → Text → Bool → ℕ → List Text
    run_args req name detach mem =
        first_options req name detach mem
        ++ (network_args req.policy.network.mode
            ++ (last_options req ++ image ∷ command_args req.command))

    unfoldable pub build_run_args : CreateRequest → Text → Bool → Result MechanismError (List Text)
    build_run_args req name detach = do
      mem ← memory_of req.policy.resources
      ok (run_args req name detach mem)

-- ===== src/Command/Sandboxes.antt =====
-- The commands of ssbx (crates/ssbx/src/main.rs) as transitions of the disk and of what the backends
-- keep outside of it. The printing is left out: a command gives what it prints, or its exit code.
use simple_sandbox_public.Prelude.{
  ℕ, ◌%◌, Bool, true, false, not, ◌&&◌, ◌||◌, Option, none, some, List, [], ◌∷◌, ◌++◌, Text,
  text_eq, ◌==◌, if◌then◌else◌,
}
use simple_sandbox_public.Result.{Result, ok, map_err, ◌>>=◌ as ◌>>>=◌}
use simple_sandbox_public.Exec.{Exec, ◌>>=◌, ◌>>◌, pure, lift, map_error}
use simple_sandbox_public.Text.{codes}
use simple_sandbox_public.Text.Decimal.{decimal}
use simple_sandbox_public.FilePath.{join}
use simple_sandbox_public.Disk.{Disk}
use simple_sandbox_public.Policy.{
  MechanismKind, podman, mac, krun, auto, allowlist, network_mode_eq, NetworkEndpoint,
  SandboxPolicy,
}
use simple_sandbox_public.Policy.Mechanism.{
  TargetOs, macos, linux, other_os, resolve_mechanism, mechanism_or_auto,
}
use simple_sandbox_public.Policy.Preflight.{Extents, host_default, run_preflight}
use simple_sandbox_public.Codec.{Codec}
use simple_sandbox_public.Secrets.{LockedBuffers, Process, resolve_secrets, to_env_pairs}
use simple_sandbox_public.Proxy.{allow_from_endpoints}
use simple_sandbox_public.Proxy.Server.{start_allowlist_proxy}
use simple_sandbox_public.Mechanism.{
  MechanismError, CreateResult, DoctorItem, World, ExitStatus, Mechanism,
}
use simple_sandbox_public.Krun
use simple_sandbox_public.Store.{SandboxRecord}
use simple_sandbox_public.Store.Files
use simple_sandbox_public.Command.{
  CommandError, policy_failed, state_failed, secret_failed, mechanism_failed, io_failed, Overrides,
  load_policy, prepare, with_mechanism,
}

-- The backends that the program is linked with, at a value of the variable `SSBX_PROXY_PORT`; `mac`
-- also takes its state directory. `ensure_image` is that of the Podman backend, its result ignored.
pub record Backends (W : Type 0) : Type 0 where
  pub podman_mechanism : Option Text → Mechanism W
  pub mac_mechanism : Option Text → Text → Mechanism W
  pub ensure_image : W → W

-- Where the program runs. `bound` is the port that the proxy's listener is bound to; `proxy_port` is
-- the variable `SSBX_PROXY_PORT` as the program inherits it.
pub record Setting (Out : Type 0) : Type 1 where
  pub codec : Codec
  pub root : Text
  pub os : TargetOs
  pub extents : Extents
  pub buffers : LockedBuffers
  pub process : Process
  pub current_dir : Result Text Text
  pub proxy_port : Option Text
  pub bound : Result Text ℕ
  pub backends : Backends (World codec.Doc Out)

abbrev pub is_podman : MechanismKind → Bool
is_podman podman = true
is_podman mac = false
is_podman krun = false
is_podman auto = false

-- The endpoints as pairs.
unfoldable pub host_ports : List NetworkEndpoint → List (Text × ℕ)
host_ports [] = []
host_ports (e ∷ es) = (e.host, e.port) ∷ host_ports es

-- Whether the container engine answers.
unfoldable pub engine_ok : List DoctorItem → Bool
engine_ok [] = false
engine_ok (i ∷ items) = (i.name == codes "runtime-engine" && i.is_ok) || engine_ok items

-- `as u8`
unfoldable pub exit_byte : ExitStatus → ℕ → ℕ
exit_byte none absent = absent
exit_byte (some code) absent = code % 256

abbrev pub or_name : Option Text → Text → Text
or_name none d = d
or_name (some n) d = n

module _ {Out : Type 0} (S : Setting Out) where
  abbrev pub W : Type 0
  W = World S.codec.Doc Out

  abbrev pub Action : Type 0 → Type 0
  Action A = Exec W CommandError A

  -- A method of the store, and an operation of a backend.
  abbrev pub zoom : {E A : Type 0} → Exec (Disk S.codec.Doc) E A → Exec W E A
  zoom m w = ((m w.disk).0, record w { disk = (m w.disk).1 })

  abbrev pub on_disk : {A : Type 0} → Files.Store S.codec S.root A → Action A
  on_disk m = map_error state_failed (zoom m)

  abbrev pub by_backend : {A : Type 0} → Exec W MechanismError A → Action A
  by_backend m = map_error mechanism_failed m

  -- What is read from the disk, which stays as it is.
  abbrev pub reading : {A : Type 0} → (Disk S.codec.Doc → Result CommandError A) → Action A
  reading f w = (f w.disk, w)

  -- The backend of a resolved kind.
  abbrev pub boxed : Option Text → MechanismKind → Mechanism W
  boxed port podman = S.backends.podman_mechanism port
  boxed port auto = S.backends.podman_mechanism port
  boxed port mac = S.backends.mac_mechanism port (join S.root (codes "mac"))
  boxed port krun = Krun.mechanism

  unfoldable pub mech_box : Option Text → MechanismKind → Mechanism W
  mech_box port kind = boxed port (resolve_mechanism S.os kind)

  -- The variable `SSBX_PROXY_PORT` behind the start of the proxy, if one is started.
  unfoldable pub maybe_start_proxy : SandboxPolicy → Result CommandError (Option Text)
  maybe_start_proxy policy =
      if policy.network.mode == allowlist
      then (map_err io_failed (
            start_allowlist_proxy S.bound
              (allow_from_endpoints (host_ports policy.network.endpoints)))
          >>>= λ proxy. ok (some (decimal proxy.handle.port)))
      else ok S.proxy_port

  -- The variables of the policy's secrets.
  unfoldable pub secret_env : SandboxPolicy → Result CommandError (List (Text × Text))
  secret_env policy = map_err io_failed S.current_dir >>>= λ dir.
      map_err secret_failed (resolve_secrets S.buffers S.process policy.secrets dir) >>>= λ secrets.
      map_err secret_failed (to_env_pairs S.buffers S.process secrets)

  unfoldable pub prepare_image : MechanismKind → Action (Unit {0})
  prepare_image kind w = (ok tt, if is_podman kind then S.backends.ensure_image w else w)

  -- What `cmd_create` and `cmd_run` share behind the preflight: the secrets, the proxy, the image and
  -- the backend's `create`.
  unfoldable pub launch :
      Text → MechanismKind → SandboxPolicy → Bool → List Text → Action CreateResult
  unfolding mech_box maybe_start_proxy secret_env prepare_image
  launch name kind policy ephemeral command = do
    env ← lift (secret_env policy)
    port ← lift (maybe_start_proxy policy)
    prepare_image kind
    workdir ← lift (map_err io_failed S.current_dir)
    by_backend (
        (mech_box port kind).create (record {
          name = name;
          policy = policy;
          workdir = workdir;
          ephemeral = ephemeral;
          command = command;
          env = env;
        }))

  -- The record of a created sandbox, with the policy saved.
  unfoldable pub enter :
      Text → ℕ → Text → MechanismKind → SandboxPolicy → CreateResult → Action SandboxRecord
  enter fresh now name kind policy result = do
    workdir ← lift (map_err io_failed S.current_dir)
    made ← lift (
        map_err state_failed (
          Files.new_record S.codec S.root fresh now name kind result.runtime_id policy workdir false
            result.proxy_port))
    on_disk (Files.save_policy S.codec S.root name policy)
    on_disk (
        Files.insert S.codec S.root fresh
          (record made { log_path = some (Files.log_path_for S.root name) }))

  -- `fresh` is what `Uuid::new_v4` gives, `now` the time. The backend's kind comes with its result.
  unfoldable pub cmd_create :
      Text → ℕ → Option Text → Option Text → Overrides → Action (MechanismKind × CreateResult)
  unfolding launch enter
  cmd_create fresh now given path o =
      let name = or_name given (codes "default") in
      do
        policy ← reading (prepare S.codec S.extents S.os path o)
        let kind = mechanism_or_auto policy
        result ← launch name kind policy false []
        enter fresh now name kind policy result
        pure (kind, result)

  unfoldable pub prefer_available : MechanismKind → W → MechanismKind
  prefer_available kind w =
      let resolved = resolve_mechanism S.os kind in
      if is_podman resolved && not (engine_ok ((S.backends.podman_mechanism S.proxy_port).doctor w))
      then (elim S.os [ macos ↦ mac | linux ↦ resolved | other_os ↦ resolved ])
      else resolved

  -- `cmd_run` up to its preflight.
  unfoldable pub prepare_run : Option Text → Overrides → Action SandboxPolicy
  prepare_run path o w = (
    (load_policy S.codec path o w.disk >>>= λ loaded.
        let policy =
          with_mechanism (prefer_available (resolve_mechanism S.os (mechanism_or_auto loaded)) w)
            loaded in
        map_err policy_failed (run_preflight S.extents policy host_default) >>>= λ _. ok policy),
    w,
  )

  -- `stamp` is what `uuid_simple` gives. The result is the exit code.
  unfoldable pub cmd_run : Text → Option Text → Option Text → Overrides → List Text → Action ℕ
  cmd_run stamp given path o command = do
    policy ← prepare_run path o
    result ←
        launch (or_name given (codes "run-" ++ stamp)) (mechanism_or_auto policy) policy true
          command
    pure (exit_byte result.exit_code 0)

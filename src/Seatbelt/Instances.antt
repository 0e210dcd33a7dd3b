-- ===== src/Seatbelt/Instances.antt =====
-- The operations of the macOS backend on the disk (crates/sandbox-mech-mac/src/lib.rs).
use mathlib.Core.Option
use simple_sandbox_public.Prelude.{
  ℕ, ◌≡◌, Bool, true, false, ◌||◌, Option, none, some, List, [], ◌∷◌, ◌++◌, Text, if◌then◌else◌,
}
use simple_sandbox_public.Result.{Result, ok, err, map_err}
use simple_sandbox_public.Exec.{Exec, ◌>>=◌, ◌>>◌, pure, raise, lift, map_error}
use simple_sandbox_public.Text.{codes, strip_prefix}
use simple_sandbox_public.Text.Decimal.{parse_uint, max_u16}
use simple_sandbox_public.FilePath.{join, parent}
use simple_sandbox_public.Disk.{
  Disk, IoError, read, write, remove_file, remove_dir_all, create_dir_all,
}
use simple_sandbox_public.Policy.{mac, SandboxPolicy, policy_default}
use simple_sandbox_public.Policy.Mechanism.{TargetOs, macos, linux, other_os}
use simple_sandbox_public.Codec.{Codec}
use simple_sandbox_public.Mechanism.{
  MechanismError, message, unavailable, CreateRequest, CreateResult, ExecRequest, DoctorItem, World,
  ExitStatus, Mechanism, default_logs,
}
use simple_sandbox_public.Seatbelt.{
  Host, Child, which_sandbox_exec, sandboxed, generate_seatbelt_profile,
}

-- Files of plain text: `write_text` is the contents that a text gives, `read_text` its text.
pub record Texts (Doc : Type 0) : Type 0 where
  pub write_text : Text → Doc
  pub read_text : Doc → Text
  pub read_text-write_text : (t : Text) → read_text (write_text t) ≡ t

-- `cfg!(target_os = "macos")`
abbrev pub is_macos : TargetOs → Bool
is_macos macos = true
is_macos linux = false
is_macos other_os = false

abbrev is_some {ℓ} : {A : Type ℓ} → Option A → Bool
is_some none = false
is_some (some a) = true

abbrev pub is_command : List Text → Bool
is_command [] = false
is_command (c ∷ cs) = true

-- `dirs_fallback`
unfoldable pub dirs_fallback : Option Text → Text
dirs_fallback config_dir = join (Option.get_or config_dir (codes ".")) (codes "simple-sandbox")

abbrev pub port_of : Option Text → Option ℕ
port_of none = none
port_of (some text) = parse_uint max_u16 text

-- The directory of a sandbox.
unfoldable pub instance_dir : Text → Text → Text
instance_dir base name = join (join base (codes "instances")) name

unfoldable pub profile_path : Text → Text → Text
profile_path base name = join (instance_dir base name) (codes "profile.sb")

unfoldable pub runtime_id_of : Text → Text
runtime_id_of path = codes "mac:" ++ path

-- `run_child` starts the child, waits, and gives its status; what the child does to the world is its
-- own matter.
module _ (C : Codec) {Out : Type 0} (T : Texts C.Doc) (H : Host)
    (run_child : Child → Exec (World C.Doc Out) Text ExitStatus) where
  abbrev pub Act : Type 0 → Type 0
  Act A = Exec (World C.Doc Out) MechanismError A

  -- A step on the disk, its error as a message.
  abbrev pub on_disk : {A : Type 0} → Exec (Disk C.Doc) IoError A → Act A
  on_disk m w = (map_err message (m w.disk).0, record w { disk = (m w.disk).1 })

  unfoldable pub spawn_sandboxed :
      Text → SandboxPolicy → Text → List Text → List (Text × Text) → Act ExitStatus
  spawn_sandboxed path p workdir command env = do
    child ← lift (sandboxed H path p workdir command env)
    map_error (λ e. message (codes "sandbox-exec failed: " ++ e)) (run_child child)

  -- `write_profile`: the path of the temporary file.
  unfoldable pub write_profile : Text → Act Text
  write_profile contents = do
    path ← lift (map_err message H.temp_file)
    on_disk (write path (T.write_text contents))
    pure path

  -- The temporary file is removed when it goes out of scope.
  abbrev pub dropping : {A : Type 0} → Text → Act A → Act A
  dropping path m w = ((m w).0, record (m w).1 { disk = remove_file path (m w).1.disk })

  -- The branch of `create` that runs a command.
  unfoldable pub run_once : Text → CreateRequest → Act CreateResult
  run_once path req = do
    status ← spawn_sandboxed path req.policy req.workdir req.command req.env
    pure (record {
      name = req.name;
      mechanism = mac;
      runtime_id = codes "mac-ephemeral:" ++ req.name;
      proxy_port = port_of H.proxy_port;
      log_path = none;
      exit_code = status;
    })

  -- `let _ = fs::write(dir.join("policy.yaml"), yaml)`, if there is a text.
  abbrev pub write_yaml : Text → Result Text C.Doc → Act (Unit {0})
  write_yaml path (ok yaml) w = (ok tt, record w { disk = (write path yaml w.disk).1 })
  write_yaml path (err e) w = (ok tt, w)

  unfoldable pub write_policy : Text → SandboxPolicy → Act (Unit {0})
  write_policy path p = write_yaml path (C.to_yaml p)

  -- The branch of `create` that keeps the profile.
  unfoldable pub keep : Text → Text → CreateRequest → Act CreateResult
  keep base profile req =
      let dir = instance_dir base req.name in
      do
        on_disk (create_dir_all dir)
        on_disk (write (join dir (codes "profile.sb")) (T.write_text profile))
        on_disk (write (join dir (codes "workdir")) (T.write_text req.workdir))
        write_policy (join dir (codes "policy.yaml")) req.policy
        pure (record {
          name = req.name;
          mechanism = mac;
          runtime_id = runtime_id_of (join dir (codes "profile.sb"));
          proxy_port = port_of H.proxy_port;
          log_path = none;
          exit_code = none;
        })

  -- `create` behind the check of the system.
  unfoldable pub create_here : Text → CreateRequest → Act CreateResult
  create_here base req =
      let profile = generate_seatbelt_profile H.canonicalize req.policy req.workdir in
      do
        path ← write_profile profile
        dropping path (
            if req.ephemeral || is_command req.command
            then run_once path req
            else keep base profile req)

  unfoldable pub create : Text → CreateRequest → Act CreateResult
  create base req =
      if is_macos H.os
      then create_here base req
      else raise (unavailable (codes "mac_seatbelt requires macOS"))

  -- What a file holds, or a default.
  abbrev pub text_or : Result IoError C.Doc → Text → Text
  text_or (ok t) default = T.read_text t
  text_or (err e) default = default

  abbrev pub parsed_or_default : Result Text SandboxPolicy → SandboxPolicy
  parsed_or_default (ok p) = p
  parsed_or_default (err e) = policy_default

  abbrev pub policy_or_default : Result IoError C.Doc → SandboxPolicy
  policy_or_default (err e) = policy_default
  policy_or_default (ok yaml) = parsed_or_default (C.from_yaml yaml)

  -- The profile's path and the working directory.
  abbrev pub parse_path : Text → Option Text → Disk C.Doc → Result MechanismError (Text × Text)
  parse_path path none d = err (message (codes "invalid mac runtime id"))
  parse_path path (some dir) d =
      ok (path, text_or (read (join dir (codes "workdir")) d).0 (codes "."))

  unfoldable pub parse_mac_runtime : Text → Disk C.Doc → Result MechanismError (Text × Text)
  parse_mac_runtime runtime_id d = elim (strip_prefix (codes "mac:") runtime_id) [
    | none ↦ err (message (codes "not a mac runtime id: " ++ runtime_id))
    | some path ↦ parse_path path (parent path) d
  ]

  abbrev pub stored_policy : Option Text → Disk C.Doc → SandboxPolicy
  stored_policy none d = policy_default
  stored_policy (some dir) d = policy_or_default (read (join dir (codes "policy.yaml")) d).0

  unfoldable pub exec : ExecRequest → Act ExitStatus
  exec req w =
      (lift (parse_mac_runtime req.runtime_id w.disk) >>= λ (path, workdir).
      spawn_sandboxed path (stored_policy (parent path) w.disk) workdir req.command req.env)
        w

  abbrev pub remove_parent : Option Text → World C.Doc Out → World C.Doc Out
  remove_parent none w = w
  remove_parent (some dir) w = record w { disk = remove_dir_all dir w.disk }

  abbrev pub remove_parsed : Result MechanismError (Text × Text) → Act (Unit {0})
  remove_parsed (err e) w = (ok tt, w)
  remove_parsed (ok (path, workdir)) w = (ok tt, remove_parent (parent path) w)

  unfoldable pub remove : Text → Act (Unit {0})
  remove runtime_id w = remove_parsed (parse_mac_runtime runtime_id w.disk) w

  unfoldable pub doctor : World C.Doc Out → List DoctorItem
  doctor w =
      record {
        name = codes "sandbox-exec";
        is_ok = is_some (which_sandbox_exec H);
        detail = Option.get_or (which_sandbox_exec H) (codes "not found — macOS host required");
      }
      ∷ record { name = codes "platform"; is_ok = is_macos H.os; detail = H.os_name }
      ∷ record {
        name = codes "rlimits";
        is_ok = true;
        detail = codes "setrlimit AS/DATA/CPU (soft; weaker than Linux cgroups)";
      }
      ∷ []

  -- The backend, with its state directory if it was given one.
  unfoldable pub mechanism : Option Text → Mechanism (World C.Doc Out)
  mechanism state_dir = record {
    kind = mac;
    name = codes "mac_seatbelt";
    doctor = λ w. doctor w;
    create = λ req. create (Option.get_or state_dir (dirs_fallback H.config_dir)) req;
    exec = λ req. exec req;
    remove = λ runtime_id. remove runtime_id;
    logs = λ runtime_id tail. default_logs runtime_id tail;
  }

-- ===== src/Podman/Containers.antt =====
-- The operations of the Podman backend on its containers (crates/sandbox-mech-podman/src/lib.rs).
use simple_sandbox_public.Prelude.{ℕ, none, List, [], ◌∷◌, ◌++◌, Text, text_eq, if◌then◌else◌}
use simple_sandbox_public.Result.{Result, ok, err}
use simple_sandbox_public.Exec.{◌>>=◌, ◌>>◌, pure, raise, lift}
use simple_sandbox_public.Text.{codes, trim, is_empty, starts_with}
use simple_sandbox_public.Text.Decimal.{decimal}
use simple_sandbox_public.Policy.{podman}
use simple_sandbox_public.Mechanism.{
  MechanismError, message, CreateRequest, CreateResult, ExecRequest, ExitStatus, Mechanism,
}
use simple_sandbox_public.Podman.{Host, container_name}
use simple_sandbox_public.Podman.Create.{create_args, exec_args}
use simple_sandbox_public.Podman.Engine.{
  Output, Machine, is_success, port_of, Act, output, status, runtime_bin, run_cmd, runtime_ok,
  doctor,
}

-- What `rm` and `logs` fall back to.
abbrev pub prefixed : Text → Text
prefixed name = codes "ssbx-" ++ name

-- `id`, or the container's name if the engine printed none.
unfoldable pub runtime_id_of : Text → Text → Text
runtime_id_of name stdout = let id = trim stdout in if is_empty id then container_name name else id

module _ {W : Type 0} (H : Host) (X : Machine W) (image : Text) where
  abbrev pub created : CreateRequest → Text → ExitStatus → CreateResult
  created req id code = record {
    name = req.name;
    mechanism = podman;
    runtime_id = id;
    proxy_port = port_of H.proxy_port;
    log_path = none;
    exit_code = code;
  }

  -- The two ends of `create`.
  unfoldable pub run_attached : Text → List Text → CreateRequest → Act H X image CreateResult
  run_attached bin args req = do
    code ← status H X image bin args
    pure (created req (codes "ephemeral:" ++ req.name) code)

  unfoldable pub run_detached : Text → List Text → CreateRequest → Act H X image CreateResult
  run_detached bin args req = do
    out ← output H X image bin args
    (if is_success out.code
        then pure (created req (runtime_id_of req.name out.stdout) none)
        else raise (message (codes "create failed: " ++ out.stderr)))

  unfoldable pub create : CreateRequest → Act H X image CreateResult
  create req = do
    bin ← lift (runtime_bin H X image)
    runtime_ok H X image
    args ← lift (create_args H image req)
    (if req.ephemeral then run_attached bin args req else run_detached bin args req)

  unfoldable pub exec : ExecRequest → Act H X image ExitStatus
  exec req = do bin ← lift (runtime_bin H X image); status H X image bin (exec_args req)

  abbrev rm_args : Text → List Text
  rm_args name = codes "rm" ∷ codes "-f" ∷ name ∷ []

  -- The second try, its result ignored.
  unfoldable pub retry_rm : Text → Text → Act H X image (Unit {0})
  retry_rm bin name w = (ok tt, (X.output bin (rm_args (prefixed name)) w).1)

  unfoldable pub remove_container : Text → Text → Act H X image (Unit {0})
  unfolding retry_rm
  remove_container bin name = do
    out ← output H X image bin (rm_args name)
    (if is_success out.code then pure tt else retry_rm bin name)

  unfoldable pub remove : Text → Act H X image (Unit {0})
  remove runtime_id = do
    bin ← lift (runtime_bin H X image)
    (if starts_with (codes "ephemeral:") runtime_id
        then pure tt
        else remove_container bin runtime_id)

  abbrev pub log_args : Text → ℕ → List Text
  log_args name tail = codes "logs" ∷ codes "--tail" ∷ decimal tail ∷ name ∷ []

  -- `Result::or_else`
  abbrev pub or_else :
      {A : Type 0} → Act H X image A → Result MechanismError A → W → Result MechanismError A × W
  or_else m (ok a) w = (ok a, w)
  or_else m (err e) w = m w

  unfoldable pub read_logs : Text → ℕ → Act H X image Output
  read_logs runtime_id tail w =
      let first = run_cmd H X image (log_args runtime_id tail) w in
      or_else (run_cmd H X image (log_args (prefixed runtime_id) tail)) first.0 first.1

  unfoldable pub logs : Text → ℕ → Act H X image Text
  logs runtime_id tail = do
    bin ← lift (runtime_bin H X image)
    out ← read_logs runtime_id tail
    pure (out.stdout ++ out.stderr)

  unfoldable pub mechanism : Mechanism W
  mechanism = record {
    kind = podman;
    name = codes "linux_podman";
    doctor = λ w. doctor H X image w;
    create = λ req. create req;
    exec = λ req. exec req;
    remove = λ runtime_id. remove runtime_id;
    logs = λ runtime_id tail. logs runtime_id tail;
  }

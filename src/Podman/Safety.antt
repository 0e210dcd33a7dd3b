-- ===== src/Podman/Safety.antt =====
-- The Podman backend keeps to the interface: it leaves the disk to the binary that it runs
-- (crates/sandbox-mech-podman/src/lib.rs).
use simple_sandbox_public.Prelude.{
  ℕ, ◌≡◌, refl, ◌∙◌, Bool, true, false, Option, List, ◌++◌, Text, if◌then◌else◌,
}
use simple_sandbox_public.Result.{Result, ok, err}
use simple_sandbox_public.Exec.{Exec, raise, lift}
use simple_sandbox_public.Exec.Keeps.{
  Gives, Keeps, Gives-any, Keeps-pure, Keeps-lift, Keeps-bind, Keeps-map_error,
}
use simple_sandbox_public.Text.{codes, starts_with}
use simple_sandbox_public.Mechanism.{MechanismError, CreateRequest, ExecRequest, World, Leaves}
use simple_sandbox_public.Podman.{Host}
use simple_sandbox_public.Podman.Create.{create_args, exec_args}
use simple_sandbox_public.Podman.Engine.{
  Machine, is_success, Act, output, status, runtime_bin, run_cmd, probe, runtime_ok, pull,
  ensure_image,
}
use simple_sandbox_public.Podman.Containers.{
  prefixed, log_args, run_attached, run_detached, create, exec, retry_rm, remove_container, remove,
  read_logs, or_else, logs, mechanism,
}

module _ {Doc Out : Type 0} (H : Host) (X : Machine (World Doc Out)) (image path : Text) where
  -- What is asked of the binary: it leaves the file alone.
  pub record IsApart : Type 0 where
    pub output_leaves :
        (bin : Text) (args : List Text) (w : World Doc Out)
        → (X.output bin args w).1.disk.files path ≡ w.disk.files path
    pub status_leaves :
        (bin : Text) (args : List Text) (w : World Doc Out)
        → (X.status bin args w).1.disk.files path ≡ w.disk.files path

  module _ (A : IsApart) (v : Option Doc) where
    abbrev At : World Doc Out → Type 0
    At w = w.disk.files path ≡ v

    abbrev Keeping : {R : Type 0} → Act H X image R → Type 0
    Keeping m = Keeps At (λ _. Unit) m

    runs-At :
        {E R : Type 0} (m : Exec (World Doc Out) E R)
        → ((w : World Doc Out) → (m w).1.disk.files path ≡ w.disk.files path)
        → Keeps At (λ _. Unit) m
    runs-At m k = record { at = λ w h. (k w ∙ h, Gives-any (m w).0) }

    output-At : (bin : Text) (args : List Text) → Keeping (output H X image bin args)
    output-At bin args =
        Keeps-map_error _ _ (runs-At (X.output bin args) (A.output_leaves bin args))

    status-At : (bin : Text) (args : List Text) → Keeping (status H X image bin args)
    status-At bin args =
        Keeps-map_error _ _ (runs-At (X.status bin args) (A.status_leaves bin args))

    lift-At : {R : Type 0} (r : Result MechanismError R) → Keeping (lift r)
    lift-At r = Keeps-lift r λ a e. tt

    -- A branch on a test.
    if-At :
        {R : Type 0} (b : Bool) (m n : Act H X image R)
        → Keeping m
        → Keeping n
        → Keeping (if b then m else n)
    if-At true m n k l = k
    if-At false m n k l = l

    raise-At : {R : Type 0} (e : MechanismError) → Keeping {R = R} (raise e)
    raise-At e = record { at = λ w h. (h, tt) }

    runtime_ok-At : Keeping (runtime_ok H X image)
    unfolding runtime_ok
    runtime_ok-At = Keeps-bind _ _ (lift-At (runtime_bin H X image)) λ bin _.
        Keeps-bind _ _ (output-At bin _) λ out _.
          if-At (is_success out.code) _ _
            (runs-At (probe H X image bin) (λ w. A.output_leaves bin _ w)) (raise-At _)

    create-At : (req : CreateRequest) → Keeping (create H X image req)
    unfolding create run_attached run_detached
    create-At req = Keeps-bind _ _ (lift-At (runtime_bin H X image)) λ bin _.
        Keeps-bind _ _ runtime_ok-At λ arch _.
          Keeps-bind _ _ (lift-At (create_args H image req)) λ args _.
            if-At req.ephemeral _ _ (Keeps-bind _ _ (status-At bin args) λ code _. Keeps-pure _ tt)
              (Keeps-bind _ _ (output-At bin args)
                λ out _. if-At (is_success out.code) _ _ (Keeps-pure _ tt) (raise-At _))

    exec-At : (req : ExecRequest) → Keeping (exec H X image req)
    unfolding exec
    exec-At req =
        Keeps-bind _ _ (lift-At (runtime_bin H X image)) λ bin _. status-At bin (exec_args req)

    remove-At : (id : Text) → Keeping (remove H X image id)
    unfolding remove remove_container
    remove-At id = Keeps-bind _ _ (lift-At (runtime_bin H X image)) λ bin _.
        if-At (starts_with (codes "ephemeral:") id) _ _ (Keeps-pure tt tt) (
          Keeps-bind _ _ (output-At bin _) λ out _.
            if-At (is_success out.code) _ _ (Keeps-pure tt tt) (
              runs-At (retry_rm H X image bin id)
                (λ w. unfold retry_rm in A.output_leaves bin _ w)))

    run_cmd-At : (args : List Text) → Keeping (run_cmd H X image args)
    unfolding run_cmd
    run_cmd-At args =
        Keeps-bind _ _ (lift-At (runtime_bin H X image))
          λ bin _. Keeps-map_error _ _ (runs-At (X.output bin args) (A.output_leaves bin args))

    or_else-At :
        {R : Type 0} (m : Act H X image R) (r : Result MechanismError R) (w : World Doc Out)
        → Keeping m
        → At w
        → At (or_else H X image m r w).1 × Gives (λ _. Unit {0}) (or_else H X image m r w).0
    or_else-At m (ok a) w k h = (h, tt)
    or_else-At m (err e) w k h = k.at w h

    read_logs-At : (id : Text) (tail : ℕ) → Keeping (read_logs H X image id tail)
    unfolding read_logs
    read_logs-At id tail = record {
      at = λ w h.
          let first = run_cmd H X image (log_args H X image id tail) in
          or_else-At (run_cmd H X image (log_args H X image (prefixed id) tail)) (first w).0
            (first w).1 (run_cmd-At (log_args H X image (prefixed id) tail))
            ((run_cmd-At (log_args H X image id tail)).at w h).0;
    }

    logs-At : (id : Text) (tail : ℕ) → Keeping (logs H X image id tail)
    unfolding logs
    logs-At id tail = Keeps-bind _ _ (lift-At (runtime_bin H X image)) λ bin _.
        Keeps-bind _ _ (read_logs-At id tail) λ out _. Keeps-pure (out.stdout ++ out.stderr) tt

  -- The Podman backend leaves a file of the disk as it is, whatever the sandboxes are called and
  -- whatever the runtime identifiers are, if the binary that it runs does.
  pub podman-Leaves :
      (IsName : Text → Type 0) → IsApart → Leaves path IsName (λ id. Unit) (mechanism H X image)
  unfolding mechanism
  podman-Leaves IsName A = record {
    create_leaves = λ r w n.
        let (same, _) = (create-At A (w.disk.files path) r).at w refl in (same, Gives-any _);
    exec_leaves = λ r w o. ((exec-At A (w.disk.files path) r).at w refl).0;
    remove_leaves = λ id w o. ((remove-At A (w.disk.files path) id).at w refl).0;
    logs_leaves = λ id tail w o. ((logs-At A (w.disk.files path) id tail).at w refl).0;
  }

  -- The pull of the image, too.
  pub ensure_image-leaves :
      IsApart
      → (w : World Doc Out) → (ensure_image H X image w).1.disk.files path ≡ w.disk.files path
  unfolding ensure_image pull
  ensure_image-leaves A w =
      ((Keeps-bind _ _ (lift-At A (w.disk.files path) (runtime_bin H X image)) λ bin _.
          Keeps-bind _ _ (output-At A (w.disk.files path) bin _) λ out _.
            if-At A (w.disk.files path) (is_success out.code) _ _ (Keeps-pure tt tt) (
              Keeps-bind _ _ (status-At A (w.disk.files path) bin _) λ code _.
                if-At A (w.disk.files path) (is_success code) _ _ (Keeps-pure tt tt)
                  (raise-At A (w.disk.files path) _))).at
        w refl).0

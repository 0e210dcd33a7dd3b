-- ===== src/Krun.antt =====
-- The libkrun backend, a stub (crates/sandbox-mech-krun/src/lib.rs).
use simple_sandbox_public.Prelude.{refl, false, List, [], ◌∷◌, Text}
use simple_sandbox_public.Result.{Result, err}
use simple_sandbox_public.Exec.{lift}
use simple_sandbox_public.Text.{codes}
use simple_sandbox_public.Policy.{MechanismKind, krun}
use simple_sandbox_public.Mechanism.{
  MechanismError, not_implemented, CreateRequest, CreateResult, ExecRequest, DoctorItem, ExitStatus,
  Mechanism, World, Leaves, default_logs,
}

unfoldable pub kind : MechanismKind
kind = krun

unfoldable pub name : Text
name = codes "linux_libkrun"

unfoldable pub doctor : List DoctorItem
doctor =
    record {
      name = codes "libkrun";
      is_ok = false;
      detail = codes "not built yet — planned Hypervisor.framework Linux arm64 microVM";
    }
    ∷ record {
      name = codes "status";
      is_ok = false;
      detail = codes "use --mechanism podman (or mac) for now";
    }
    ∷ []

unfoldable pub create : CreateRequest → Result MechanismError CreateResult
create req = err (not_implemented (codes "linux_libkrun is a stub in v1; use podman or mac"))

-- `Status` is the child's exit status.
unfoldable pub exec : {Status : Type 0} → ExecRequest → Result MechanismError Status
exec req = err (not_implemented (codes "linux_libkrun is a stub in v1"))

unfoldable pub remove : Text → Result MechanismError (Unit {0})
remove runtime_id = err (not_implemented (codes "linux_libkrun is a stub in v1"))

-- The stub as a backend.
unfoldable pub mechanism : {W : Type 0} → Mechanism W
mechanism = record {
  kind = kind;
  name = name;
  doctor = λ w. doctor;
  create = λ req. lift (create req);
  exec = λ req. lift (exec {Status = ExitStatus} req);
  remove = λ runtime_id. lift (remove runtime_id);
  logs = λ runtime_id tail. default_logs runtime_id tail;
}

-- It makes no sandbox and changes nothing.
pub mechanism-Leaves :
    {Doc Out : Type 0} (path : Text) (IsName : Text → Type 0)
    → Leaves path IsName (λ _. ⊥) (mechanism {W = World Doc Out})
unfolding mechanism create exec remove default_logs
mechanism-Leaves path IsName = record {
  create_leaves = λ r w h. (refl, tt);
  exec_leaves = λ r w h. refl;
  remove_leaves = λ id w h. refl;
  logs_leaves = λ id tail w h. refl;
}

-- ===== src/Podman/Engine.antt =====
-- The binary that the Podman backend runs, and what it asks of it: whether the engine answers, and
-- whether the image is there
-- (crates/sandbox-mech-podman/src/lib.rs).
use simple_sandbox_public.Prelude.{
  ℕ, Bool, true, false, Option, none, some, List, [], ◌∷◌, ◌++◌, Text, text_eq, ◌==◌, ◌==ℕ◌,
  if◌then◌else◌,
}
use simple_sandbox_public.Result.{Result, ok, err}
use simple_sandbox_public.Exec.{Exec, ◌>>=◌, pure, raise, lift, map_error}
use simple_sandbox_public.Text.{codes, trim, is_empty}
use simple_sandbox_public.Text.Decimal.{parse_uint, max_u16}
use simple_sandbox_public.Mechanism.{
  MechanismError, message, unavailable, other, not_implemented, DoctorItem, ExitStatus,
}
use simple_sandbox_public.Podman.{Host}

-- `DEFAULT_IMAGE`
abbrev pub default_image : Text
default_image = codes "docker.io/library/alpine:3.20"

-- What a finished process printed, as text, and its exit code.
pub record Output : Type 0 where
  pub code : ExitStatus
  pub stdout : Text
  pub stderr : Text

-- `ExitStatus::success`
abbrev pub is_success : ExitStatus → Bool
is_success none = false
is_success (some n) = n ==ℕ 0

-- The machine: what `which` finds, the architecture, and the start of a binary with arguments, for
-- its output or its status alone, or the message of the error.
pub record Machine (W : Type 0) : Type 0 where
  pub binary : Option Text
  pub which : Text → Option Text
  pub arch : Text
  pub output : Text → List Text → Exec W Text Output
  pub status : Text → List Text → Exec W Text ExitStatus

unfoldable pub error_text : MechanismError → Text
error_text (message m) = m
error_text (other m) = m
error_text (unavailable m) = codes "mechanism not available: " ++ m
error_text (not_implemented m) = codes "not implemented: " ++ m

abbrev pub port_of : Option Text → Option ℕ
port_of none = none
port_of (some text) = parse_uint max_u16 text

abbrev no_runtime : Text
no_runtime = codes "neither podman nor docker found on PATH (install Podman Machine or Colima)"

abbrev or_arch : Text → Text → Text
or_arch arch text = if is_empty text then arch else text

module _ {W : Type 0} (H : Host) (X : Machine W) (image : Text) where
  abbrev pub Act : Type 0 → Type 0
  Act A = Exec W MechanismError A

  -- A process whose error is a message as it is.
  abbrev pub output : Text → List Text → Act Output
  output bin args = map_error message (X.output bin args)

  abbrev pub status : Text → List Text → Act ExitStatus
  status bin args = map_error message (X.status bin args)

  abbrev detected : Option Text → Option Text → Result MechanismError Text
  detected (some p) docker = ok p
  detected none (some p) = ok p
  detected none none = err (unavailable no_runtime)

  abbrev given_or : Option Text → Result MechanismError Text → Result MechanismError Text
  given_or (some b) found = ok b
  given_or none found = found

  unfoldable pub runtime_bin : Result MechanismError Text
  runtime_bin = given_or X.binary (detected (X.which (codes "podman")) (X.which (codes "docker")))

  unfoldable pub run_cmd : List Text → Act Output
  run_cmd args = do
    bin ← lift runtime_bin
    map_error (λ e. message (codes "failed to run " ++ bin ++ codes ": " ++ e)) (X.output bin args)

  -- The architecture that the engine prints, or the host's.
  abbrev pub probed : Result MechanismError Output → Text
  probed (err e) = X.arch
  probed (ok o) = if is_success o.code then or_arch X.arch (trim o.stdout) else X.arch

  abbrev probe_args : List Text
  probe_args = codes "version" ∷ codes "--format" ∷ codes "{{.Server.Arch}}" ∷ []

  abbrev pub probe : Text → Act Text
  probe bin w = let (r, w') = output bin probe_args w in (ok (probed r), w')

  unfoldable pub runtime_ok : Act Text
  runtime_ok = do
    bin ← lift runtime_bin
    out ← output bin (codes "ps" ∷ codes "-q" ∷ [])
    (if is_success out.code
        then probe bin
        else raise
            (unavailable (bin ++ codes " not usable (is the machine/VM running?): " ++ out.stderr)))

  abbrev binary_item : Result MechanismError Text → DoctorItem
  binary_item (ok bin) = record { name = codes "runtime-binary"; is_ok = true; detail = bin }
  binary_item (err e) = record {
    name = codes "runtime-binary";
    is_ok = false;
    detail = error_text e;
  }

  abbrev engine_item : Result MechanismError Text → DoctorItem
  engine_item (ok arch) = record {
    name = codes "runtime-engine";
    is_ok = true;
    detail = codes "reachable, arch=" ++ arch;
  }
  engine_item (err e) = record {
    name = codes "runtime-engine";
    is_ok = false;
    detail = error_text e;
  }

  abbrev pub engine_items :
      Result MechanismError Text → Result MechanismError Text → List DoctorItem
  engine_items (ok bin) engine = binary_item (ok bin) ∷ engine_item engine ∷ []
  engine_items (err e) engine = binary_item (err e) ∷ []

  unfoldable pub doctor : W → List DoctorItem
  unfolding runtime_bin runtime_ok
  doctor w =
      engine_items runtime_bin (runtime_ok w).0
      ++ record {
        name = codes "host-arch";
        is_ok = X.arch == codes "aarch64";
        detail = X.arch ++ codes " (arm64 Mac preferred for linux arm64 guests)";
      }
        ∷ record { name = codes "default-image"; is_ok = true; detail = image }
        ∷ []

  -- `ensure_image`
  unfoldable pub pull : Text → Act (Unit {0})
  pull bin = do
    code ← status bin (codes "pull" ∷ image ∷ [])
    (if is_success code then pure tt else raise (message (codes "failed to pull " ++ image)))

  unfoldable pub ensure_image : Act (Unit {0})
  unfolding runtime_bin pull
  ensure_image = do
    bin ← lift runtime_bin
    out ← output bin (codes "image" ∷ codes "inspect" ∷ image ∷ [])
    (if is_success out.code then pure tt else pull bin)

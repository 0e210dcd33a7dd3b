-- ===== src/Command.antt =====
-- How the commands make their policy (crates/ssbx/src/main.rs): `load_policy` with the overrides of
-- the command line, and the first steps of `cmd_create`.
pub mod Sandboxes
pub mod Stored
pub mod Interface
pub mod Soundness
pub mod Reach
pub mod Runs
pub mod Program
pub mod Queries
pub mod Output
pub mod Main
pub mod Panics
pub mod Entry
pub mod Created
pub mod Removed
pub mod Duplicate
pub mod Examples
mod Tests
mod Scenarios
mod Invocations
use simple_sandbox_public.Prelude.{◌≡◌, refl, ap, sym, ◌∙◌, ◌≢◌, Option, none, some, Text, arith}
use simple_sandbox_public.Result.{Result, ok, err, ◌>>=◌, map_err, >>=-eq-ok, map_err-eq-ok}
use simple_sandbox_public.Float.{F64}
use simple_sandbox_public.Disk.{Disk}
use simple_sandbox_public.Policy.{
  PolicyError, MechanismKind, podman, mac, krun, auto, ResourcePolicy, SandboxPolicy,
  policy_default,
}
use simple_sandbox_public.Policy.Mechanism.{
  TargetOs, macos, linux, other_os, resolve_mechanism, mechanism_or_auto,
}
use simple_sandbox_public.Policy.Validate.{validate}
use simple_sandbox_public.Policy.Validate.Laws.{IsValid, validate_iff}
use simple_sandbox_public.Policy.Preflight.{Extents, IsLawful, host_default, run_preflight}
use simple_sandbox_public.Policy.Preflight.Laws.{Fits, preflight_iff}
use simple_sandbox_public.Codec.{Codec, load_file}
use simple_sandbox_public.Store.{StateError}
use simple_sandbox_public.Secrets.{SecretError}
use simple_sandbox_public.Mechanism.{MechanismError}

-- An error that a command reports, with the policy's path where the context has one.
pub data CommandError : Type 0 where
  load_failed : Text → PolicyError → CommandError
  policy_failed : PolicyError → CommandError
  state_failed : StateError → CommandError
  secret_failed : SecretError → CommandError
  mechanism_failed : MechanismError → CommandError
  io_failed : Text → CommandError
  json_failed : Text → CommandError

-- The overrides of the command line.
pub record Overrides : Type 0 where
  pub cpus : Option F64
  pub memory : Option Text
  pub mechanism : Option MechanismKind

abbrev or_else {ℓ} : {A : Type ℓ} → Option A → A → A
or_else none a = a
or_else (some b) a = b

abbrev or_keep : Option MechanismKind → Option MechanismKind → Option MechanismKind
or_keep none kept = kept
or_keep (some k) kept = some k

unfoldable pub override : Overrides → SandboxPolicy → SandboxPolicy
override o p = record {
  version = p.version;
  filesystem = p.filesystem;
  network = p.network;
  resources = record {
    cpus = or_else o.cpus p.resources.cpus;
    memory = or_else o.memory p.resources.memory;
  };
  mechanism = or_keep o.mechanism p.mechanism;
  secrets = p.secrets;
}

abbrev pub with_mechanism : MechanismKind → SandboxPolicy → SandboxPolicy
with_mechanism k p = record {
  version = p.version;
  filesystem = p.filesystem;
  network = p.network;
  resources = p.resources;
  mechanism = some k;
  secrets = p.secrets;
}

-- The policy with `auto` resolved.
abbrev pub resolved_policy : TargetOs → SandboxPolicy → SandboxPolicy
resolved_policy os p = with_mechanism (resolve_mechanism os (mechanism_or_auto p)) p

module _ (C : Codec) where
  -- The file's policy, or the restrictive default.
  unfoldable pub base_policy : Option Text → Disk C.Doc → Result CommandError SandboxPolicy
  base_policy none d = ok policy_default
  base_policy (some path) d = map_err (load_failed path) (load_file C path d)

  unfoldable pub load_policy :
      Option Text → Overrides → Disk C.Doc → Result CommandError SandboxPolicy
  load_policy path o d = do
    base ← base_policy path d
    _ ← map_err policy_failed (validate (override o base))
    ok (override o base)

  module _ (X : Extents) (os : TargetOs) where
    -- `cmd_create` up to its preflight: the policy with the resolved backend.
    unfoldable pub prepare :
        Option Text → Overrides → Disk C.Doc → Result CommandError SandboxPolicy
    prepare path o d = do
      p ← load_policy path o d
      let resolved = resolved_policy os p
      _ ← map_err policy_failed (run_preflight X resolved host_default)
      ok resolved

resolve_mechanism-ne-auto : (os : TargetOs) (k : MechanismKind) → resolve_mechanism os k ≢ auto
unfolding resolve_mechanism
resolve_mechanism-ne-auto macos podman e = cc
resolve_mechanism-ne-auto macos mac e = cc
resolve_mechanism-ne-auto macos krun e = cc
resolve_mechanism-ne-auto macos auto e = cc
resolve_mechanism-ne-auto linux podman e = cc
resolve_mechanism-ne-auto linux mac e = cc
resolve_mechanism-ne-auto linux krun e = cc
resolve_mechanism-ne-auto linux auto e = cc
resolve_mechanism-ne-auto other_os podman e = cc
resolve_mechanism-ne-auto other_os mac e = cc
resolve_mechanism-ne-auto other_os krun e = cc
resolve_mechanism-ne-auto other_os auto e = cc

module _ (C : Codec) where
  -- A policy that a command loads is valid with the overrides in it: a CPU count, a memory size or a
  -- backend of the command line is the policy's, whatever its file says.
  pub load_policy-IsValid :
      (path : Option Text) (o : Overrides) (d : Disk C.Doc) {p : SandboxPolicy}
      → load_policy C path o d ≡ ok p
      → IsValid p
        × ((c : F64) → o.cpus ≡ some c → p.resources.cpus ≡ c)
        × ((m : Text) → o.memory ≡ some m → p.resources.memory ≡ m)
        × ((k : MechanismKind) → o.mechanism ≡ some k → p.mechanism ≡ some k)
  unfolding load_policy
  load_policy-IsValid path o d {p} e =
      let (base, _, checks) = >>=-eq-ok (base_policy C path d) _ e in
      let (_, valid, done) =
        >>=-eq-ok (map_err policy_failed (validate (override o base))) _ checks in
      let same : override o base ≡ p = cc done in
      rw (← same) (
        (validate_iff (override o base)).0 (map_err-eq-ok policy_failed _ valid),
        (λ c h. unfold override in ap (λ x. or_else x base.resources.cpus) h),
        (λ m h. unfold override in ap (λ x. or_else x base.resources.memory) h),
        (λ k h. unfold override in ap (λ x. or_keep x base.mechanism) h),
      )

  -- Over a lawful extent engine, the policy that a sandbox is created with is valid, fits the host's
  -- default capacity, and names a backend that is not `auto`.
  pub prepare-IsValid :
      (X : Extents) (L : IsLawful X) (os : TargetOs) (path : Option Text) (o : Overrides)
      (d : Disk C.Doc) {p : SandboxPolicy}
      → prepare C X os path o d ≡ ok p
      → IsValid p
        × Fits p host_default
        × ((k : MechanismKind) × (p.mechanism ≡ some k) × (k ≢ auto))
  unfolding prepare
  prepare-IsValid X L os path o d {p} e =
      let (q, _, checks) = >>=-eq-ok (load_policy C path o d) _ e in
      let kind = resolve_mechanism os (mechanism_or_auto q) in
      let (_, fits, done) =
        >>=-eq-ok (map_err policy_failed (run_preflight X (with_mechanism kind q) host_default)) _
          checks in
      let same : with_mechanism kind q ≡ p = cc done in
      let (valid, fit) =
        (preflight_iff X L host_default (with_mechanism kind q)).0
          (map_err-eq-ok policy_failed _ fits) in
      rw (← same) (valid, fit, (kind, refl, resolve_mechanism-ne-auto os (mechanism_or_auto q)))

-- ===== src/Command/Tests.antt =====
-- Tests of how the commands make their policy, and the theorems at concrete inputs
-- (crates/ssbx/src/main.rs).
use simple_sandbox_public.Prelude.{◌≡◌, refl, ◌≢◌, true, none, some, [], Text, text_eq}
use simple_sandbox_public.Result.{ok, err}
use simple_sandbox_public.Text.{codes, trim}
use simple_sandbox_public.Text.Decimal.{parse_uint}
use simple_sandbox_public.Float.{F64}
use simple_sandbox_public.Disk.{Disk, read}
use simple_sandbox_public.Policy.{
  MechanismKind, auto, mac, podman, network_mode_eq, SandboxPolicy, policy_default,
}
use simple_sandbox_public.Policy.Size.{memory_bytes, millicores}
use simple_sandbox_public.Policy.Mechanism.{linux}
use simple_sandbox_public.Policy.Validate.{validate, validate_network, validate_secrets}
use simple_sandbox_public.Policy.Validate.Laws.{IsValid}
use simple_sandbox_public.Policy.Preflight.{host_default, run_preflight}
use simple_sandbox_public.Policy.Preflight.Laws.{Fits}
use simple_sandbox_public.Policy.Examples.{extents, extents-IsLawful}
use simple_sandbox_public.Codec.{Codec, load_file, parse_yaml}
use simple_sandbox_public.Command.{
  Overrides, override, base_policy, load_policy, prepare, load_policy-IsValid, prepare-IsValid,
  resolved_policy,
}
use simple_sandbox_public.Prelude.{List, ◌∷◌, All}
use simple_sandbox_public.FilePath.Parent.{IsPlainName}
use simple_sandbox_public.Seatbelt.Removal.{Owns}
use simple_sandbox_public.Command.Stored.{
  Commands, create, exec, policy_set, shell, rm, ls, dispatch_all,
}
use simple_sandbox_public.Command.Interface.{IsNamed, IsSoundWorld}
use simple_sandbox_public.Command.Program.{linked, dispatch_all-linked}
use simple_sandbox_public.Command.Reach.{dispatch_all-IsSoundWorld}
use simple_sandbox_public.Command.Examples.{
  a-IsPlainName, documents-IsLawful, outside, outside-IsApart, root, setting, Containers,
  setting-IsRespectful, new_world, new_world-IsKept,
}

-- No file is read: the policy is the default.
abbrev policies : Codec
policies = record {
  Doc = SandboxPolicy;
  to_json = λ st. err [];
  from_json = λ d. err [];
  to_yaml = λ p. ok p;
  from_yaml = λ d. ok d;
  sha256_hex = λ d. [];
}

abbrev one_file : Disk SandboxPolicy
one_file = record { files = λ p. some policy_default; writable = λ p. true; directories = [] }

abbrev overrides : Overrides
overrides = record { cpus = none; memory = some (codes "1G"); mechanism = none }

abbrev small : SandboxPolicy
small = override overrides policy_default

loads : load_policy policies (some (codes "p")) overrides one_file ≡ ok small
unfolding load_policy base_policy load_file read parse_yaml validate memory_bytes trim parse_uint
    validate_network network_mode_eq validate_secrets override
loads = refl

load_policy-IsValid_example :
    IsValid small
    × ((c : F64) → overrides.cpus ≡ some c → small.resources.cpus ≡ c)
    × ((m : Text) → overrides.memory ≡ some m → small.resources.memory ≡ m)
    × ((k : MechanismKind) → overrides.mechanism ≡ some k → small.mechanism ≡ some k)
load_policy-IsValid_example =
    load_policy-IsValid policies (some (codes "p")) overrides one_file loads

prepares :
    prepare policies extents linux (some (codes "p")) overrides one_file
    ≡ ok (resolved_policy linux small)
unfolding prepare load_policy base_policy load_file read parse_yaml validate memory_bytes trim
    parse_uint validate_network network_mode_eq validate_secrets override run_preflight text_eq
    millicores
prepares = refl

prepare-IsValid_example :
    IsValid (resolved_policy linux small)
    × Fits (resolved_policy linux small) host_default
    × ((k : MechanismKind) × ((resolved_policy linux small).mechanism ≡ some k) × (k ≢ auto))
prepare-IsValid_example =
    prepare-IsValid policies extents extents-IsLawful linux (some (codes "p")) overrides one_file
      prepares

abbrev no_overrides : Overrides
no_overrides = record { cpus = none; memory = none; mechanism = some mac }

-- A sandbox of the macOS backend, from its creation to its removal.
abbrev session : List Commands
session =
    create (codes "1") 1 (some (codes "a")) none no_overrides
    ∷ exec (some (codes "a")) (codes "ls" ∷ [])
    ∷ policy_set none (codes "p.yaml")
    ∷ shell none
    ∷ rm (codes "a")
    ∷ ls
    ∷ []

session-IsNamed : All (IsNamed setting IsPlainName Containers (Owns root)) session
session-IsNamed = (a-IsPlainName, (tt, (tt, (tt, (tt, (tt, tt))))))

dispatch_all-IsSoundWorld_example :
    IsSoundWorld setting IsPlainName Containers (Owns root) (dispatch_all setting session new_world)
dispatch_all-IsSoundWorld_example =
    dispatch_all-IsSoundWorld setting IsPlainName Containers (Owns root) setting-IsRespectful
      session new_world session-IsNamed (new_world-IsKept _)

-- The same session, and a sandbox of the Podman backend, over the repository's own backends.
abbrev linked_session : List Commands
linked_session =
    create (codes "2") 2 (some (codes "a")) none (record no_overrides { mechanism = some podman })
    ∷ rm (codes "a")
    ∷ session

linked_session-IsSound :
    IsSoundWorld
      (linked setting outside)
      IsPlainName
      (λ id. Unit {0})
      (Owns root)
      (dispatch_all (linked setting outside) linked_session new_world)
linked_session-IsSound =
    dispatch_all-linked setting outside documents-IsLawful outside-IsApart linked_session new_world
      (a-IsPlainName, (tt, session-IsNamed)) (new_world-IsKept _)

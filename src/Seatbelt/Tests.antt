-- ===== src/Seatbelt/Tests.antt =====
-- Tests of the Seatbelt profile and of the limits, and their theorems at a concrete input
-- (crates/sandbox-mech-mac/src/lib.rs).
use simple_sandbox_public.Prelude.{
  false, none, ℕ, ◌*◌, ◌^◌, ◌≡◌, refl, Option, some, List, [], ◌∷◌, ◌++◌, Text, text_eq, arith, map,
}
use simple_sandbox_public.Result.{ok}
use simple_sandbox_public.Text.{codes, trim}
use simple_sandbox_public.Text.Decimal.{parse_uint}
use simple_sandbox_public.FilePath.{is_absolute, join, ends_with_separator}
use simple_sandbox_public.Policy.{SandboxPolicy, policy_default, allowlist, network_mode_eq}
use simple_sandbox_public.Policy.Mechanism.{macos}
use simple_sandbox_public.Policy.Size.{memory_bytes}
use simple_sandbox_public.Float.{times, ceil_u64}
use simple_sandbox_public.Seatbelt.{
  resolve_path, Resource, resident_set, cpu_seconds, apply_rlimits, memory_limits, cpu_limit,
  allow_write, generate_seatbelt_profile,
}
use simple_sandbox_public.Seatbelt.Rules.{rules_of}
use simple_sandbox_public.Seatbelt.Rules.Policies.{IsQuoted}
use simple_sandbox_public.Seatbelt.Profile.{
  pick, network_prefix, file_write_prefix, network_rules, writable_paths, device_writes, canonical,
  profile_network, profile_write,
}
use simple_sandbox_public.Seatbelt.Limits.{limits_on, IsCpuTime, apply_rlimits-validate}
use simple_sandbox_public.Policy.Size.Laws.{IsSize}
use simple_sandbox_public.Policy.Validate.{validate, validate_network, validate_secrets}
use simple_sandbox_public.Mechanism.{Leaves}
use simple_sandbox_public.FilePath.Parent.{IsPlainName}
use simple_sandbox_public.Store.Files.{index_path}
use simple_sandbox_public.Seatbelt.Instances.{mechanism}
use simple_sandbox_public.Seatbelt.Removal.{Owns}
use simple_sandbox_public.Seatbelt.Safety.{mechanism-Leaves}
use simple_sandbox_public.Seatbelt.Instances.{
  create, create_here, write_profile, keep, write_policy, instance_dir, profile_path, runtime_id_of,
  exec, spawn_sandboxed,
}
use simple_sandbox_public.Seatbelt.Kept.{IsKeepable}
use simple_sandbox_public.Seatbelt.Resume.{exec-create}
use simple_sandbox_public.FilePath.Parent.{IsPlainName}
use simple_sandbox_public.Disk.{write, create_dir_all}
use simple_sandbox_public.Policy.{mac}
use simple_sandbox_public.Mechanism.{CreateRequest, CreateResult, ExecRequest}
use simple_sandbox_public.Command.Examples.{
  documents, documents-IsLawful, policy_text, new_world, temp, texts, host, run_child, root,
  host-IsApart,
}

abbrev canonicalize : Text → Option Text
canonicalize p = some (codes "/private/home")

abbrev home : Text
home = codes "/home"

-- One path for reading, one for writing, and the network of an allowlist.
abbrev policy : SandboxPolicy
policy = record policy_default {
  filesystem = record policy_default.filesystem {
    read_only = codes "/opt" ∷ [];
    read_write = codes "out" ∷ [];
  };
  network = record policy_default.network { mode = allowlist };
}

policy-IsQuoted : IsQuoted policy (canonical canonicalize policy home)
unfolding resolve_path is_absolute join ends_with_separator
policy-IsQuoted = record {
  workdir_quotable = ground arith;
  read_only_quotable = ground arith;
  read_write_quotable = ground arith;
}

profile_network_example :
    pick network_prefix (rules_of (generate_seatbelt_profile canonicalize policy home))
    ≡ network_rules allowlist
profile_network_example = profile_network canonicalize policy home policy-IsQuoted

profile_write_example :
    pick file_write_prefix (rules_of (generate_seatbelt_profile canonicalize policy home))
    ≡ device_writes ++ map allow_write (writable_paths policy (codes "/private/home"))
profile_write_example = profile_write canonicalize policy home policy-IsQuoted

-- The paths for writing of that policy.
writable_test :
    writable_paths policy (codes "/private/home")
    ≡ codes "/private/home"
      ∷ codes "/private/home/out"
      ∷ codes "/tmp"
      ∷ codes "/private/tmp"
      ∷ codes "/var/folders"
      ∷ codes "/private/var/folders"
      ∷ []
unfolding writable_paths resolve_path is_absolute join ends_with_separator
writable_test = refl

abbrev default_limits : List (Resource × ℕ)
default_limits = (resident_set, 2147483648) ∷ (cpu_seconds, 7200) ∷ []

default_limits_asked : apply_rlimits macos policy_default ≡ ok default_limits
unfolding apply_rlimits memory_limits cpu_limit memory_bytes times ceil_u64 trim parse_uint
default_limits_asked = refl

default_is_valid : validate policy_default ≡ ok tt
unfolding validate validate_network validate_secrets network_mode_eq memory_bytes trim parse_uint
default_is_valid = refl

apply_rlimits-validate_example :
    (mem : ℕ) × (secs : ℕ) × (apply_rlimits macos policy_default ≡ ok (limits_on macos mem secs))
    × IsSize (trim policy_default.resources.memory) mem
    × IsCpuTime (2 * 3600 * 2 ^ 0) (2 ^ 0) secs
apply_rlimits-validate_example =
    apply_rlimits-validate macos policy_default 2 0 0 default_is_valid refl (omega arith)
      (omega arith)

mechanism-Leaves_example :
    Leaves
      (index_path root)
      IsPlainName
      (Owns root)
      (mechanism documents texts host run_child (some (join root (codes "mac"))))
mechanism-Leaves_example = mechanism-Leaves documents texts host run_child root host-IsApart

abbrev base : Text
base = codes "/home/mac"

-- A request that keeps a sandbox, and a command for it.
abbrev request : CreateRequest
request = record {
  name = codes "a";
  policy = policy;
  workdir = home;
  ephemeral = false;
  command = [];
  env = [];
}

abbrev kept_id : Text
kept_id = codes "mac:/home/mac/instances/a/profile.sb"

abbrev kept_result : CreateResult
kept_result = record {
  name = codes "a";
  mechanism = mac;
  runtime_id = kept_id;
  proxy_port = none;
  log_path = none;
  exit_code = none;
}

abbrev command : ExecRequest
command = record {
  name = codes "a";
  runtime_id = kept_id;
  command = codes "ls" ∷ [];
  env = [];
  tty = false;
  cwd = none;
}

creates : (create documents texts host run_child base request new_world).0 ≡ ok kept_result
unfolding create create_here write_profile keep write_policy instance_dir runtime_id_of write
    create_dir_all join is_absolute ends_with_separator
creates = refl

a-IsPlainName : IsPlainName (codes "a")
a-IsPlainName = record {
  nonempty = λ e. cc e;
  no_separator = ground arith;
  not_here = λ e. ground arith;
  not_parent = λ e. ground arith;
}

request-IsKeepable : IsKeepable documents texts host run_child base request new_world
unfolding instance_dir join is_absolute ends_with_separator
request-IsKeepable = record {
  plain = a-IsPlainName;
  stays = refl;
  idle = refl;
  yaml = policy_text policy;
  serialised = refl;
  policy_writable = refl;
  workdir_apart = λ path e. let same : temp ≡ path = cc e in rw (← same) (λ q. ground arith);
  policy_apart = λ path e. let same : temp ≡ path = cc e in rw (← same) (λ q. ground arith);
}

exec-create_example :
    exec documents texts host run_child command
      (create documents texts host run_child base request new_world).1
    ≡ spawn_sandboxed documents texts host run_child
        (profile_path base (codes "a"))
        policy
        home
        (codes "ls" ∷ [])
        []
        (create documents texts host run_child base request new_world).1
exec-create_example =
    exec-create documents texts host run_child documents-IsLawful base request command new_world
      request-IsKeepable creates refl

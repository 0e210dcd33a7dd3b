-- ===== src/Command/Scenarios.antt =====
-- The theorems on creations at concrete inputs (crates/ssbx/src/main.rs).
use simple_sandbox_public.Prelude.{
  ◌≡◌, refl, true, false, ◌==◌, if◌then◌else◌, none, some, [], ◌∷◌, text_eq,
}
use simple_sandbox_public.Result.{ok, err}
use simple_sandbox_public.Text.{codes, trim}
use simple_sandbox_public.Text.Decimal.{parse_uint}
use simple_sandbox_public.FilePath.{join, is_absolute, ends_with_separator}
use simple_sandbox_public.FilePath.Parent.{IsPlainName}
use simple_sandbox_public.Disk.{write, read}
use simple_sandbox_public.Policy.{network_mode_eq, podman, SandboxPolicy, policy_default}
use simple_sandbox_public.Policy.Size.{memory_bytes, millicores}
use simple_sandbox_public.Policy.Mechanism.{macos, mechanism_or_auto, resolve_mechanism}
use simple_sandbox_public.Policy.Validate.{validate, validate_network, validate_secrets}
use simple_sandbox_public.Policy.Preflight.{run_preflight}
use simple_sandbox_public.Policy.Examples.{extents, extents-IsLawful}
use simple_sandbox_public.Codec.{to_yaml, content_hash}
use simple_sandbox_public.Secrets.{resolve_secrets, to_env_pairs}
use simple_sandbox_public.Mechanism.{CreateResult}
use simple_sandbox_public.Seatbelt.Removal.{Owns}
use simple_sandbox_public.Store.{SandboxRecord, SandboxState, state_default, already_exists}
use simple_sandbox_public.Store.Index
use simple_sandbox_public.Store.Files
use simple_sandbox_public.Store.Files.{index_path}
use simple_sandbox_public.Store.Files.Laws.{Holds}
use simple_sandbox_public.Command.{
  state_failed, Overrides, override, load_policy, base_policy, prepare, resolved_policy,
}
use simple_sandbox_public.Command.Sandboxes.{cmd_create, launch, W}
use simple_sandbox_public.Command.Stored.{cmd_exec}
use simple_sandbox_public.Command.Created.{resume, cmd_exec-cmd_create}
use simple_sandbox_public.Command.Duplicate.{cmd_create_taken}
use simple_sandbox_public.Command.Examples.{
  a-IsPlainName, documents, root, setting, Containers, setting-IsRespectful, new_world, index_text,
}

abbrev in_container : Overrides
in_container = record { cpus = none; memory = none; mechanism = some podman }

abbrev container : CreateResult
container = record {
  name = codes "a";
  mechanism = podman;
  runtime_id = codes "c0ffee";
  proxy_port = none;
  log_path = none;
  exit_code = none;
}

creates :
    (cmd_create setting (codes "1") 1 (some (codes "a")) none in_container new_world).0
    ≡ ok (podman, container)
unfolding cmd_create prepare load_policy base_policy validate override memory_bytes trim parse_uint
    validate_network network_mode_eq validate_secrets run_preflight text_eq millicores
    resolve_secrets to_env_pairs resolve_mechanism Files.new_record content_hash to_yaml
    Files.save_policy Files.insert Files.load_index Files.save_index index_path read write join
    is_absolute ends_with_separator Index.insert mechanism_or_auto Files.policy_path Index.has_name
creates = refl

new_world-Holds : Holds documents root state_default new_world.disk
unfolding text_eq index_path join is_absolute ends_with_separator
new_world-Holds = record { text = index_text state_default; there = refl; reads = refl }

cmd_exec-cmd_create_example :
    (policy : SandboxPolicy) × (prepare documents extents macos none in_container new_world.disk
      ≡ ok policy)
    × (mechanism_or_auto policy ≡ podman)
    × (cmd_exec setting none
          (codes "ls" ∷ [])
          (cmd_create setting (codes "1") 1 (some (codes "a")) none in_container new_world).1
        ≡ resume setting
            (codes "a")
            podman
            (codes "c0ffee")
            (codes "ls" ∷ [])
            (cmd_create setting (codes "1") 1 (some (codes "a")) none in_container new_world).1)
cmd_exec-cmd_create_example =
    cmd_exec-cmd_create setting IsPlainName Containers (Owns root) setting-IsRespectful (codes "1")
      1 (some (codes "a")) none in_container new_world none (codes "ls" ∷ []) a-IsPlainName
      new_world-Holds refl tt creates

-- A store that holds a sandbox of that name.
abbrev a_record : SandboxRecord
a_record = record {
  id = codes "0";
  name = codes "a";
  mechanism = podman;
  runtime_id = codes "beef";
  policy_hash = codes "hash";
  workdir = codes "/work";
  created_at = 0;
  proxy_port = none;
  log_path = none;
  ephemeral = false;
}

abbrev a_state : SandboxState
a_state = record { last_used = none; sandboxes = a_record ∷ [] }

abbrev a_world : W setting
a_world = record {
  disk = record {
    files = λ p. if p == index_path root then some (index_text a_state) else none;
    writable = λ p. true;
    directories = [];
  };
  outside = tt;
}

a_world-Holds : Holds documents root a_state a_world.disk
unfolding text_eq index_path join is_absolute ends_with_separator
a_world-Holds = record { text = index_text a_state; there = refl; reads = refl }

abbrev contained : SandboxPolicy
contained = resolved_policy macos (override in_container policy_default)

prepares_contained : prepare documents extents macos none in_container a_world.disk ≡ ok contained
unfolding prepare load_policy base_policy validate override memory_bytes trim parse_uint
    validate_network network_mode_eq validate_secrets run_preflight text_eq millicores
prepares_contained = refl

launches_contained :
    (launch setting (codes "a") (mechanism_or_auto contained) contained false [] a_world).0
    ≡ ok container
unfolding launch resolve_secrets to_env_pairs network_mode_eq resolve_mechanism override
    mechanism_or_auto
launches_contained = refl

saves_contained :
    (Files.save_policy documents root
      (codes "a")
      contained
      (launch setting
        (codes "a")
        (mechanism_or_auto contained)
        contained
        false
        []
        a_world).1.disk).0
    ≡ ok (Files.policy_path root (codes "a"))
unfolding launch resolve_secrets to_env_pairs network_mode_eq resolve_mechanism override
    mechanism_or_auto Files.save_policy write to_yaml
saves_contained = refl

has_a : Index.has_name (codes "a") a_state.sandboxes ≡ true
unfolding Index.has_name text_eq
has_a = refl

cmd_create_taken_example :
    ((cmd_create setting (codes "1") 1 (some (codes "a")) none in_container a_world).0
      ≡ err (state_failed (already_exists (codes "a"))))
    × ((cmd_create setting (codes "1") 1 (some (codes "a")) none in_container a_world).1.outside
        ≡ (launch setting
            (codes "a")
            (mechanism_or_auto contained)
            contained
            false
            []
            a_world).1.outside)
    × ((Files.load_policy documents root
          (codes "a")
          (cmd_create setting (codes "1") 1 (some (codes "a")) none in_container a_world).1.disk).0
        ≡ ok contained)
    × ((cmd_create setting (codes "1") 1 (some (codes "a")) none in_container a_world).1.disk.files
          (index_path root)
        ≡ a_world.disk.files (index_path root))
cmd_create_taken_example =
    cmd_create_taken setting IsPlainName Containers (Owns root) setting-IsRespectful
      extents-IsLawful (codes "1") 1 (some (codes "a")) none in_container a_world a-IsPlainName
      a_world-Holds has_a prepares_contained launches_contained saves_contained

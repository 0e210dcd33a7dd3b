-- ===== src/Policy/Tests.antt =====
-- Tests of the policy component, and its theorems at concrete inputs
-- (crates/sandbox-policy/src/lib.rs).
use simple_sandbox_public.Prelude.{
  ◌≡◌, refl, ◌↔◌, inl, Bool, [], ◌∷◌, ◌++◌, ◌^◌, Text, text_eq, arith, ◌≤◌,
}
use simple_sandbox_public.Result.{ok, err}
use simple_sandbox_public.Text.{codes, trim, to_ascii_lowercase}
use simple_sandbox_public.Text.Decimal.{max_u64, parse_uint}
use simple_sandbox_public.Text.Decimal.Number.{IsNumber, parse_uint_sound}
use simple_sandbox_public.Float.{F64, nan, finite}
use simple_sandbox_public.Policy.{SandboxPolicy, policy_default, preflight, mac, network_mode_eq}
use simple_sandbox_public.FilePath.{is_absolute}
use simple_sandbox_public.Policy.{filesystem_default}
use simple_sandbox_public.Prelude.{true, All}
use simple_sandbox_public.Policy.HostPaths.{
  IsAbsolute, same_path, resolve, has_path, with_workspace, resolve_host_paths,
  resolve_host_paths-IsAbsolute,
}
use simple_sandbox_public.Policy.Size.{parse_size, size_overflow, memory_bytes}
use simple_sandbox_public.Policy.Size.Laws.{IsSize, tera, parse_size_iff, parse_size_overflow}
use simple_sandbox_public.Policy.Mechanism.{from_str, from_str-display, display}
use simple_sandbox_public.Policy.Validate.{validate, validate_network, validate_secrets}
use simple_sandbox_public.Policy.Validate.Laws.{IsValid, validate_iff}
use simple_sandbox_public.Policy.Examples.{extents, extents-IsLawful}
use simple_sandbox_public.Policy.Preflight.{host_default, run_preflight}
use simple_sandbox_public.Policy.Preflight.Laws.{Fits, preflight_iff, preflight_refuses}

abbrev one_and_a_half : F64
one_and_a_half = finite (Bool.false) 3 0 1

abbrev with_resources : F64 → Text → SandboxPolicy
with_resources cpus memory = record policy_default {
  resources = record { cpus = cpus; memory = memory };
}

parse_size_test : parse_size (codes " 512M ") ≡ ok 536870912
unfolding parse_size trim parse_uint
parse_size_test = refl

validate_nan_test : validate (with_resources nan (codes "2G")) ≡ ok tt
unfolding validate memory_bytes trim parse_uint validate_network network_mode_eq validate_secrets
validate_nan_test = refl

parse_size_iff_example :
    (parse_size (codes " 2G") ≡ ok 2147483648)
    ↔ (IsSize (trim (codes " 2G")) 2147483648 × (2147483648 ≤ max_u64))
parse_size_iff_example = parse_size_iff (codes " 2G") 2147483648

digits-IsNumber : IsNumber (codes "16777216") 16777216
unfolding parse_uint
digits-IsNumber = (parse_uint_sound max_u64 (codes "16777216") 16777216 refl).0

trim_big : trim (codes "16777216T") ≡ codes "16777216" ++ b'T' ∷ []
unfolding trim
trim_big = refl

parse_size_overflow_example :
    parse_size (codes "16777216T") ≡ err (size_overflow (trim (codes "16777216T")))
parse_size_overflow_example =
    parse_size_overflow (codes "16777216T") (codes "16777216") b'T' (2 ^ 40) 16777216 trim_big
      (tera (inl refl) refl) digits-IsNumber (omega arith) (omega arith)

validate_iff_example :
    (validate (with_resources one_and_a_half (codes "512m")) ≡ ok tt)
    ↔ IsValid (with_resources one_and_a_half (codes "512m"))
validate_iff_example = validate_iff (with_resources one_and_a_half (codes "512m"))

lower_mac : to_ascii_lowercase (codes "Mac") ≡ display mac
unfolding to_ascii_lowercase display
lower_mac = refl

mac_is_read : from_str (codes "Mac") ≡ ok mac
mac_is_read = from_str-display mac (codes "Mac") lower_mac

preflight_iff_example :
    (run_preflight extents policy_default host_default ≡ ok tt)
    ↔ (IsValid policy_default × Fits policy_default host_default)
preflight_iff_example = preflight_iff extents extents-IsLawful host_default policy_default

abbrev greedy : SandboxPolicy
greedy = with_resources one_and_a_half (codes "64G")

greedy-validate : validate greedy ≡ ok tt
unfolding validate memory_bytes trim parse_uint validate_network network_mode_eq validate_secrets
greedy-validate = refl

greedy_size : memory_bytes greedy.resources ≡ ok 68719476736
unfolding memory_bytes trim parse_uint
greedy_size = refl

greedy-Fits : ¬ Fits greedy host_default
greedy-Fits f = let same : f.memory.0 ≡ 68719476736 = cc (f.memory.1, greedy_size) in omega arith

preflight_refuses_example :
    (m : Text) × (run_preflight extents greedy host_default ≡ err (preflight m))
preflight_refuses_example =
    preflight_refuses extents extents-IsLawful host_default greedy
      ((validate_iff greedy).0 greedy-validate) greedy-Fits

host_paths_test :
    resolve_host_paths filesystem_default (codes "/w")
    ≡ ([], codes "/workspace" ∷ codes "/tmp" ∷ codes "/w" ∷ [])
unfolding resolve_host_paths resolve has_path same_path with_workspace text_eq is_absolute
host_paths_test = refl

workdir-IsAbsolute : IsAbsolute (codes "/w")
unfolding is_absolute
workdir-IsAbsolute = refl

resolve_host_paths-IsAbsolute_example :
    All IsAbsolute (resolve_host_paths filesystem_default (codes "/w")).0
    × All IsAbsolute (resolve_host_paths filesystem_default (codes "/w")).1
    × (filesystem_default.workdir ≡ true
        → has_path (codes "/w") (resolve_host_paths filesystem_default (codes "/w")).1 ≡ true)
resolve_host_paths-IsAbsolute_example =
    resolve_host_paths-IsAbsolute filesystem_default (codes "/w") workdir-IsAbsolute

-- ===== src/Policy/Validate.antt =====
-- `SandboxPolicy::validate` (crates/sandbox-policy/src/lib.rs).
pub mod Laws
use simple_sandbox_public.Prelude.{
  ℕ, ◌≡◌, refl, Bool, true, false, not, ◌&&◌, ◌||◌, List, [], ◌∷◌, ◌++◌, Text, ◌==◌, ◌==ℕ◌,
  if◌then◌else◌,
}
use simple_sandbox_public.Result.{Result, ok, err, ◌>>=◌}
use simple_sandbox_public.Text.{codes, is_empty}
use simple_sandbox_public.Text.Decimal.{decimal}
use simple_sandbox_public.Float.{le_zero}
use simple_sandbox_public.Policy.{
  PolicyError, invalid, NetworkPolicy, NetworkEndpoint, allowlist, network_mode_eq, SecretRef,
  SandboxPolicy,
}
use simple_sandbox_public.Policy.Size.{memory_bytes}

pub unsupported_version : ℕ → PolicyError
unsupported_version v = invalid (codes "unsupported policy version " ++ decimal v)

pub cpus_not_positive : PolicyError
cpus_not_positive = invalid (codes "resources.cpus must be > 0")

pub no_endpoint : PolicyError
no_endpoint = invalid (codes "network.mode=allowlist requires at least one endpoint")

pub empty_secret : PolicyError
empty_secret = invalid (codes "secrets entries need non-empty env and from")

abbrev no_endpoints : List NetworkEndpoint → Bool
no_endpoints [] = true
no_endpoints (e ∷ es) = false

-- The match on `network.mode`.
unfoldable pub validate_network : NetworkPolicy → Result PolicyError (Unit {0})
validate_network n =
    if n.mode == allowlist && no_endpoints n.endpoints then err no_endpoint else ok tt

-- The loop over the secrets.
unfoldable pub validate_secrets : List SecretRef → Result PolicyError (Unit {0})
validate_secrets [] = ok tt
validate_secrets (s ∷ rest) =
    if is_empty s.env || is_empty s.from then err empty_secret else validate_secrets rest

unfoldable pub validate : SandboxPolicy → Result PolicyError (Unit {0})
validate p =
    if not (p.version ==ℕ 1)
    then err (unsupported_version p.version)
    else if le_zero p.resources.cpus
    then err cpus_not_positive
    else do _ ← memory_bytes p.resources; _ ← validate_network p.network; validate_secrets p.secrets

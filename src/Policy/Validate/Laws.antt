-- ===== src/Policy/Validate/Laws.antt =====
-- `validate` decides a predicate on policies that is stated without it.
use simple_sandbox_public.Prelude.{
  ℕ, ◌≤◌, ◌<◌, ◌≡◌, refl, ◌≢◌, ◌↔◌, ◌⊎◌, inl, inr, false, List, [], ◌∷◌, arith, Text, All,
  Bool-cases, ◌==ℕ◌, ◌==◌,
}
use simple_sandbox_public.Result.{ok, >>=-eq-ok}
use simple_sandbox_public.Text.{trim}
use simple_sandbox_public.Text.Decimal.{max_u64}
use simple_sandbox_public.Float.{F64, nan, infinite, finite, le_zero}
use simple_sandbox_public.Policy.{
  allowlist, network_mode_eq, NetworkMode, NetworkEndpoint, NetworkPolicy, SecretRef, SandboxPolicy,
}
use simple_sandbox_public.Policy.Size.{memory_bytes}
use simple_sandbox_public.Policy.Size.Laws.{IsSize, parse_size_iff}
use simple_sandbox_public.Policy.Validate.{validate, validate_network, validate_secrets}

-- Greater than zero, for a number that is one.
abbrev pub IsPositive : F64 → Type 0
IsPositive nan = ⊥
IsPositive (infinite negative) = negative ≡ false
IsPositive (finite negative mantissa up down) = (negative ≡ false) × (0 < mantissa)

abbrev pub HasNames : SecretRef → Type 0
HasNames s = (s.env ≢ []) × (s.from ≢ [])

-- What the checks let through. NaN is no number, and passes.
pub record IsValid (p : SandboxPolicy) : Type 0 where
  pub version : p.version ≡ 1
  pub cpus : IsPositive p.resources.cpus ⊎ (p.resources.cpus ≡ nan)
  pub memory : (v : ℕ) × IsSize (trim p.resources.memory) v × (v ≤ max_u64)
  pub network : p.network.mode ≡ allowlist → p.network.endpoints ≢ []
  pub secrets : All HasNames p.secrets

le_zero_iff : (x : F64) → (le_zero x ≡ false) ↔ (IsPositive x ⊎ (x ≡ nan))
le_zero_iff nan = (λ h. inr refl, λ h. refl)
le_zero_iff (infinite negative) = (λ h. inl h, ground arith)
le_zero_iff (finite negative mantissa up down) =
    (λ h. inl (ground arith, ground arith), ground arith)

network_iff :
    (m : NetworkMode) (es : List NetworkEndpoint)
    → (validate_network (record { mode = m; endpoints = es }) ≡ ok tt) ↔ (m ≡ allowlist → es ≢ [])
unfolding validate_network
network_iff m [] = elim (Bool-cases (m == allowlist)) [
  | inl e ↦ (λ h. absurd (ground arith), λ h. absurd (h (ground arith) refl))
  | inr e ↦ (λ h a. absurd (ground arith), λ h. ground arith)
]
network_iff m (x ∷ es) = (λ h a p. cc, λ h. ground arith)

validate_network_iff :
    (n : NetworkPolicy) → (validate_network n ≡ ok tt) ↔ (n.mode ≡ allowlist → n.endpoints ≢ [])
validate_network_iff n = network_iff n.mode n.endpoints

secret_iff :
    (env from : Text) (rest : List SecretRef)
    → (validate_secrets rest ≡ ok tt) ↔ All HasNames rest
    → (validate_secrets (record { env = env; from = from } ∷ rest) ≡ ok tt)
      ↔ All HasNames (record { env = env; from = from } ∷ rest)
unfolding validate_secrets
secret_iff [] from rest ih = (λ h. cc, λ h. absurd (h.0.0 refl))
secret_iff (c ∷ env) [] rest ih = (λ h. cc, λ h. absurd (h.0.1 refl))
secret_iff (c ∷ env) (d ∷ from) rest ih = (λ h. ((λ p. cc, λ p. cc), ih.0 h), λ h. ih.1 h.1)

validate_secrets_iff : (s : List SecretRef) → (validate_secrets s ≡ ok tt) ↔ All HasNames s
validate_secrets_iff [] = (λ h. tt, λ h. unfold validate_secrets in refl)
validate_secrets_iff (s ∷ rest) = secret_iff s.env s.from rest (validate_secrets_iff rest)

pub memory_iff :
    (p : SandboxPolicy) (v : ℕ)
    → (memory_bytes p.resources ≡ ok v) ↔ (IsSize (trim p.resources.memory) v × (v ≤ max_u64))
unfolding memory_bytes
memory_iff p v = parse_size_iff p.resources.memory v

validate-IsValid : (p : SandboxPolicy) → validate p ≡ ok tt → IsValid p
unfolding validate
validate-IsValid p h = elim (Bool-cases (p.version ==ℕ 1)) [
  | inr e ↦ absurd (ground arith)
  | inl e ↦ elim (Bool-cases (le_zero p.resources.cpus)) [
    | inl f ↦ absurd (ground arith)
    | inr f ↦
        let checks = rw (e, f) at h in
        let (v, read, network) = >>=-eq-ok (memory_bytes p.resources) _ checks in
        let (_, reached, named) = >>=-eq-ok (validate_network p.network) _ network in
        let (size, fits) = (memory_iff p v).0 read in
        record {
          version = ground arith;
          cpus = (le_zero_iff p.resources.cpus).0 f;
          memory = (v, size, fits);
          network = (validate_network_iff p.network).0 reached;
          secrets = (validate_secrets_iff p.secrets).0 named;
        }
  ]
]

validate_of_IsValid : (p : SandboxPolicy) → IsValid p → validate p ≡ ok tt
unfolding validate
validate_of_IsValid p h = ground (
  arith,
  (le_zero_iff p.resources.cpus).1 h.cpus,
  (memory_iff p h.memory.0).1 (h.memory.1, h.memory.2),
  (validate_network_iff p.network).1 h.network,
  (validate_secrets_iff p.secrets).1 h.secrets,
)

-- Validation succeeds exactly on the policies with version 1, a CPU count that is positive or NaN,
-- a readable memory size that fits 64 bits, an endpoint if the mode is `allowlist`, and secrets
-- with a name and a source.
pub validate_iff : (p : SandboxPolicy) → (validate p ≡ ok tt) ↔ IsValid p
validate_iff p = (validate-IsValid p, validate_of_IsValid p)

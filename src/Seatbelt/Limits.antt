-- ===== src/Seatbelt/Limits.antt =====
-- The limits that a child of a valid policy gets (crates/sandbox-mech-mac/src/lib.rs).
use simple_sandbox_public.Prelude.{
  ℕ, ◌+◌, ◌*◌, ◌^◌, ◌≤◌, ◌<◌, ◌≡◌, refl, ap, false, List, [], ◌∷◌, ◌++◌, arith, ltb, Bool-cases,
  inl, inr, if◌then◌else◌,
}
use simple_sandbox_public.Result.{ok}
use simple_sandbox_public.Text.{trim}
use simple_sandbox_public.Text.Decimal.{max_u64}
use simple_sandbox_public.Float.{finite}
use simple_sandbox_public.Float.Exact.{IsCeiling, ceil_u64-times}
use simple_sandbox_public.Policy.{SandboxPolicy}
use simple_sandbox_public.Policy.Size.{memory_bytes}
use simple_sandbox_public.Policy.Size.Laws.{IsSize, parse_size_iff}
use simple_sandbox_public.Policy.Validate.{validate}
use simple_sandbox_public.Policy.Validate.Laws.{validate_iff}
use simple_sandbox_public.Policy.Mechanism.{TargetOs, macos, linux, other_os}
use simple_sandbox_public.Seatbelt.{
  Resource, resident_set, address_space, data_segment, cpu_seconds, memory_limits, cpu_limit,
  apply_rlimits,
}

-- The limits of a system for a memory size and a CPU time.
abbrev pub limits_on : TargetOs → ℕ → ℕ → List (Resource × ℕ)
limits_on macos mem secs = (resident_set, mem) ∷ (cpu_seconds, secs) ∷ []
limits_on linux mem secs = (address_space, mem) ∷ (data_segment, mem) ∷ (cpu_seconds, secs) ∷ []
limits_on other_os mem secs = (address_space, mem) ∷ (data_segment, mem) ∷ (cpu_seconds, secs) ∷ []

limits_on-memory_limits :
    (os : TargetOs) (mem secs : ℕ)
    → memory_limits os mem ++ (cpu_seconds, secs) ∷ [] ≡ limits_on os mem secs
unfolding memory_limits
limits_on-memory_limits macos mem secs = refl
limits_on-memory_limits linux mem secs = refl
limits_on-memory_limits other_os mem secs = refl

-- The CPU time: an hour for each CPU, `a / d` seconds, rounded up, but a minute at least.
pub record IsCpuTime (a d secs : ℕ) : Type 0 where
  pub a_minute : 60 ≤ secs
  pub enough : a ≤ secs * d
  pub no_more : 60 < secs → secs * d < a + d

at_least : (a d q : ℕ) → IsCeiling a d q → IsCpuTime a d (if ltb q 60 then 60 else q)
at_least a d q h = elim (Bool-cases (ltb q 60)) [
  | inl e ↦
      let less : q < 60 = ground arith in
      rw e (record {
        a_minute = omega arith;
        enough = grind arith;
        no_more = λ no. absurd (omega arith);
      })
  | inr e ↦ rw e (record { a_minute = ground arith; enough = h.least; no_more = λ _. h.most })
]

apply_rlimits_of_memory :
    (os : TargetOs) (p : SandboxPolicy) (mem : ℕ)
    → memory_bytes p.resources ≡ ok mem
    → apply_rlimits os p ≡ ok (limits_on os mem (cpu_limit p))
unfolding apply_rlimits
apply_rlimits_of_memory os p mem e = rw e (ap ok (limits_on-memory_limits os mem (cpu_limit p)))

-- A valid policy has limits: for the memory, by the means of the system, the size that its text
-- denotes, and for the CPU time an hour for each CPU, rounded up to a second, but a minute at least.
-- The CPU count is `m * 2 ^ up / 2 ^ down`, its product with 3600 fits the 53 bits of a mantissa,
-- and the seconds fit 64 bits.
pub apply_rlimits-validate :
    (os : TargetOs) (p : SandboxPolicy) (m up down : ℕ)
    → validate p ≡ ok tt
    → p.resources.cpus ≡ finite false m up down
    → m * 3600 < 2 ^ 53
    → m * 3600 * 2 ^ up ≤ max_u64 * 2 ^ down
    → (mem : ℕ) × (secs : ℕ) × (apply_rlimits os p ≡ ok (limits_on os mem secs))
      × IsSize (trim p.resources.memory) mem
      × IsCpuTime (m * 3600 * 2 ^ up) (2 ^ down) secs
apply_rlimits-validate os p m up down valid cpus small fits =
    let (mem, size, wide) = ((validate_iff p).0 valid).memory in
    let read : memory_bytes p.resources ≡ ok mem =
      unfold memory_bytes in (parse_size_iff p.resources.memory mem).1 (size, wide) in
    (
      mem,
      cpu_limit p,
      apply_rlimits_of_memory os p mem read,
      size,
      unfold cpu_limit in rw cpus (at_least _ _ _ (ceil_u64-times m 3600 up down small fits)),
    )

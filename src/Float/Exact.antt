-- ===== src/Float/Exact.antt =====
-- Products that need no rounding, and what `x.ceil() as u64` makes of them.
use native.Mathlib.Nat.{
  add-zero, sub-zero, div-mul-le_self, lt-div-mul-add, div-lt_iff_lt-mul, one-le-pow,
}
use simple_sandbox_public.Prelude.{
  ℕ, zero, suc, ◌+◌, ◌-◌, ◌*◌, ◌/◌, ◌^◌, ◌≤◌, ◌<◌, ◌≡◌, refl, ap, ◌∙◌, arith, true, false, ltb, leb,
  ◌||◌, ◌==ℕ◌,
}
use simple_sandbox_public.Text.Decimal.{max_u64}
use simple_sandbox_public.Float.{finite, excess, round_even, place, saturate, times, ceil_u64}

-- `q` is `a / d`, rounded up.
pub record IsCeiling (a d q : ℕ) : Type 0 where
  pub least : a ≤ q * d
  pub most : q * d < a + d

ceiling : (a d : ℕ) → 0 < d → IsCeiling a d ((a + (d - 1)) / d)
ceiling a d h =
    let below = div-mul-le_self (a + (d - 1)) d in
    let above = lt-div-mul-add {a = a + (d - 1)} h in
    record { least = omega (arith, above); most = omega (arith, below) }

saturate_small : (n : ℕ) → n ≤ max_u64 → saturate n ≡ n
unfolding saturate
saturate_small n h = ground arith

ceil_u64_small :
    (m up down : ℕ)
    → 0 < 2 ^ down
    → m * 2 ^ up ≤ max_u64 * 2 ^ down
    → IsCeiling (m * 2 ^ up) (2 ^ down) (ceil_u64 (finite false m up down))
unfolding ceil_u64
ceil_u64_small m up down pos h =
    let x = m * 2 ^ up + (2 ^ down - 1) in
    let small : x / 2 ^ down < suc max_u64 = (div-lt_iff_lt-mul pos).1 (omega arith) in
    rw (saturate_small (x / 2 ^ down) (omega arith)) (ceiling (m * 2 ^ up) (2 ^ down) pos)

excess_small : (fuel p : ℕ) → p < 2 ^ 53 → excess fuel p ≡ 0
unfolding excess
excess_small zero p h = refl
excess_small (suc fuel) p h = let small : ltb p (2 ^ 53) ≡ true = ground arith in rw (small, excess)

times_small :
    (m c up down : ℕ)
    → m * c < 2 ^ 53
    → times (finite false m up down) c ≡ place false (m * c) up down 0
unfolding times
times_small m c up down h =
    ap (λ s. place false (round_even (m * c) s) up down s) (excess_small 12 (m * c) h)
    ∙ ap (λ q. place false q up down 0) (unfold round_even in refl)

place_small :
    (p up down : ℕ)
    → p * 2 ^ up ≤ max_u64 * 2 ^ down
    → place false p up down 0 ≡ finite false p up down
unfolding place
place_small p up zero h =
    let fits : leb (2 ^ 1024) (p * 2 ^ (up + 0)) ≡ false = rw add-zero (ground arith) in
    rw (fits, add-zero)
place_small p up (suc down) h =
    let no : (ltb (suc down) 0 || suc down ==ℕ 0) ≡ false = ground arith in rw (no, sub-zero)

-- A product with at most 53 bits that fits `u64` is rounded up to the next whole number, exactly.
pub ceil_u64-times :
    (m c up down : ℕ)
    → m * c < 2 ^ 53
    → m * c * 2 ^ up ≤ max_u64 * 2 ^ down
    → IsCeiling (m * c * 2 ^ up) (2 ^ down) (ceil_u64 (times (finite false m up down) c))
ceil_u64-times m c up down small fits =
    rw (times_small m c up down small, place_small (m * c) up down fits)
      (ceil_u64_small (m * c) up down (omega (arith, one-le-pow down 2 (omega arith))) fits)

-- ===== src/Float.antt =====
-- What the program uses of `f64`: the sign test, a product by a small constant, rounding, and the
-- saturating cast to `u64`. A finite value is `mantissa * 2 ^ up / 2 ^ down` with its sign, the
-- mantissa at most 2 ^ 53.
pub mod Exact
use simple_sandbox_public.Prelude.{
  ℕ, zero, suc, ◌+◌, ◌-◌, ◌*◌, ◌/◌, ◌%◌, ◌^◌, Bool, true, false, ◌&&◌, ◌||◌, ltb, leb, ◌==ℕ◌,
  if◌then◌else◌,
}
use simple_sandbox_public.Text.Decimal.{max_u64}

pub data F64 : Type 0 where
  nan : F64
  infinite : Bool → F64
  finite : (negative : Bool) (mantissa up down : ℕ) → F64

-- `x <= 0.0`; every comparison with NaN is false.
abbrev pub le_zero : F64 → Bool
le_zero nan = false
le_zero (infinite negative) = negative
le_zero (finite negative mantissa up down) = negative || mantissa ==ℕ 0

-- A product is `p * 2 ^ up / 2 ^ down`, divided by two until it fits 53 bits; `shift` counts the
-- halvings.
excess : ℕ → ℕ → ℕ
excess zero p = 0
excess (suc fuel) p = elim (ltb p (2 ^ 53)) [ true ↦ 0 | false ↦ suc (excess fuel (p / 2)) ]

-- To nearest, ties to even.
round_even : ℕ → ℕ → ℕ
round_even p zero = p
round_even p (suc shift) =
    let q = p / 2 ^ suc shift in
    let r = p % 2 ^ suc shift in
    let half = 2 ^ shift in if ltb half r || (r ==ℕ half && q % 2 ==ℕ 1) then q + 1 else q

-- The finite value with mantissa `q` and exponent raised by `shift`, or infinity from 2 ^ 1024 on.
place : Bool → ℕ → ℕ → ℕ → ℕ → F64
place negative q up down shift =
    if ltb down shift || down ==ℕ shift
    then (if leb (2 ^ 1024) (q * 2 ^ (up + (shift - down)))
        then infinite negative
        else finite negative q (up + (shift - down)) 0)
    else finite negative q up (down - shift)

-- `x * c` for a positive whole constant below 2 ^ 12.
unfoldable pub times : F64 → ℕ → F64
unfolding excess round_even place
times nan c = nan
times (infinite negative) c = infinite negative
times (finite negative mantissa up down) c =
    let p = mantissa * c in
    let shift = excess 12 p in place negative (round_even p shift) up down shift

saturate : ℕ → ℕ
saturate n = if ltb max_u64 n then max_u64 else n

-- `x.round() as u64`: halves away from zero, NaN to 0, and the ends of `u64` beyond its range.
unfoldable pub round_u64 : F64 → ℕ
unfolding saturate
round_u64 nan = 0
round_u64 (infinite true) = 0
round_u64 (infinite false) = max_u64
round_u64 (finite true mantissa up down) = 0
round_u64 (finite false mantissa up down) =
    saturate ((2 * (mantissa * 2 ^ up) + 2 ^ down) / (2 * 2 ^ down))

-- `x.ceil() as u64`
unfoldable pub ceil_u64 : F64 → ℕ
unfolding saturate
ceil_u64 nan = 0
ceil_u64 (infinite true) = 0
ceil_u64 (infinite false) = max_u64
ceil_u64 (finite true mantissa up down) = 0
ceil_u64 (finite false mantissa up down) =
    saturate ((mantissa * 2 ^ up + (2 ^ down - 1)) / 2 ^ down)

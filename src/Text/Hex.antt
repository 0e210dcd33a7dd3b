-- ===== src/Text/Hex.antt =====
-- Unsigned integers as Rust prints them with `{:x}`.
use native.Mathlib.Nat.{pow-suc}
use mathlib.Core.List.{foldl}
use simple_sandbox_public.Prelude.{
  ℕ, zero, suc, ◌+◌, ◌-◌, ◌*◌, ◌/◌, ◌%◌, ◌^◌, ◌<◌, ◌≡◌, sym, ap, ◌∙◌, true, false, [], ◌∷◌, Text,
  ltb, if◌then◌else◌, Bool-cases, inl, inr, arith,
}

unfoldable hex_digit : ℕ → ℕ
hex_digit n = if ltb n 10 then b'0' + n else b'a' + (n - 10)

-- The digits of `n` in front of `out`, one for each unit of fuel at most.
unfoldable hex_digits : ℕ → ℕ → Text → Text
unfolding hex_digit
hex_digits zero n out = out
hex_digits (suc fuel) n out = elim (ltb n 16) [
  | true ↦ hex_digit n ∷ out
  | false ↦ hex_digits fuel (n / 16) (hex_digit (n % 16) ∷ out)
]

-- `{:x}` of an integer below 2 ^ 128: thirty-two digits are enough.
unfoldable pub hex : ℕ → Text
unfolding hex_digits
hex n = hex_digits 32 n []

-- The number that such digits spell behind `n`.
abbrev hex_value : ℕ → Text → ℕ
hex_value = foldl (λ n c. n * 16 + (if ltb c b'a' then c - b'0' else c - b'a' + 10))

hex_value-hex_digit :
    (n m : ℕ) (out : Text) → n < 16 → hex_value m (hex_digit n ∷ out) ≡ hex_value (m * 16 + n) out
unfolding hex_digit
hex_value-hex_digit n m out h =
    let same : m * 16
          + (if ltb (hex_digit n) b'a' then hex_digit n - b'0' else hex_digit n - b'a' + 10)
        ≡ m * 16 + n =
      ground arith in
    ap (λ k. hex_value k out) same

hex_digits_small :
    (fuel n : ℕ) (out : Text) → ltb n 16 ≡ true → hex_digits (suc fuel) n out ≡ hex_digit n ∷ out
unfolding hex_digits
hex_digits_small fuel n out e = rw (e, hex_digits)

hex_digits_large :
    (fuel n : ℕ) (out : Text)
    → ltb n 16 ≡ false
    → hex_digits (suc fuel) n out ≡ hex_digits fuel (n / 16) (hex_digit (n % 16) ∷ out)
unfolding hex_digits
hex_digits_large fuel n out e = rw (e, hex_digits)

-- With enough fuel the digits spell the number.
hex_value-hex_digits :
    (fuel n : ℕ) (out : Text)
    → n < 16 ^ fuel
    → hex_value 0 (hex_digits fuel n out) ≡ hex_value n out
hex_value-hex_digits zero n out h = unfold hex_digits in ap (λ k. hex_value k out) (omega arith)
hex_value-hex_digits (suc fuel) n out h = elim (Bool-cases (ltb n 16)) [
  | inl e ↦
      ap (hex_value 0) (hex_digits_small fuel n out e)
      ∙ hex_value-hex_digit n 0 out (ground arith)
      ∙ ap (λ k. hex_value k out) (omega arith)
  | inr e ↦
      ap (hex_value 0) (hex_digits_large fuel n out e)
      ∙ hex_value-hex_digits fuel (n / 16) _ (omega (arith, pow-suc 16 fuel))
      ∙ hex_value-hex_digit (n % 16) (n / 16) out (omega arith)
      ∙ ap (λ k. hex_value k out) (omega arith)
]

hex_value-hex : (n : ℕ) → n < 2 ^ 128 → hex_value 0 (hex n) ≡ n
unfolding hex
hex_value-hex n h = hex_value-hex_digits 32 n [] (omega arith)

-- Different numbers have different texts.
hex-injective : (n m : ℕ) → n < 2 ^ 128 → m < 2 ^ 128 → hex n ≡ hex m → n ≡ m
hex-injective n m h k e = sym (hex_value-hex n h) ∙ ap (hex_value 0) e ∙ hex_value-hex m k

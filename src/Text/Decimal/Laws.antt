-- ===== src/Text/Decimal/Laws.antt =====
-- Printing and reading unsigned integers: what is read is the value, and a print is read back.
use native.Mathlib.Nat.{pow-suc}
use mathlib.Core.List.{foldl}
use simple_sandbox_public.Prelude.{
  ℕ, zero, suc, ◌+◌, ◌-◌, ◌*◌, ◌/◌, ◌%◌, ◌^◌, ◌≤◌, ◌<◌, ◌≡◌, refl, ap, ◌∙◌, ◌≢◌, true, false, some,
  [], ◌∷◌, arith, Text, All, Bool-cases, inl, inr, ltb,
}
use simple_sandbox_public.Text.Decimal.{max_u64, digits, decimal, scan, parse_uint}

abbrev pub IsDigit : ℕ → Type 0
IsDigit c = (b'0' ≤ c) × (c ≤ b'9')

-- The number that digits spell behind `n`, with no bound.
abbrev pub value : ℕ → Text → ℕ
value = foldl (λ n c. n * 10 + (c - b'0'))

pub scan_sound :
    (max_value : ℕ) (s : Text) (n r : ℕ)
    → n ≤ max_value
    → scan max_value s n ≡ some r
    → All IsDigit s × (r ≡ value n s) × (r ≤ max_value)
unfolding scan
scan_sound max_value [] n r fits h = ground arith
scan_sound max_value (c ∷ s) n r fits h =
    ground (arith, scan_sound max_value s (n * 10 + (c - b'0')) r)

le-value : (s : Text) (n : ℕ) → n ≤ value n s
le-value [] n = omega arith
le-value (c ∷ s) n = omega (arith, le-value s (n * 10 + (c - b'0')))

pub scan_complete :
    (max_value : ℕ) (s : Text) (n : ℕ)
    → All IsDigit s
    → value n s ≤ max_value
    → scan max_value s n ≡ some (value n s)
unfolding scan
scan_complete max_value [] n _ _ = refl
scan_complete max_value (c ∷ s) n (hc, hs) fits =
    let m = n * 10 + (c - b'0') in ground (arith, scan_complete max_value s m hs fits, le-value s m)

-- A text that begins, and does not begin with a sign.
abbrev pub Headed : Text → Type 0
Headed [] = ⊥
Headed (c ∷ s) = c ≢ b'+'

pub parse_uint_of_Headed :
    (max_value : ℕ) (s : Text) → Headed s → parse_uint max_value s ≡ scan max_value s 0
unfolding parse_uint
parse_uint_of_Headed max_value [] h = absurd h
parse_uint_of_Headed max_value (c ∷ []) h = refl
parse_uint_of_Headed max_value (c ∷ d ∷ s) h = ground arith

digits_small :
    (fuel n : ℕ) (out : Text) → ltb n 10 ≡ true → digits (suc fuel) n out ≡ (b'0' + n) ∷ out
unfolding digits
digits_small fuel n out e = rw (e, digits)

digits_large :
    (fuel n : ℕ) (out : Text)
    → ltb n 10 ≡ false
    → digits (suc fuel) n out ≡ digits fuel (n / 10) ((b'0' + n % 10) ∷ out)
unfolding digits
digits_large fuel n out e = rw (e, digits)

digits-Headed_onto : (fuel n : ℕ) (out : Text) → Headed out → Headed (digits fuel n out)
digits-Headed_onto zero n out h = unfold digits in h
digits-Headed_onto (suc fuel) n out h = elim (Bool-cases (ltb n 10)) [
  | inl e ↦ rw (digits_small fuel n out e) (omega arith)
  | inr e ↦ rw (digits_large fuel n out e) (digits-Headed_onto fuel (n / 10) _ (omega arith))
]

pub decimal-Headed : (n : ℕ) → Headed (decimal n)
decimal-Headed n =
    unfold decimal in
    elim (Bool-cases (ltb n 10)) [
      | inl e ↦ rw (digits_small 19 n [] e) (omega arith)
      | inr e ↦ rw (digits_large 19 n [] e) (digits-Headed_onto 19 (n / 10) _ (omega arith))
    ]

digits-All-IsDigit : (fuel n : ℕ) (out : Text) → All IsDigit out → All IsDigit (digits fuel n out)
digits-All-IsDigit zero n out h = unfold digits in h
digits-All-IsDigit (suc fuel) n out h = elim (Bool-cases (ltb n 10)) [
  | inl e ↦ rw (digits_small fuel n out e) (ground arith, h)
  | inr e ↦ rw (digits_large fuel n out e) (digits-All-IsDigit fuel (n / 10) _ (omega arith, h))
]

pub decimal-All-IsDigit : (n : ℕ) → All IsDigit (decimal n)
unfolding decimal
decimal-All-IsDigit n = digits-All-IsDigit 20 n [] tt

-- One round of printing is undone by one round of reading.
scan_last :
    (max_value n : ℕ) (out : Text)
    → n ≤ max_value
    → scan max_value ((b'0' + n % 10) ∷ out) (n / 10) ≡ scan max_value out n
unfolding scan
scan_last max_value n out h = ground arith

scan_first :
    (max_value n : ℕ) (out : Text)
    → n ≤ max_value
    → ltb n 10 ≡ true
    → scan max_value ((b'0' + n) ∷ out) 0 ≡ scan max_value out n
unfolding scan
scan_first max_value n out h e = ground arith

scan-digits :
    (max_value fuel n : ℕ) (out : Text)
    → n ≤ max_value
    → n < 10 ^ fuel
    → scan max_value (digits fuel n out) 0 ≡ scan max_value out n
scan-digits max_value zero n out h lt = unfold digits in ap (scan max_value out) (omega arith)
scan-digits max_value (suc fuel) n out h lt = elim (Bool-cases (ltb n 10)) [
  | inl e ↦ rw (digits_small fuel n out e) (scan_first max_value n out h e)
  | inr e ↦ rw (digits_large fuel n out e) (
      scan-digits max_value fuel (n / 10) _ (omega arith) (omega (arith, pow-suc 10 fuel))
      ∙ scan_last max_value n out h)
]

-- A printed number is read back, in every type that holds it.
pub parse_uint-decimal :
    (max_value n : ℕ) → n ≤ max_value → n ≤ max_u64 → parse_uint max_value (decimal n) ≡ some n
unfolding decimal scan
parse_uint-decimal max_value n h fits =
    parse_uint_of_Headed max_value (decimal n) (decimal-Headed n)
    ∙ scan-digits max_value 20 n [] h (omega arith)

pub decimal-injective : (n m : ℕ) → n ≤ max_u64 → m ≤ max_u64 → decimal n ≡ decimal m → n ≡ m
decimal-injective n m hn hm e = cc (
  parse_uint-decimal max_u64 n hn hn,
  parse_uint-decimal max_u64 m hm hm,
  ap (parse_uint max_u64) e,
)

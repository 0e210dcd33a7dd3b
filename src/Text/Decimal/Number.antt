-- ===== src/Text/Decimal/Number.antt =====
-- The texts that `str::parse` reads as unsigned integers, described without the parser.
use simple_sandbox_public.Prelude.{
  ℕ, ◌≤◌, ◌≡◌, refl, ap, sym, subst, ◌∙◌, ◌≢◌, ◌⊎◌, inl, inr, some, [], ◌∷◌, arith, Text, All,
  Bool-cases, ◌==ℕ◌,
}
use simple_sandbox_public.Text.Decimal.{scan, parse_uint}
use simple_sandbox_public.Text.Decimal.Laws.{
  IsDigit, value, scan_sound, scan_complete, parse_uint_of_Headed,
}

-- One digit or more, perhaps behind a plus sign, that spell `v`.
pub record IsNumber (s : Text) (v : ℕ) : Type 0 where
  pub digits : Text
  pub shape : (s ≡ digits) ⊎ (s ≡ b'+' ∷ digits)
  pub some_digit : digits ≢ []
  pub all_digits : All IsDigit digits
  pub spells : v ≡ value 0 digits

scan-IsNumber :
    (max_value c : ℕ) (s t : Text) (v : ℕ)
    → (t ≡ c ∷ s) ⊎ (t ≡ b'+' ∷ c ∷ s)
    → scan max_value (c ∷ s) 0 ≡ some v
    → IsNumber t v × (v ≤ max_value)
scan-IsNumber max_value c s t v shape h =
    let (d, e, f) = scan_sound max_value (c ∷ s) 0 v (omega arith) h in
    (record { digits = c ∷ s; shape = shape; some_digit = λ p. cc; all_digits = d; spells = e }, f)

pub parse_uint_sound :
    (max_value : ℕ) (s : Text) (v : ℕ)
    → parse_uint max_value s ≡ some v
    → IsNumber s v × (v ≤ max_value)
unfolding parse_uint
parse_uint_sound max_value [] v h = cc
parse_uint_sound max_value (c ∷ []) v h = scan-IsNumber max_value c [] (c ∷ []) v (inl refl) h
parse_uint_sound max_value (c ∷ d ∷ s) v h = elim (Bool-cases (c ==ℕ b'+')) [
  | inl e ↦
      let p : c ≡ b'+' = ground arith in
      scan-IsNumber max_value d s (c ∷ d ∷ s) v (inr (cc)) (rw e at h)
  | inr e ↦ scan-IsNumber max_value c (d ∷ s) (c ∷ d ∷ s) v (inl refl) (rw e at h)
]

-- A digit behind a plus sign, or in front.
parse_uint_of_plus :
    (max_value : ℕ) (s : Text) → s ≢ [] → parse_uint max_value (b'+' ∷ s) ≡ scan max_value s 0
unfolding parse_uint
parse_uint_of_plus max_value [] h = absurd (h refl)
parse_uint_of_plus max_value (c ∷ s) h = refl

parse_uint_of_digits :
    (max_value : ℕ) (s : Text)
    → s ≢ []
    → All IsDigit s
    → parse_uint max_value s ≡ scan max_value s 0
parse_uint_of_digits max_value [] h a = absurd (h refl)
parse_uint_of_digits max_value (c ∷ s) h a = parse_uint_of_Headed max_value (c ∷ s) (omega arith)

pub parse_uint_complete :
    (max_value : ℕ) (s : Text) (v : ℕ)
    → IsNumber s v
    → v ≤ max_value
    → parse_uint max_value s ≡ some v
parse_uint_complete max_value s v n fits =
    let read : scan max_value n.digits 0 ≡ some v =
      scan_complete max_value n.digits 0 n.all_digits (subst (λ x. x ≤ max_value) n.spells fits)
      ∙ ap some (sym n.spells) in
    elim n.shape [
      | inl e ↦ rw e (parse_uint_of_digits max_value n.digits n.some_digit n.all_digits ∙ read)
      | inr e ↦ rw e (parse_uint_of_plus max_value n.digits n.some_digit ∙ read)
    ]

-- What a number's characters are.
abbrev pub IsNumeric : ℕ → Type 0
IsNumeric c = (b'+' ≤ c) × (c ≤ b'9')

All-IsNumeric : (s : Text) → All IsDigit s → All IsNumeric s
All-IsNumeric [] h = tt
All-IsNumeric (c ∷ s) (h, hs) = (omega arith, All-IsNumeric s hs)

pub IsNumber-All-IsNumeric : {s : Text} {v : ℕ} → IsNumber s v → All IsNumeric s
IsNumber-All-IsNumeric n = elim n.shape [
  | inl e ↦ subst (All IsNumeric) (sym e) (All-IsNumeric n.digits n.all_digits)
  | inr e ↦ subst (All IsNumeric) (sym e) (omega arith, All-IsNumeric n.digits n.all_digits)
]

pub IsNumber-ne-nil : {s : Text} {v : ℕ} → IsNumber s v → s ≢ []
IsNumber-ne-nil n e = elim n.shape [ inl p ↦ n.some_digit (sym p ∙ e) | inr p ↦ cc ]

-- ===== src/Prelude/Equality.antt =====
-- Rust's `==` for the types that the program compares: texts, options and plain enums.
use Prim.Native.Nat.{ℕ, compare, Ordering}
use mathlib.Core.Path.{◌≡◌, refl, ap}
use mathlib.Core.Logic.{◌≢◌, ite, dite}
use mathlib.Core.Bool.{Bool, true, false, ◌&&◌, ◌||◌, Bool-discrete}
use mathlib.Core.Option.{Option, none, some, none-ne-some, some-ne-none, some-injective}
use mathlib.Core.List.{List, [], ◌∷◌}
use native.Mathlib.Omega.{arith}

pub record Eq {ℓ} (A : Type ℓ) : Type ℓ where
  pub dec : Discrete A

module _ {ℓ} {A : Type ℓ} ⦃e : Eq A⦄ where
  infix 50 ◌==◌
  abbrev pub ◌==◌ : A → A → Bool
  a == b = ite (e.dec a b) true false

  -- `contains` of a slice or a set that is listed.
  abbrev pub contains : List A → A → Bool
  contains [] a = false
  contains (x ∷ xs) a = a == x || contains xs a

  option_dec : Discrete (Option A)
  option_dec none none = yes refl
  option_dec none (some b) = no (none-ne-some b)
  option_dec (some a) none = no (some-ne-none a)
  option_dec (some a) (some b) =
      dite (e.dec a b) (λ p. yes (ap some p)) (λ n. no (λ p. n (some-injective a b p)))

  instance unfoldable pub option_eq : Eq (Option A)
  unfolding option_dec
  option_eq = record { dec = option_dec }

-- A text, as Rust's `str` is seen by its characters: the list of their code points.
abbrev pub Text : Type 0
Text = List ℕ

abbrev nat_beq : ℕ → ℕ → Bool
nat_beq a b = elim (compare a b) [ Ordering.eq ↦ true | _ ↦ false ]

text_beq : Text → Text → Bool
text_beq [] [] = true
text_beq (c ∷ s) (d ∷ t) = nat_beq c d && text_beq s t
text_beq _ _ = false

text_beq_sound : (s t : Text) → text_beq s t ≡ true → s ≡ t
unfolding text_beq
text_beq_sound [] [] h = refl
text_beq_sound [] (d ∷ t) h = cc
text_beq_sound (c ∷ s) [] h = cc
text_beq_sound (c ∷ s) (d ∷ t) h = ground (arith, text_beq_sound s t)

text_beq_complete : (s t : Text) → s ≡ t → text_beq s t ≡ true
unfolding text_beq
text_beq_complete [] [] h = refl
text_beq_complete [] (d ∷ t) h = cc
text_beq_complete (c ∷ s) [] h = cc
text_beq_complete (c ∷ s) (d ∷ t) h = ground (arith, text_beq_complete s t)

-- Shut in proofs, where a split on `s == t` yields the equation or its negation.
instance unfoldable pub text_eq : Eq Text
unfolding text_beq text_beq_sound text_beq_complete
text_eq = record {
  dec = λ s t.
      dite (Bool-discrete (text_beq s t) true) (λ same. yes (text_beq_sound s t same))
        (λ differ. no (λ p. differ (text_beq_complete s t p)));
}

-- Two literals differ: the test says so.
pub ne_of_test {ℓ} : {A : Type ℓ} ⦃e : Eq A⦄ (a b : A) → (a == b) ≡ false → a ≢ b
ne_of_test a b h = ground arith

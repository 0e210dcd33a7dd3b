-- ===== src/Exec.antt =====
-- Fallible code with state: a result and the state that is left, also beside an error.
pub mod Keeps
use simple_sandbox_public.Prelude.{◌≡◌, refl}
use simple_sandbox_public.Result.{Result, ok, err, map_err}

abbrev pub Exec {ℓ κ μ} : Type ℓ → Type κ → Type μ → Type (ℓ ⊔ κ ⊔ μ)
Exec S E A = S → Result E A × S

module _ {ℓ κ μ} {S : Type ℓ} {E : Type κ} {A : Type μ} where
  abbrev pub pure : A → Exec S E A
  pure a s = (ok a, s)

  abbrev pub raise : E → Exec S E A
  raise e s = (err e, s)

  abbrev pub lift : Result E A → Exec S E A
  lift r s = (r, s)

module _ {ℓ κ μ ν} {S : Type ℓ} {E : Type κ} {A : Type μ} {B : Type ν} where
  abbrev pub after : Result E A → (A → Exec S E B) → Exec S E B
  after (ok a) f s = f a s
  after (err e) f s = (err e, s)

  infixl 5 ◌>>=◌ ◌>>◌
  abbrev pub ◌>>=◌ : Exec S E A → (A → Exec S E B) → Exec S E B
  ◌>>=◌ m f s = after (m s).0 f (m s).1

  abbrev pub ◌>>◌ : Exec S E A → Exec S E B → Exec S E B
  m >> n = m >>= λ _. n

-- `map_err` on what a step returns.
abbrev pub map_error {ℓ κ μ ν} :
    {S : Type ℓ} {E : Type κ} {F : Type μ} {A : Type ν} → (E → F) → Exec S E A → Exec S F A
map_error f m s = (map_err f (m s).0, (m s).1)

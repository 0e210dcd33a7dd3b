-- ===== src/Exec/Keeps.antt =====
-- A logic for stateful code: an invariant that holds after the code, whether it returns or fails,
-- and what is known of a returned value. One rule for each way to build such code.
use simple_sandbox_public.Prelude.{◌≡◌, refl}
use simple_sandbox_public.Result.{Result, ok, err, map_err}
use simple_sandbox_public.Exec.{Exec, pure, lift, after, ◌>>=◌, map_error}

abbrev pub Gives {ℓ κ μ} : {E : Type κ} {A : Type μ} → (A → Type ℓ) → Result E A → Type ℓ
Gives Q (ok a) = Q a
Gives Q (err e) = Unit

module _ {ℓ κ μ} {E : Type κ} {A : Type μ} where
  Gives-of : {Q : A → Type ℓ} (r : Result E A) → ((a : A) → r ≡ ok a → Q a) → Gives Q r
  Gives-of (ok a) q = q a refl
  Gives-of (err e) q = tt

  pub Gives-any : (r : Result E A) → Gives {ℓ, κ, μ} (λ _. Unit) r
  Gives-any (ok a) = tt
  Gives-any (err e) = tt

module _ {ℓ κ ν μ} {E : Type κ} {F : Type ν} {A : Type μ} where
  Gives-map_err : (Q : A → Type ℓ) (f : E → F) (r : Result E A) → Gives Q r → Gives Q (map_err f r)
  Gives-map_err Q f (ok a) q = q
  Gives-map_err Q f (err e) q = tt

pub record Keeps {ℓ κ μ} {S : Type ℓ} {E : Type κ} {A : Type μ} (P : S → Type ℓ) (Q : A → Type ℓ)
    (m : Exec S E A) : Type ℓ where
  pub at : (s : S) → P s → P (m s).1 × Gives Q (m s).0

module _ {ℓ κ μ} {S : Type ℓ} {E : Type κ} {A : Type μ} {P : S → Type ℓ} {Q : A → Type ℓ} where
  pub Keeps-pure : (a : A) → Q a → Keeps {E = E} P Q (pure a)
  Keeps-pure a q = record { at = λ s h. (h, q) }

  pub Keeps-lift : (r : Result E A) → ((a : A) → r ≡ ok a → Q a) → Keeps P Q (lift r)
  Keeps-lift r q = record { at = λ s h. (h, Gives-of r q) }

module _ {ℓ κ ν μ} {S : Type ℓ} {E : Type κ} {F : Type ν} {A : Type μ} {P : S → Type ℓ}
    {Q : A → Type ℓ} where
  pub Keeps-map_error : (f : E → F) (m : Exec S E A) → Keeps P Q m → Keeps P Q (map_error f m)
  Keeps-map_error f m k = record {
    at = λ s h. let (h', q) = k.at s h in (h', Gives-map_err Q f (m s).0 q);
  }

module _ {ℓ κ μ ν} {S : Type ℓ} {E : Type κ} {A : Type μ} {B : Type ν} {P : S → Type ℓ}
    {Q : A → Type ℓ} {R : B → Type ℓ} where
  Keeps-after :
      (r : Result E A) (f : A → Exec S E B) (s : S)
      → ((a : A) → Q a → Keeps P R (f a))
      → P s
      → Gives Q r
      → P (after r f s).1 × Gives R (after r f s).0
  Keeps-after (ok a) f s k h q = (k a q).at s h
  Keeps-after (err e) f s k h q = (h, tt)

  pub Keeps-bind :
      (m : Exec S E A) (f : A → Exec S E B)
      → Keeps P Q m
      → ((a : A) → Q a → Keeps P R (f a))
      → Keeps P R (m >>= f)
  Keeps-bind m f km kf = record {
    at = λ s h. let (h', q) = km.at s h in Keeps-after (m s).0 f (m s).1 kf h' q;
  }

module _ {ℓ κ μ ν} {S : Type ℓ} {E : Type κ} {A : Type μ} {B : Type ν} where
  reaches :
      (r : Result E A) (s : S) (f : A → Exec S E B) {b : B}
      → (after r f s).0 ≡ ok b
      → (a : A) × (r ≡ ok a) × (after r f s ≡ f a s)
  reaches (ok a) s f e = (a, refl, refl)
  reaches (err x) s f e = cc

  -- A step whose whole block returns has returned, and the block goes on from the state it left.
  pub >>=-reaches :
      (m : Exec S E A) (f : A → Exec S E B) (s : S) {b : B}
      → ((m >>= f) s).0 ≡ ok b
      → (a : A) × ((m s).0 ≡ ok a) × ((m >>= f) s ≡ f a (m s).1)
  >>=-reaches m f s e = reaches (m s).0 (m s).1 f e

-- ===== src/Policy/Examples.antt =====
-- A lawful extent engine, for the tests (crates/sandbox-policy/src/lib.rs).
use simple_sandbox_public.Prelude.{
  ℕ, ◌-◌, ◌≡◌, refl, ◌≢◌, Option, none, some, Text, text_eq, ◌==◌, if◌then◌else◌, ltb, arith, ◌≤◌,
  ◌&&◌,
}
use simple_sandbox_public.Result.{Result, ok, err}
use simple_sandbox_public.Text.{codes}
use simple_sandbox_public.Policy.Preflight.{Extents, IsLawful}

-- An engine that keeps what is left of every pool.
abbrev Free : Type 0
Free = Text → Text → Option ℕ

abbrev take_from : Free → Text → Text → ℕ → Option ℕ → Result Text Free
take_from e d p n none = err (codes "no such pool")
take_from e d p n (some c) =
    if ltb c n
    then err (codes "not enough")
    else ok (λ d' q. if d' == d && q == p then some (c - n) else e d' q)

abbrev pub extents : Extents
extents = record {
  Pool = Text × ℕ;
  Device = Text × (Text → Option ℕ);
  Engine = Free;
  new_pool = λ p n t. (p, n);
  new_device = λ d. (d, λ p. none);
  add_extent = λ v p. (v.0, λ q. if q == p.0 then some p.1 else v.1 q);
  new_engine = λ d p. none;
  add_device = λ e v. λ d p. if d == v.0 then v.1 p else e d p;
  allocate = λ e d p n. take_from e d p n (e d p);
  name = λ v. v.0;
  capacity = λ v p. v.1 p;
  free = λ e d p. e d p;
}

take_from_fits :
    (e : Free) (d p : Text) (n c : ℕ)
    → n ≤ c
    → (e' : Free) × (take_from e d p n (some c) ≡ ok e') × ((q : Text) → p ≢ q → e' d q ≡ e d q)
take_from_fits e d p n c h =
    (λ d' q. if d' == d && q == p then some (c - n) else e d' q, ground arith, λ q k. ground arith)

pub extents-IsLawful : IsLawful extents
extents-IsLawful = record {
  name-new_device = λ d. refl;
  name-add_extent = λ v p. refl;
  capacity_self = λ v p n t. ground arith;
  capacity_ne = λ v p q n t k. ground arith;
  free-add_device = λ e v p. ground arith;
  allocate_fits = λ e d p n c s h. rw s (take_from_fits e d p n c h);
  allocate_exceeds = λ e d p n c s h. (codes "not enough", rw s (ground arith));
}

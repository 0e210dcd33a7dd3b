-- ===== src/Store/Names.antt =====
-- The names of an index's records, and how the list functions of the store change them
-- (crates/sandbox-core/src/state.rs).
use simple_sandbox_public.Prelude.{
  ◌≡◌, refl, subst, ◌∙◌, inl, inr, true, false, ◌||◌, none, some, List, [], ◌∷◌, ◌++◌, Text,
  text_eq, option_eq, ◌==◌, arith, Bool-cases, Option-cases,
}
use simple_sandbox_public.Store.{SandboxRecord}
use simple_sandbox_public.Store.Index.{is_called, last, has_name, assign_hash, take_out}

-- No name stands twice.
abbrev pub Distinct : List SandboxRecord → Type 0
Distinct [] = Unit
Distinct (s ∷ rest) = (has_name s.name rest ≡ false) × Distinct rest

pub has_name-append :
    (name : Text) (l : List SandboxRecord) (r : SandboxRecord)
    → has_name name (l ++ r ∷ []) ≡ (has_name name l || r.name == name)
unfolding has_name
has_name-append name [] r = ground arith
has_name-append name (s ∷ l) r = ground (arith, has_name-append name l r)

pub Distinct-append :
    (l : List SandboxRecord) (r : SandboxRecord)
    → has_name r.name l ≡ false
    → Distinct l
    → Distinct (l ++ r ∷ [])
unfolding has_name
Distinct-append [] r h d = (refl, tt)
Distinct-append (s ∷ l) r h d =
    (ground (arith, has_name-append s.name l r), Distinct-append l r (ground arith) d.1)

pub has_name-assign_hash :
    (name hash other : Text) (l l' : List SandboxRecord)
    → assign_hash name hash l ≡ some l'
    → has_name other l' ≡ has_name other l
unfolding assign_hash has_name
has_name-assign_hash name hash other [] l' e = cc
has_name-assign_hash name hash other (s ∷ l) l' e = elim (Option-cases (assign_hash name hash l)) [
  | inl p ↦ ground arith
  | inr (t, p) ↦ ground (arith, has_name-assign_hash name hash other l t p)
]

pub has_name_assigned :
    (name hash : Text) (l l' : List SandboxRecord)
    → assign_hash name hash l ≡ some l'
    → has_name name l ≡ true
unfolding assign_hash has_name
has_name_assigned name hash [] l' e = cc
has_name_assigned name hash (s ∷ l) l' e = elim (Option-cases (assign_hash name hash l)) [
  | inl p ↦ ground arith
  | inr (t, p) ↦ ground (arith, has_name_assigned name hash l t p)
]

pub Distinct-assign_hash :
    (name hash : Text) (l l' : List SandboxRecord)
    → assign_hash name hash l ≡ some l'
    → Distinct l
    → Distinct l'
unfolding assign_hash
Distinct-assign_hash name hash [] l' e d = cc
Distinct-assign_hash name hash (s ∷ l) l' e d = elim (Bool-cases (s.name == name)) [
  | inl q ↦
      let same : record s { policy_hash = hash } ∷ l ≡ l' = ground arith in subst Distinct same d
  | inr q ↦ elim (Option-cases (assign_hash name hash l)) [
    | inl p ↦ absurd (ground arith)
    | inr (t, p) ↦
        let same : s ∷ t ≡ l' = ground arith in
        subst Distinct same (
          has_name-assign_hash name hash s.name l t p ∙ d.0,
          Distinct-assign_hash name hash l t p d.1,
        )
  ]
]

pub last-eq-none : (l : List SandboxRecord) → last l ≡ none → l ≡ []
unfolding last
last-eq-none [] e = refl
last-eq-none (s ∷ []) e = cc
last-eq-none (s ∷ t ∷ l) e = absurd (ground (arith, last-eq-none (t ∷ l) e))

pub has_name-last :
    (l : List SandboxRecord) (s : SandboxRecord) → last l ≡ some s → has_name s.name l ≡ true
unfolding last has_name
has_name-last [] s e = cc
has_name-last (t ∷ []) s e = ground arith
has_name-last (t ∷ u ∷ l) s e = ground (arith, has_name-last (u ∷ l) s e)

pub has_name-take_out :
    (name other : Text) (l l' : List SandboxRecord) (r : SandboxRecord)
    → take_out name l ≡ some (r, l')
    → has_name other l ≡ (r.name == other || has_name other l')
unfolding take_out has_name
has_name-take_out name other [] l' r e = cc
has_name-take_out name other (s ∷ l) l' r e = elim (Option-cases (take_out name l)) [
  | inl p ↦ ground arith
  | inr ((q, t), p) ↦ ground (arith, has_name-take_out name other l t q p)
]

pub stays_apart :
    (s r : SandboxRecord) (l t : List SandboxRecord)
    → has_name s.name l ≡ (r.name == s.name || has_name s.name t)
    → has_name s.name l ≡ false
    → has_name r.name t ≡ false
    → (has_name s.name t ≡ false) × (has_name r.name (s ∷ t) ≡ false)
unfolding has_name
stays_apart s r l t step apart gone = ground arith

pub Distinct-take_out :
    (name : Text) (l l' : List SandboxRecord) (r : SandboxRecord)
    → take_out name l ≡ some (r, l')
    → Distinct l
    → Distinct l' × (has_name r.name l' ≡ false)
unfolding take_out
Distinct-take_out name [] l' r e d = cc
Distinct-take_out name (s ∷ l) l' r e d = elim (Bool-cases (is_called name s)) [
  | inl q ↦
      let same : l ≡ l' = ground arith in
      let same' : s ≡ r = ground arith in (subst Distinct same d.1, rw (← same, ← same') d.0)
  | inr q ↦ elim (Option-cases (take_out name l)) [
    | inl p ↦ absurd (ground arith)
    | inr ((r', t), p) ↦
        let same : s ∷ t ≡ l' = ground arith in
        let same' : r' ≡ r = ground arith in
        let (dt, gone) = Distinct-take_out name l t r' p d.1 in
        let (apart, gone') =
          stays_apart s r' l t (has_name-take_out name s.name l t r' p) d.0 gone in
        (subst Distinct same (apart, dt), rw (← same, ← same') gone')
  ]
]

pub take_out-nil : (name : Text) → take_out name [] ≡ none
unfolding take_out
take_out-nil name = refl

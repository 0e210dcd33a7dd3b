-- ===== src/Store/Registry.antt =====
-- What the index promises (crates/sandbox-core/src/state.rs): a registry of records by their names,
-- which forgets the order of the list. The list's operations act on single names of it.
use simple_sandbox_public.Prelude.{
  ◌≡◌, refl, subst, true, false, Bool-cases, Option-cases, inl, inr, Option, none, some, List, [],
  ◌∷◌, ◌++◌, Text, text_eq, ◌==◌, if◌then◌else◌, arith,
}
use simple_sandbox_public.Store.{SandboxRecord, SandboxState}
use simple_sandbox_public.Store.Index.{is_called, has_name, assign_hash, take_out}
use simple_sandbox_public.Store.Names.{Distinct}

abbrev pub Registry : Type 0
Registry = Text → Option SandboxRecord

-- The record of a name.
unfoldable pub named : Text → List SandboxRecord → Option SandboxRecord
named name [] = none
named name (s ∷ l) = let rest = named name l in if s.name == name then some s else rest

abbrev pub registry : SandboxState → Registry
registry st name = named name st.sandboxes

-- One name is set, or taken out.
abbrev pub assign : Registry → Text → Option SandboxRecord → Registry
assign m k v name = if k == name then v else m name

pub named-has_name :
    (name : Text) (l : List SandboxRecord) {r : SandboxRecord}
    → named name l ≡ some r
    → (has_name name l ≡ true) × (r.name ≡ name)
unfolding named has_name
named-has_name name [] e = cc
named-has_name name (s ∷ l) {r} e = elim (Bool-cases (s.name == name)) [
  | inl q ↦ let same : s ≡ r = ground arith in rw (← same) (ground arith, ground arith)
  | inr q ↦ let (h, n) = named-has_name name l {r = r} (ground arith) in (ground arith, n)
]

pub named_missing :
    (name : Text) (l : List SandboxRecord) → has_name name l ≡ false → named name l ≡ none
unfolding named has_name
named_missing name [] e = refl
named_missing name (s ∷ l) e = ground (arith, named_missing name l)

pub named_there :
    (name : Text) (l : List SandboxRecord) → named name l ≡ none → has_name name l ≡ false
unfolding named has_name
named_there name [] e = refl
named_there name (s ∷ l) e = ground (arith, named_there name l)

pub named-append :
    (l : List SandboxRecord) (r : SandboxRecord) (name : Text)
    → has_name r.name l ≡ false
    → named name (l ++ r ∷ []) ≡ (if r.name == name then some r else named name l)
unfolding named has_name
named-append [] r name e = ground arith
named-append (s ∷ l) r name e = ground (arith, named-append l r name)

first_out :
    (s : SandboxRecord) (l : List SandboxRecord) (name : Text)
    → has_name s.name l ≡ false
    → named name l
      ≡ (if s.name == name then none else if s.name == name then some s else named name l)
first_out s l name d = ground (arith, named_missing s.name l d)

-- A record in front of the one that is taken out.
later_out :
    (s r : SandboxRecord) (l t : List SandboxRecord) (name : Text)
    → has_name s.name l ≡ false
    → has_name r.name l ≡ true
    → named name t ≡ (if r.name == name then none else named name l)
    → (if s.name == name then some s else named name t)
      ≡ (if r.name == name then none else if s.name == name then some s else named name l)
later_out s r l t name d h g = elim (Bool-cases (s.name == name)) [
  | inl q ↦ elim (Bool-cases (r.name == name)) [
    | inl q' ↦ absurd (ground arith)
    | inr q' ↦ ground arith
  ]
  | inr q ↦ ground arith
]

stays_named :
    (s r : SandboxRecord) (l : List SandboxRecord)
    → has_name s.name l ≡ false
    → named r.name l ≡ some r
    → named r.name (s ∷ l) ≡ some r
unfolding named
stays_named s r l d f = elim (Bool-cases (s.name == r.name)) [
  | inl q ↦ absurd (ground (arith, (named-has_name r.name l f).0))
  | inr q ↦ ground arith
]

pub named-take_out :
    (key : Text) (l l' : List SandboxRecord) (r : SandboxRecord) (name : Text)
    → take_out key l ≡ some (r, l')
    → Distinct l
    → (named name l' ≡ (if r.name == name then none else named name l))
      × (named r.name l ≡ some r)
      × (is_called key r ≡ true)
unfolding named take_out
named-take_out key [] l' r name e d = cc
named-take_out key (s ∷ l) l' r name e (d, ds) = elim (Bool-cases (is_called key s)) [
  | inl q ↦
      let same : l ≡ l' = ground arith in
      let same' : s ≡ r = ground arith in
      rw (← same, ← same') (first_out s l name d, ground arith, q)
  | inr q ↦ elim (Option-cases (take_out key l)) [
    | inl p ↦ absurd (ground arith)
    | inr ((r', t), p) ↦
        let same : s ∷ t ≡ l' = ground arith in
        let same' : r' ≡ r = ground arith in
        let (g, f, c) = named-take_out key l t r' name p ds in
        let (h, _) = named-has_name r'.name l f in
        subst
          (λ x.
            (named name l' ≡ (if x.name == name then none else named name (s ∷ l)))
            × (named x.name (s ∷ l) ≡ some x)
            × (is_called key x ≡ true))
          same' (rw (← same) (later_out s r' l t name d h g), stays_named s r' l d f, c)
  ]
]

pub named-assign_hash :
    (key hash : Text) (l l' : List SandboxRecord)
    → assign_hash key hash l ≡ some l'
    → (r : SandboxRecord) × (named key l ≡ some r)
      × ((name : Text)
          → named name l'
            ≡ (if key == name then some (record r { policy_hash = hash }) else named name l))
unfolding named assign_hash
named-assign_hash key hash [] l' e = cc
named-assign_hash key hash (s ∷ l) l' e = elim (Bool-cases (s.name == key)) [
  | inl q ↦
      let same : record s { policy_hash = hash } ∷ l ≡ l' = ground arith in
      (s, ground arith, λ name. rw (← same) (ground arith))
  | inr q ↦ elim (Option-cases (assign_hash key hash l)) [
    | inl p ↦ absurd (ground arith)
    | inr (t, p) ↦
        let (r, f, g) = named-assign_hash key hash l t p in
        let same : s ∷ t ≡ l' = ground arith in
        (r, ground arith, λ name. rw (← same) (ground (arith, g name)))
  ]
]

pub take_out_missing :
    (key : Text) (l : List SandboxRecord) (name : Text) (r : SandboxRecord)
    → take_out key l ≡ none
    → named name l ≡ some r
    → is_called key r ≡ false
unfolding named take_out
take_out_missing key [] name r e f = cc
take_out_missing key (s ∷ l) name r e f = elim (Bool-cases (s.name == name)) [
  | inl q ↦ let same : s ≡ r = ground arith in rw (← same) (ground arith)
  | inr q ↦ take_out_missing key l name r (ground arith) (ground arith)
]

pub assign_hash_missing :
    (key hash : Text) (l : List SandboxRecord) → assign_hash key hash l ≡ none → named key l ≡ none
unfolding named assign_hash
assign_hash_missing key hash [] e = refl
assign_hash_missing key hash (s ∷ l) e = ground (arith, assign_hash_missing key hash l)

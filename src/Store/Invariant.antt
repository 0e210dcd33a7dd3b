-- ===== src/Store/Invariant.antt =====
-- The invariant of the index, and that every index operation keeps it
-- (crates/sandbox-core/src/state.rs).
use simple_sandbox_public.Prelude.{
  ◌≡◌, refl, subst, ap, ◌∙◌, inl, inr, true, false, Option, none, some, List, [], ◌∷◌, ◌++◌, Text,
  text_eq, option_eq, ◌==◌, if◌then◌else◌, arith, Bool-cases, Option-cases,
}
use simple_sandbox_public.Result.{ok, err}
use simple_sandbox_public.Store.{
  SandboxRecord, SandboxState, state_default, already_exists, not_found,
}
use simple_sandbox_public.Text.{is_empty}
use simple_sandbox_public.Store.Index.{
  name_of, last, has_name, insert, assign_hash, set_hash, take_out, remove, touch,
}
use simple_sandbox_public.Store.Names.{
  Distinct, has_name-append, Distinct-append, has_name-assign_hash, has_name_assigned,
  Distinct-assign_hash, last-eq-none, has_name-last, has_name-take_out, Distinct-take_out,
  take_out-nil,
}

-- The last used name is a record's, and is missing only while there is no record.
abbrev pub IsUsed : Option Text → List SandboxRecord → Type 0
IsUsed none l = l ≡ []
IsUsed (some name) l = has_name name l ≡ true

pub record IsWellFormed (st : SandboxState) : Type 0 where
  pub distinct : Distinct st.sandboxes
  pub used : IsUsed st.last_used st.sandboxes

pub state_default-IsWellFormed : IsWellFormed state_default
state_default-IsWellFormed = record { distinct = tt; used = refl }

-- The record that `insert` stores, and the index with it.
abbrev pub stored : Text → SandboxRecord → SandboxRecord
stored fresh r = record r { id = if is_empty r.id then fresh else r.id }

abbrev pub added : Text → SandboxRecord → SandboxState → SandboxState
added fresh r st = record {
  last_used = some r.name;
  sandboxes = st.sandboxes ++ stored fresh r ∷ [];
}

pub insert_fresh :
    (fresh : Text) (r : SandboxRecord) (st : SandboxState)
    → has_name r.name st.sandboxes ≡ false
    → insert fresh r st ≡ ok (stored fresh r, added fresh r st)
unfolding insert
insert_fresh fresh r st p = rw p

pub insert_taken :
    (fresh : Text) (r : SandboxRecord) (st : SandboxState)
    → has_name r.name st.sandboxes ≡ true
    → insert fresh r st ≡ err (already_exists r.name)
unfolding insert
insert_taken fresh r st p = rw p

added-IsWellFormed :
    (fresh : Text) (r : SandboxRecord) (st : SandboxState)
    → has_name r.name st.sandboxes ≡ false
    → IsWellFormed st
    → IsWellFormed (added fresh r st)
added-IsWellFormed fresh r st p h = record {
  distinct = Distinct-append st.sandboxes (stored fresh r) p h.distinct;
  used = ground (arith, has_name-append r.name st.sandboxes (stored fresh r));
}

pub insert-IsWellFormed :
    (fresh : Text) (r : SandboxRecord) {r' : SandboxRecord} {st st' : SandboxState}
    → IsWellFormed st
    → insert fresh r st ≡ ok (r', st')
    → IsWellFormed st'
insert-IsWellFormed fresh r {r'} {st} {st'} h e = elim (Bool-cases (has_name r.name st.sandboxes)) [
  | inl p ↦ cc (insert_taken fresh r st p)
  | inr p ↦
      let same : added fresh r st ≡ st' = cc (insert_fresh fresh r st p) in
      subst IsWellFormed same (added-IsWellFormed fresh r st p h)
]

pub set_hash-IsWellFormed :
    (name hash : Text) {st st' : SandboxState}
    → IsWellFormed st
    → set_hash name hash st ≡ ok st'
    → IsWellFormed st'
unfolding set_hash
set_hash-IsWellFormed name hash {st} {st'} h e =
    elim (Option-cases (assign_hash name hash st.sandboxes)) [
      | inl p ↦ absurd (ground arith)
      | inr (l, p) ↦
          let same : ◌≡◌ {A = SandboxState} (record { last_used = some name; sandboxes = l }) st' =
            ground arith in
          subst IsWellFormed same (record {
            distinct = Distinct-assign_hash name hash st.sandboxes l p h.distinct;
            used =
                has_name-assign_hash name hash name st.sandboxes l p
                ∙ has_name_assigned name hash st.sandboxes l p;
          })
    ]

pub touch-IsWellFormed :
    (name : Text) {st : SandboxState}
    → IsWellFormed st
    → has_name name st.sandboxes ≡ true
    → IsWellFormed (touch name st)
unfolding touch
touch-IsWellFormed name h e = record { distinct = h.distinct; used = e }

-- The index that `remove` leaves.
abbrev pub left : SandboxRecord → List SandboxRecord → SandboxState → SandboxState
left r l st = record {
  last_used = if st.last_used == some r.name then name_of (last l) else st.last_used;
  sandboxes = l;
}

pub remove_found :
    (name : Text) (r : SandboxRecord) (l : List SandboxRecord) (st : SandboxState)
    → take_out name st.sandboxes ≡ some (r, l)
    → remove name st ≡ ok (r, left r l st)
unfolding remove
remove_found name r l st p = rw p

pub remove_missing :
    (name : Text) (st : SandboxState)
    → take_out name st.sandboxes ≡ none
    → remove name st ≡ err (not_found name)
unfolding remove
remove_missing name st p = rw p

IsUsed-newest : (l : List SandboxRecord) → IsUsed (name_of (last l)) l
IsUsed-newest l = elim (Option-cases (last l)) [
  | inl p ↦ rw p (last-eq-none l p)
  | inr (s, p) ↦ rw p (has_name-last l s p)
]

-- The last used name, after a removal that did not remove it.
IsUsed-kept :
    (name : Text) (r : SandboxRecord) (l l' : List SandboxRecord) (used : Option Text)
    → take_out name l ≡ some (r, l')
    → (used == some r.name) ≡ false
    → IsUsed used l
    → IsUsed used l'
IsUsed-kept name r l l' none p q u = cc (p, take_out-nil name, ap (take_out name) u)
IsUsed-kept name r l l' (some n) p q u =
    unfold option_eq in ground (arith, has_name-take_out name n l l' r p)

left-IsWellFormed :
    (name : Text) (r : SandboxRecord) (l : List SandboxRecord) (st : SandboxState)
    → take_out name st.sandboxes ≡ some (r, l)
    → IsWellFormed st
    → IsWellFormed (left r l st)
left-IsWellFormed name r l st p h = record {
  distinct = (Distinct-take_out name st.sandboxes l r p h.distinct).0;
  used = elim (Bool-cases (st.last_used == some r.name)) [
    | inl q ↦ rw q (IsUsed-newest l)
    | inr q ↦ rw q (IsUsed-kept name r st.sandboxes l st.last_used p q h.used)
  ];
}

pub remove-IsWellFormed :
    (name : Text) {r : SandboxRecord} {st st' : SandboxState}
    → IsWellFormed st
    → remove name st ≡ ok (r, st')
    → IsWellFormed st'
remove-IsWellFormed name {r} {st} {st'} h e = elim (Option-cases (take_out name st.sandboxes)) [
  | inl p ↦ cc (remove_missing name st p)
  | inr ((r', l), p) ↦
      let same : left r' l st ≡ st' = cc (remove_found name r' l st p) in
      subst IsWellFormed same (left-IsWellFormed name r' l st p h)
]

-- ===== src/Store/Lookup.antt =====
-- What the lookups of the store return after its other operations
-- (crates/sandbox-core/src/state.rs).
use simple_sandbox_public.Prelude.{
  ◌≡◌, refl, subst, ap, ◌∙◌, ◌⊎◌, inl, inr, Bool, true, false, ◌||◌, Option, none, some, List, [],
  ◌∷◌, ◌++◌, Text, text_eq, option_eq, ◌==◌, arith, Bool-cases, Option-cases,
}
use simple_sandbox_public.Result.{ok, err, ok_or}
use simple_sandbox_public.Store.{SandboxRecord, SandboxState, not_found}
use simple_sandbox_public.Store.Index.{
  is_called, find_called, last, has_name, insert, take_out, remove, get, get_or_last,
  last_or_newest, newest, no_sandboxes,
}
use simple_sandbox_public.Store.Names.{has_name-last}
use simple_sandbox_public.Store.Invariant.{
  IsWellFormed, stored, added, insert_fresh, insert_taken, left, remove_found, remove_missing,
}

-- Whether a record's identifier is the given text.
abbrev pub has_id : Text → List SandboxRecord → Bool
has_id t [] = false
has_id t (s ∷ rest) = s.id == t || has_id t rest

is_called_name : (s : SandboxRecord) → is_called s.name s ≡ true
unfolding is_called
is_called_name s = ground arith

-- A text that is no name and no identifier finds what is added behind.
find_called-append :
    (n : Text) (l : List SandboxRecord) (r : SandboxRecord)
    → has_name n l ≡ false
    → has_id n l ≡ false
    → find_called n (l ++ r ∷ []) ≡ find_called n (r ∷ [])
unfolding find_called has_name is_called
find_called-append n [] r h k = refl
find_called-append n (s ∷ l) r h k = ground (arith, find_called-append n l r)

find_called_self : (r : SandboxRecord) → find_called r.name (r ∷ []) ≡ some r
unfolding find_called
find_called_self r = ground (arith, is_called_name r)

find_stored :
    (fresh : Text) (r : SandboxRecord) (l : List SandboxRecord)
    → has_name r.name l ≡ false
    → has_id r.name l ≡ false
    → find_called r.name (l ++ stored fresh r ∷ []) ≡ some (stored fresh r)
find_stored fresh r l h k =
    find_called-append r.name l (stored fresh r) h k ∙ find_called_self (stored fresh r)

last_or_newest_found :
    (n : Text) (s : SandboxRecord) (st : SandboxState)
    → find_called n st.sandboxes ≡ some s
    → last_or_newest (some n) st ≡ ok s
unfolding last_or_newest
last_or_newest_found n s st e = rw (e, last_or_newest)

-- After a successful insertion the record, with its identifier filled in if it had none, is what
-- its name finds, and it is the default of the commands that are given no name; provided that no
-- older record has the name as its identifier.
pub get-insert :
    (fresh : Text) (r : SandboxRecord) {r' : SandboxRecord} (st : SandboxState) {st' : SandboxState}
    → insert fresh r st ≡ ok (r', st')
    → has_id r.name st.sandboxes ≡ false
    → (get r.name st' ≡ ok r') × (get_or_last none st' ≡ ok r')
unfolding get get_or_last
get-insert fresh r {r'} st {st'} e k = elim (Bool-cases (has_name r.name st.sandboxes)) [
  | inl p ↦ cc (insert_taken fresh r st p)
  | inr p ↦
      let same : added fresh r st ≡ st' = cc (insert_fresh fresh r st p) in
      let same' : stored fresh r ≡ r' = cc (insert_fresh fresh r st p) in
      let found = find_stored fresh r st.sandboxes p k in
      rw (← same, ← same') (rw found, last_or_newest_found r.name _ (added fresh r st) found)
]

find_called-take_out :
    (n : Text) (l l' : List SandboxRecord) (r : SandboxRecord)
    → take_out n l ≡ some (r, l')
    → find_called n l ≡ some r
unfolding take_out find_called
find_called-take_out n [] l' r e = cc
find_called-take_out n (s ∷ l) l' r e = elim (Option-cases (take_out n l)) [
  | inl p ↦ ground arith
  | inr ((q, t), p) ↦ ground (arith, find_called-take_out n l t q p)
]

-- A lookup that the removed record does not answer is as before.
find_called-take_out_ne :
    (n m : Text) (l l' : List SandboxRecord) (r : SandboxRecord)
    → take_out n l ≡ some (r, l')
    → is_called m r ≡ false
    → find_called m l' ≡ find_called m l
unfolding take_out find_called
find_called-take_out_ne n m [] l' r e h = cc
find_called-take_out_ne n m (s ∷ l) l' r e h = elim (Bool-cases (is_called n s)) [
  | inl c ↦
      let same : l ≡ l' = ground arith in
      let same' : s ≡ r = ground arith in rw (← same) (rw (ap (is_called m) same' ∙ h))
  | inr c ↦ elim (Option-cases (take_out n l)) [
    | inl p ↦ absurd (ground arith)
    | inr ((q, t), p) ↦
        let same : s ∷ t ≡ l' = ground arith in
        let same' : q ≡ r = ground arith in
        let rest = find_called-take_out_ne n m l t q p (ap (is_called m) same' ∙ h) in
        rw (← same) (rw rest)
  ]
]

-- A removal returns the record that the lookup finds, and the lookups that this record does not
-- answer, by its name or its identifier, are as before.
pub get-remove :
    (n m : Text) {r : SandboxRecord} (st : SandboxState) {st' : SandboxState}
    → remove n st ≡ ok (r, st')
    → (get n st ≡ ok r) × (is_called m r ≡ false → get m st' ≡ get m st)
unfolding get
get-remove n m {r} st {st'} e = elim (Option-cases (take_out n st.sandboxes)) [
  | inl p ↦ cc (remove_missing n st p)
  | inr ((r', l), p) ↦
      let same : left r' l st ≡ st' = cc (remove_found n r' l st p) in
      let same' : r' ≡ r = cc (remove_found n r' l st p) in
      (
        rw (find_called-take_out n st.sandboxes l r' p, same'),
        λ h. rw (← same) (
            ap (λ o. ok_or o (not_found m))
              (find_called-take_out_ne n m st.sandboxes l r' p (rw same' h))),
      )
]

find_called_of_name :
    (n : Text) (l : List SandboxRecord)
    → has_name n l ≡ true
    → (s : SandboxRecord) × (find_called n l ≡ some s) × (is_called n s ≡ true)
unfolding has_name find_called
find_called_of_name n [] h = cc
find_called_of_name n (s ∷ l) h = elim (Bool-cases (is_called n s)) [
  | inl p ↦ (s, rw p, p)
  | inr p ↦
      let (t, f, q) = find_called_of_name n l (unfold is_called in ground arith) in (t, rw (p) f, q)
]

-- In a well-formed index, the commands that are given no name act on a record that the last used
-- name calls, if there is a last used name; there is none only in the empty index, where they
-- report that nothing is found.
pub get_or_last-used :
    (st : SandboxState)
    → IsWellFormed st
    → ((n : Text) × (s : SandboxRecord) × (st.last_used ≡ some n)
        × (get_or_last none st ≡ ok s)
        × (is_called n s ≡ true))
      ⊎ ((st.sandboxes ≡ []) × (get_or_last none st ≡ err (not_found no_sandboxes)))
unfolding get_or_last last_or_newest newest
get_or_last-used st h = elim (Option-cases st.last_used) [
  | inl p ↦
      let empty : st.sandboxes ≡ [] = rw p at h.used in inr (empty, rw p (unfold last in rw empty))
  | inr (n, p) ↦
      let named : has_name n st.sandboxes ≡ true = rw p at h.used in
      let (s, found, called) = find_called_of_name n st.sandboxes named in
      inl (n, s, p, rw p (last_or_newest_found n s st found), called)
]

find_called-has_name :
    (n : Text) (l : List SandboxRecord) (s : SandboxRecord)
    → find_called n l ≡ some s
    → has_name s.name l ≡ true
unfolding find_called has_name
find_called-has_name n [] s e = cc
find_called-has_name n (t ∷ l) s e = ground (arith, find_called-has_name n l s)

newest-has_name :
    (st : SandboxState) (s : SandboxRecord) → newest st ≡ ok s → has_name s.name st.sandboxes ≡ true
unfolding newest
newest-has_name st s e = elim (Option-cases (last st.sandboxes)) [
  | inl p ↦ absurd (ground arith)
  | inr (t, p) ↦
      let same : t ≡ s = ground arith in
      subst (λ x. has_name x.name st.sandboxes ≡ true) same (has_name-last st.sandboxes t p)
]

get-has_name :
    (n : Text) (st : SandboxState) (s : SandboxRecord)
    → get n st ≡ ok s
    → has_name s.name st.sandboxes ≡ true
unfolding get
get-has_name n st s e = elim (Option-cases (find_called n st.sandboxes)) [
  | inl p ↦ absurd (ground arith)
  | inr (t, p) ↦
      let same : t ≡ s = ground arith in
      subst (λ x. has_name x.name st.sandboxes ≡ true) same
        (find_called-has_name n st.sandboxes t p)
]

last_or_newest-has_name :
    (used : Option Text) (st : SandboxState) (s : SandboxRecord)
    → last_or_newest used st ≡ ok s
    → has_name s.name st.sandboxes ≡ true
last_or_newest-has_name none st s e = newest-has_name st s (unfold last_or_newest in e)
last_or_newest-has_name (some l) st s e = elim (Option-cases (find_called l st.sandboxes)) [
  | inl p ↦ newest-has_name st s (unfold last_or_newest in ground arith)
  | inr (t, p) ↦
      let same : t ≡ s = cc (last_or_newest_found l t st p) in
      subst (λ x. has_name x.name st.sandboxes ≡ true) same
        (find_called-has_name l st.sandboxes t p)
]

-- What a lookup returns is in the index under its name.
pub get_or_last-has_name :
    (name : Option Text) (st : SandboxState) (s : SandboxRecord)
    → get_or_last name st ≡ ok s
    → has_name s.name st.sandboxes ≡ true
unfolding get_or_last
get_or_last-has_name none st s e = last_or_newest-has_name st.last_used st s e
get_or_last-has_name (some n) st s e = get-has_name n st s e

-- ===== src/Store/Owned.antt =====
-- A property of the records' backends and runtime identifiers that the index operations keep
-- (crates/sandbox-core/src/state.rs): no operation on a stored record changes the two.
use simple_sandbox_public.Prelude.{
  ◌≡◌, subst, inl, inr, Option, none, some, List, [], ◌∷◌, Text, text_eq, ◌==◌, arith, All,
  All-append, Bool-cases, Option-cases,
}
use simple_sandbox_public.Result.{ok}
use simple_sandbox_public.Policy.{MechanismKind}
use simple_sandbox_public.Store.{SandboxRecord, SandboxState}
use simple_sandbox_public.Store.Index.{
  is_called, find_called, last, has_name, newest, last_or_newest, get, get_or_last, insert,
  assign_hash, set_hash, take_out, remove,
}
use simple_sandbox_public.Store.Invariant.{
  stored, added, insert_fresh, insert_taken, left, remove_found, remove_missing,
}

module _ (G : MechanismKind → Text → Type 0) where
  abbrev pub IsOwned : SandboxRecord → Type 0
  IsOwned r = G r.mechanism r.runtime_id

  -- Every record is owned.
  abbrev pub AllOwned : SandboxState → Type 0
  AllOwned st = All IsOwned st.sandboxes

  found-IsOwned :
      (name : Text) (l : List SandboxRecord) (r : SandboxRecord)
      → find_called name l ≡ some r
      → All IsOwned l
      → IsOwned r
  unfolding find_called
  found-IsOwned name [] r e h = cc
  found-IsOwned name (s ∷ l) r e (h, hs) = elim (Bool-cases (is_called name s)) [
    | inl q ↦ let same : s ≡ r = ground arith in subst IsOwned same h
    | inr q ↦ found-IsOwned name l r (ground arith) hs
  ]

  last-IsOwned :
      (l : List SandboxRecord) (r : SandboxRecord) → last l ≡ some r → All IsOwned l → IsOwned r
  unfolding last
  last-IsOwned [] r e h = cc
  last-IsOwned (s ∷ []) r e (h, hs) = let same : s ≡ r = cc e in subst IsOwned same h
  last-IsOwned (s ∷ t ∷ l) r e (h, hs) = last-IsOwned (t ∷ l) r e hs

  get-IsOwned :
      (name : Text) (st : SandboxState) (r : SandboxRecord)
      → get name st ≡ ok r
      → AllOwned st
      → IsOwned r
  unfolding get
  get-IsOwned name st r e h = elim (Option-cases (find_called name st.sandboxes)) [
    | inl p ↦ absurd (ground arith)
    | inr (s, p) ↦ found-IsOwned name st.sandboxes r (ground arith) h
  ]

  newest-IsOwned :
      (st : SandboxState) (r : SandboxRecord) → newest st ≡ ok r → AllOwned st → IsOwned r
  unfolding newest
  newest-IsOwned st r e h = elim (Option-cases (last st.sandboxes)) [
    | inl p ↦ absurd (ground arith)
    | inr (s, p) ↦ last-IsOwned st.sandboxes r (ground arith) h
  ]

  last_or_newest-IsOwned :
      (used : Option Text) (st : SandboxState) (r : SandboxRecord)
      → last_or_newest used st ≡ ok r
      → AllOwned st
      → IsOwned r
  unfolding last_or_newest
  last_or_newest-IsOwned none st r e h = newest-IsOwned st r e h
  last_or_newest-IsOwned (some n) st r e h = elim (Option-cases (find_called n st.sandboxes)) [
    | inl p ↦ newest-IsOwned st r (ground arith) h
    | inr (s, p) ↦ found-IsOwned n st.sandboxes r (ground arith) h
  ]

  pub get_or_last-IsOwned :
      (name : Option Text) (st : SandboxState) (r : SandboxRecord)
      → get_or_last name st ≡ ok r
      → AllOwned st
      → IsOwned r
  unfolding get_or_last
  get_or_last-IsOwned none st r e h = last_or_newest-IsOwned st.last_used st r e h
  get_or_last-IsOwned (some n) st r e h = get-IsOwned n st r e h

  pub insert-AllOwned :
      (fresh : Text) (r : SandboxRecord) (st : SandboxState) {r' : SandboxRecord}
      {st' : SandboxState}
      → IsOwned r
      → AllOwned st
      → insert fresh r st ≡ ok (r', st')
      → AllOwned st'
  insert-AllOwned fresh r st {r'} {st'} o h e = elim (Bool-cases (has_name r.name st.sandboxes)) [
    | inl p ↦ cc (insert_taken fresh r st p)
    | inr p ↦
        let same : added fresh r st ≡ st' = cc (insert_fresh fresh r st p) in
        subst AllOwned same (All-append IsOwned st.sandboxes (stored fresh r ∷ []) h (o, tt))
  ]

  assign_hash-AllOwned :
      (name hash : Text) (l : List SandboxRecord) {l' : List SandboxRecord}
      → assign_hash name hash l ≡ some l'
      → All IsOwned l
      → All IsOwned l'
  unfolding assign_hash
  assign_hash-AllOwned name hash [] e h = cc
  assign_hash-AllOwned name hash (s ∷ l) {l'} e (h, hs) = elim (Bool-cases (s.name == name)) [
    | inl q ↦
        let same : record s { policy_hash = hash } ∷ l ≡ l' = ground arith in
        subst (All IsOwned) same (h, hs)
    | inr q ↦ elim (Option-cases (assign_hash name hash l)) [
      | inl p ↦ absurd (ground arith)
      | inr (t, p) ↦
          let same : s ∷ t ≡ l' = ground arith in
          subst (All IsOwned) same (h, assign_hash-AllOwned name hash l p hs)
    ]
  ]

  pub set_hash-AllOwned :
      (name hash : Text) (st : SandboxState) {st' : SandboxState}
      → AllOwned st
      → set_hash name hash st ≡ ok st'
      → AllOwned st'
  unfolding set_hash
  set_hash-AllOwned name hash st {st'} h e =
      elim (Option-cases (assign_hash name hash st.sandboxes)) [
        | inl p ↦ absurd (ground arith)
        | inr (l, p) ↦
            let same : ◌≡◌ {A = SandboxState} (record { last_used = some name; sandboxes = l })
                st' =
              ground arith in
            subst AllOwned same (assign_hash-AllOwned name hash st.sandboxes p h)
      ]

  take_out-AllOwned :
      (name : Text) (l : List SandboxRecord) {r : SandboxRecord} {l' : List SandboxRecord}
      → take_out name l ≡ some (r, l')
      → All IsOwned l
      → IsOwned r × All IsOwned l'
  unfolding take_out
  take_out-AllOwned name [] e h = cc
  take_out-AllOwned name (s ∷ l) {r} {l'} e (h, hs) = elim (Bool-cases (is_called name s)) [
    | inl q ↦
        let same : l ≡ l' = ground arith in
        let same' : s ≡ r = ground arith in (subst IsOwned same' h, subst (All IsOwned) same hs)
    | inr q ↦ elim (Option-cases (take_out name l)) [
      | inl p ↦ absurd (ground arith)
      | inr ((r', t), p) ↦
          let same : s ∷ t ≡ l' = ground arith in
          let same' : r' ≡ r = ground arith in
          let (o, os) = take_out-AllOwned name l p hs in
          (subst IsOwned same' o, subst (All IsOwned) same (h, os))
    ]
  ]

  pub remove-AllOwned :
      (name : Text) (st : SandboxState) {r : SandboxRecord} {st' : SandboxState}
      → AllOwned st
      → remove name st ≡ ok (r, st')
      → IsOwned r × AllOwned st'
  remove-AllOwned name st {r} {st'} h e = elim (Option-cases (take_out name st.sandboxes)) [
    | inl p ↦ cc (remove_missing name st p)
    | inr ((r', l), p) ↦
        let same : left r' l st ≡ st' = cc (remove_found name r' l st p) in
        let same' : r' ≡ r = cc (remove_found name r' l st p) in
        let (o, os) = take_out-AllOwned name st.sandboxes p h in
        (subst IsOwned same' o, subst AllOwned same os)
  ]

-- Where nothing is asked of the records.
pub AllOwned-any : (l : List SandboxRecord) → All (IsOwned (λ _ _. Unit)) l
AllOwned-any [] = tt
AllOwned-any (s ∷ l) = (tt, AllOwned-any l)

-- ===== src/Store/Refinement.antt =====
-- The index refines the registry (crates/sandbox-core/src/state.rs).
use simple_sandbox_public.Prelude.{
  ◌≡◌, refl, subst, true, Bool-cases, Option-cases, inl, inr, none, some, Text, text_eq, arith,
}
use simple_sandbox_public.Result.{Result, ok, err, ◌>>=◌}
use simple_sandbox_public.Store.{StateError, SandboxRecord, SandboxState}
use simple_sandbox_public.Store.Index
use simple_sandbox_public.Store.Index.{is_called, has_name, assign_hash, take_out}
use simple_sandbox_public.Store.Invariant.{
  IsWellFormed, stored, added, insert_fresh, insert_taken, left, remove_found, remove_missing,
}
use simple_sandbox_public.Store.Registry.{
  Registry, registry, assign, named_missing, named_there, named-append, named-take_out,
  named-assign_hash, take_out_missing, assign_hash_missing,
}

-- The operations on an index.
pub data Operation : Type 0 where
  inserting : Text → SandboxRecord → Operation
  removing : Text → Operation
  hashing : Text → Text → Operation
  touching : Text → Operation

abbrev second : SandboxRecord × SandboxState → Result StateError SandboxState
second (r, st) = ok st

unfoldable pub perform : Operation → SandboxState → Result StateError SandboxState
perform (inserting fresh r) st = Index.insert fresh r st >>= second
perform (removing key) st = Index.remove key st >>= second
perform (hashing name hash) st = Index.set_hash name hash st
perform (touching name) st = ok (Index.touch name st)

-- What an operation promises, from the registry before it to the one behind it.
abbrev pub Promises : Operation → Registry → Registry → Type 0
Promises (inserting fresh r) m m' =
    (m r.name ≡ none) × ((n : Text) → m' n ≡ assign m r.name (some (stored fresh r)) n)
Promises (removing key) m m' =
    (r : SandboxRecord) × (m r.name ≡ some r)
    × (is_called key r ≡ true)
    × ((n : Text) → m' n ≡ assign m r.name none n)
Promises (hashing name hash) m m' =
    (r : SandboxRecord) × (m name ≡ some r)
    × ((n : Text) → m' n ≡ assign m name (some (record r { policy_hash = hash })) n)
Promises (touching name) m m' = (n : Text) → m' n ≡ m n

insert_refines :
    (fresh : Text) (r : SandboxRecord) (st st' : SandboxState)
    → perform (inserting fresh r) st ≡ ok st'
    → Promises (inserting fresh r) (registry st) (registry st')
unfolding perform
insert_refines fresh r st st' e = elim (Bool-cases (has_name r.name st.sandboxes)) [
  | inl p ↦ cc (insert_taken fresh r st p)
  | inr p ↦
      let same : added fresh r st ≡ st' = cc (insert_fresh fresh r st p) in
      subst (λ x. Promises (inserting fresh r) (registry st) (registry x)) same
        (named_missing r.name st.sandboxes p, λ n. named-append st.sandboxes (stored fresh r) n p)
]

remove_refines :
    (key : Text) (st st' : SandboxState)
    → IsWellFormed st
    → perform (removing key) st ≡ ok st'
    → Promises (removing key) (registry st) (registry st')
unfolding perform
remove_refines key st st' h e = elim (Option-cases (take_out key st.sandboxes)) [
  | inl p ↦ cc (remove_missing key st p)
  | inr ((r, l), p) ↦
      let same : left r l st ≡ st' = cc (remove_found key r l st p) in
      let (_, there, called) = named-take_out key st.sandboxes l r r.name p h.distinct in
      subst (λ x. Promises (removing key) (registry st) (registry x)) same
        (r, there, called, λ n. (named-take_out key st.sandboxes l r n p h.distinct).0)
]

hash_refines :
    (name hash : Text) (st st' : SandboxState)
    → perform (hashing name hash) st ≡ ok st'
    → Promises (hashing name hash) (registry st) (registry st')
unfolding perform Index.set_hash
hash_refines name hash st st' e = elim (Option-cases (assign_hash name hash st.sandboxes)) [
  | inl p ↦ absurd (ground arith)
  | inr (l, p) ↦
      let same : ◌≡◌ {A = SandboxState} (record { last_used = some name; sandboxes = l }) st' =
        ground arith in
      subst (λ x. Promises (hashing name hash) (registry st) (registry x)) same
        (named-assign_hash name hash st.sandboxes l p)
]

touch_refines :
    (name : Text) (st st' : SandboxState)
    → perform (touching name) st ≡ ok st'
    → Promises (touching name) (registry st) (registry st')
unfolding perform Index.touch
touch_refines name st st' e =
    let same : record st { last_used = some name } ≡ st' = cc e in
    subst (λ x. Promises (touching name) (registry st) (registry x)) same (λ n. refl)

insert_refused :
    (fresh : Text) (r : SandboxRecord) (st : SandboxState) {e : StateError}
    → perform (inserting fresh r) st ≡ err e
    → has_name r.name st.sandboxes ≡ true
unfolding perform
insert_refused fresh r st e = elim (Bool-cases (has_name r.name st.sandboxes)) [
  | inl p ↦ p
  | inr p ↦ cc (insert_fresh fresh r st p)
]

remove_refused :
    (key : Text) (st : SandboxState) {e : StateError}
    → perform (removing key) st ≡ err e
    → take_out key st.sandboxes ≡ none
unfolding perform
remove_refused key st e = elim (Option-cases (take_out key st.sandboxes)) [
  | inl p ↦ p
  | inr ((r, l), p) ↦ cc (remove_found key r l st p)
]

hash_refused :
    (name hash : Text) (st : SandboxState) {e : StateError}
    → perform (hashing name hash) st ≡ err e
    → assign_hash name hash st.sandboxes ≡ none
unfolding perform Index.set_hash
hash_refused name hash st e = elim (Option-cases (assign_hash name hash st.sandboxes)) [
  | inl p ↦ p
  | inr (l, p) ↦ absurd (ground arith)
]

-- An operation that is refused could not have been carried out on the registry.
refused :
    (op : Operation) (st : SandboxState) (m : Registry) {e : StateError}
    → perform op st ≡ err e
    → Promises op (registry st) m
    → ⊥
refused (inserting fresh r) st m e (free, h) =
    let gone = named_there r.name st.sandboxes free in
    let taken = insert_refused fresh r st e in ground arith
refused (removing key) st m e (r, there, called, h) =
    let other = take_out_missing key st.sandboxes r.name r (remove_refused key st e) there in
    ground arith
refused (hashing name hash) st m e (r, there, h) =
    let gone = assign_hash_missing name hash st.sandboxes (hash_refused name hash st e) in
    ground arith
refused (touching name) st m e h = unfold perform in cc e

carried_out :
    (op : Operation) (st st' : SandboxState)
    → IsWellFormed st
    → perform op st ≡ ok st'
    → Promises op (registry st) (registry st')
carried_out (inserting fresh r) st st' h e = insert_refines fresh r st st' e
carried_out (removing key) st st' h e = remove_refines key st st' h e
carried_out (hashing name hash) st st' h e = hash_refines name hash st st' e
carried_out (touching name) st st' h e = touch_refines name st st' e

-- On a well-formed index every operation does to the registry of names what it promises: an insertion
-- sets a free name, a removal frees the name of a record that the key calls, an update changes the
-- hash of one name, and a use changes no name. It is refused only where no registry could keep the
-- promise: the name is taken, nothing is called so, or nothing has the name.
pub perform_refines :
    (op : Operation) (st : SandboxState)
    → IsWellFormed st
    → ((st' : SandboxState) → perform op st ≡ ok st' → Promises op (registry st) (registry st'))
      × ((e : StateError)
          → perform op st ≡ err e
          → (m : Registry) → Promises op (registry st) m
          → ⊥)
perform_refines op st h = (λ st' e. carried_out op st st' h e, λ e p m. refused op st m p)

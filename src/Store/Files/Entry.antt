-- ===== src/Store/Files/Entry.antt =====
-- A sandbox that was just inserted is the one that is used next
-- (crates/sandbox-core/src/state.rs).
use mathlib.Core.Path.{fun_ext}
use simple_sandbox_public.Prelude.{
  ◌≡◌, refl, sym, subst, ap, ◌∙◌, inl, inr, true, false, Bool-cases, Option, none, some, Text,
  text_eq, arith,
}
use simple_sandbox_public.Result.{ok, err, map_err, Result-cases}
use simple_sandbox_public.Exec.Keeps.{
  Keeps, Gives-any, Keeps-pure, Keeps-lift, Keeps-bind, Keeps-map_error,
}
use simple_sandbox_public.Disk.{Disk, update, write, write-files_ne}
use simple_sandbox_public.Policy.{SandboxPolicy}
use simple_sandbox_public.Codec.{Codec, IsLawful, to_yaml}
use simple_sandbox_public.Store.{StateError, io, SandboxRecord, SandboxState}
use simple_sandbox_public.Store.Index
use simple_sandbox_public.Store.Index.{has_name}
use simple_sandbox_public.Store.Invariant.{stored, added, insert_fresh, insert_taken}
use simple_sandbox_public.Store.Lookup.{has_id, get-insert}
use simple_sandbox_public.Store.Files.{
  policy_path, policy_io, save_policy, index_path, save_index, insert, get_or_last, touch_last_used,
  use_sandbox,
}
use simple_sandbox_public.Store.Files.Laws.{
  Holds, index_path-ne-policy_path, load_index_of_Holds, save_index_cases,
}

update_twice :
    {Doc : Type 0} (f : Text → Option Doc) (p : Text) (v : Option Doc)
    → update (update f p v) p v ≡ update f p v
update_twice f p v = fun_ext λ q. ground arith

-- What a command may be given to mean a sandbox that was just created.
abbrev pub Means : Text → Option Text → Type 0
Means name none = Unit
Means name (some given) = given ≡ name

touch-added :
    (fresh : Text) (r : SandboxRecord) (st : SandboxState)
    → Index.touch r.name (added fresh r st) ≡ added fresh r st
unfolding Index.touch
touch-added fresh r st = refl

module _ (C : Codec) (root : Text) where
  pub save_index_writes :
      (st : SandboxState) (t : C.Doc) (d : Disk C.Doc)
      → C.to_json st ≡ ok t
      → d.writable (index_path root) ≡ true
      → save_index C root st d
        ≡ (ok tt, record d { files = update d.files (index_path root) (some t) })
  unfolding save_index write
  save_index_writes st t d p w = ground arith

  pub save_index_written :
      (st : SandboxState) (d : Disk C.Doc)
      → (save_index C root st d).0 ≡ ok tt
      → (t : C.Doc) × (C.to_json st ≡ ok t) × (d.writable (index_path root) ≡ true)
  unfolding save_index write
  save_index_written st d e = elim (Result-cases (C.to_json st)) [
    | inr (m, p) ↦ absurd (ground arith)
    | inl (t, p) ↦ elim (Bool-cases (d.writable (index_path root))) [
      | inl w ↦ (t, p, w)
      | inr w ↦ absurd (ground arith)
    ]
  ]

  -- Where the policies are saved, the index stays.
  pub save_policy-index :
      (name : Text) (p : SandboxPolicy) (start : Option C.Doc)
      → Keeps (λ d. d.files (index_path root) ≡ start) (λ _. Unit) (save_policy C root name p)
  unfolding save_policy
  save_policy-index name p start =
      Keeps-bind {Q = λ _. Unit} _ _ (Keeps-lift (map_err policy_io (to_yaml C p)) (λ t e. tt))
        λ t _.
          Keeps-bind {Q = λ _. Unit} _ _
            (Keeps-map_error io _ (record {
              at = λ d h. (
                write-files_ne (policy_path root name) (index_path root) t d
                      (index_path-ne-policy_path root name)
                    ∙ h,
                Gives-any _,
              );
            }))
            λ _ _. Keeps-pure (policy_path root name) tt

  -- To save an index again changes nothing.
  save_index_twice :
      (st : SandboxState) (d : Disk C.Doc)
      → (save_index C root st d).0 ≡ ok tt
      → save_index C root st (save_index C root st d).1 ≡ (ok tt, (save_index C root st d).1)
  save_index_twice st d e =
      let (t, p, w) = save_index_written st d e in
      let first = save_index_writes st t d p w in
      let d' = record d { files = update d.files (index_path root) (some t) } in
      rw first (
        save_index_writes st t d' p w
        ∙ ap (λ f. (ok tt, record d { files = f }))
            (update_twice d.files (index_path root) (some t)))

module _ (C : Codec) (root : Text) (fresh : Text) (r : SandboxRecord) (st : SandboxState)
    (d : Disk C.Doc) (held : Holds C root st d) where
  pub insert_refused :
      (e : StateError) → Index.insert fresh r st ≡ err e → insert C root fresh r d ≡ (err e, d)
  unfolding insert
  insert_refused e p = rw (load_index_of_Holds C root st d held, p)

  insert_saved :
      (r' : SandboxRecord) (st' : SandboxState)
      → Index.insert fresh r st ≡ ok (r', st')
      → (save_index C root st' d).0 ≡ ok tt
      → insert C root fresh r d ≡ (ok r', (save_index C root st' d).1)
  unfolding insert
  insert_saved r' st' p q = rw (load_index_of_Holds C root st d held, p, q)

  insert_unsaved :
      (r' : SandboxRecord) (st' : SandboxState) (e : StateError)
      → Index.insert fresh r st ≡ ok (r', st')
      → save_index C root st' d ≡ (err e, d)
      → insert C root fresh r d ≡ (err e, d)
  unfolding insert
  insert_unsaved r' st' e p q = rw (load_index_of_Holds C root st d held, p, q)

  module _ (L : IsLawful C) {r' : SandboxRecord}
      (inserted : (insert C root fresh r d).0 ≡ ok r') where
    abbrev behind : Disk C.Doc
    behind = (insert C root fresh r d).1

    -- The index behind an insertion, which is on the disk and needs no more change to be used.
    pub insert_stores :
        (st' : SandboxState) × (Index.insert fresh r st ≡ ok (r', st'))
        × Holds C root st' behind
        × (save_index C root st' behind ≡ (ok tt, behind))
    insert_stores = elim (Result-cases (Index.insert fresh r st)) [
      | inr (e, p) ↦ cc (insert_refused e p, inserted)
      | inl ((r0, st'), p) ↦ elim (save_index_cases C L root st' d) [
        | inr (e, q) ↦ cc (insert_unsaved r0 st' e p q, inserted)
        | inl (q, holds) ↦
            let done = insert_saved r0 st' p q in
            let same : r0 ≡ r' = cc (done, inserted) in
            let at : behind ≡ (save_index C root st' d).1 = ap (λ x. x.1) done in
            (
              st',
              cc (p, same),
              subst (Holds C root st') (sym at) holds,
              subst (λ x. save_index C root st' x ≡ (ok tt, x)) (sym at)
                  (save_index_twice C root st' d q),
            )
      ]
    ]

    -- What is inserted gets an identifier, and is else as it was given.
    pub insert-stored : stored fresh r ≡ r'
    insert-stored = elim (Bool-cases (has_name r.name st.sandboxes)) [
      | inl p ↦ let (st', e, _, _) = insert_stores in cc (insert_taken fresh r st p, e)
      | inr p ↦ let (st', e, _, _) = insert_stores in cc (insert_fresh fresh r st p, e)
    ]

    touch_stored :
        (st' : SandboxState)
        → Index.insert fresh r st ≡ ok (r', st')
        → Index.touch r'.name st' ≡ st'
    touch_stored st' e = elim (Bool-cases (has_name r.name st.sandboxes)) [
      | inl p ↦ cc (insert_taken fresh r st p, e)
      | inr p ↦
          let same : added fresh r st ≡ st' = cc (insert_fresh fresh r st p, e) in
          let same' : stored fresh r ≡ r' = cc (insert_fresh fresh r st p, e) in
          rw (← same, ← same') (touch-added fresh r st)
    ]

    found :
        (given : Option Text) (st' : SandboxState)
        → Means r.name given
        → has_id r.name st.sandboxes ≡ false
        → Index.insert fresh r st ≡ ok (r', st')
        → Index.get_or_last given st' ≡ ok r'
    found none st' m k e = (get-insert fresh r st e k).1
    found (some n) st' m k e = unfold Index.get_or_last in rw m ((get-insert fresh r st e k).0)

    -- To use the new sandbox, by its name or as the last one, finds its record and changes nothing.
    pub use_sandbox-insert :
        (given : Option Text)
        → Means r.name given
        → has_id r.name st.sandboxes ≡ false
        → use_sandbox C root given behind ≡ (ok r', behind)
    unfolding use_sandbox get_or_last touch_last_used
    use_sandbox-insert given m k =
        let (st', e, holds, again) = insert_stores in
        let loaded = load_index_of_Holds C root st' behind holds in
        rw (loaded, found given st' m k e, loaded, touch_stored st' e, again) refl

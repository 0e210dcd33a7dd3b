-- ===== src/Store/Files/Withdrawal.antt =====
-- A sandbox that was just inserted and is removed again (crates/sandbox-core/src/state.rs).
use simple_sandbox_public.Prelude.{
  ◌≡◌, refl, subst, sym, ap, ◌∙◌, inl, inr, true, false, Bool-cases, some, List, [], ◌∷◌, ◌++◌,
  Text, text_eq, option_eq, arith,
}
use simple_sandbox_public.Result.{ok}
use simple_sandbox_public.Disk.{Disk, remove_file-files_ne}
use simple_sandbox_public.Codec.{Codec, IsLawful}
use simple_sandbox_public.Store.{SandboxRecord, SandboxState}
use simple_sandbox_public.Store.Index
use simple_sandbox_public.Store.Index.{is_called, has_name, last, name_of, take_out}
use simple_sandbox_public.Store.Invariant.{
  stored, added, insert_fresh, insert_taken, left, remove_found,
}
use simple_sandbox_public.Store.Lookup.{has_id}
use simple_sandbox_public.Store.Files.{
  policy_path, index_path, save_index, insert, remove, forget_policy,
}
use simple_sandbox_public.Store.Files.Laws.{
  Holds, index_path-ne-policy_path, load_index_of_Holds, save_index_cases,
}
use simple_sandbox_public.Store.Files.Entry.{save_index_written, save_index_writes, insert_stores}

-- The index behind an insertion and the removal of the same sandbox.
abbrev pub restored : SandboxState → SandboxState
restored st = record { last_used = name_of (last st.sandboxes); sandboxes = st.sandboxes }

-- A record that is called so behind others that are not.
take_out-append :
    (n : Text) (l : List SandboxRecord) (r : SandboxRecord)
    → has_name n l ≡ false
    → has_id n l ≡ false
    → is_called n r ≡ true
    → take_out n (l ++ r ∷ []) ≡ some (r, l)
unfolding take_out has_name is_called
take_out-append n [] r h k c = ground arith
take_out-append n (s ∷ l) r h k c = ground (arith, take_out-append n l r)

left-last :
    (r : SandboxRecord) (l l' : List SandboxRecord)
    → left r l (record { last_used = some r.name; sandboxes = l' })
      ≡ record { last_used = name_of (last l); sandboxes = l }
unfolding option_eq
left-last r l l' = ground arith

remove-insert :
    (fresh : Text) (r : SandboxRecord) (st : SandboxState) {r' : SandboxRecord} {st' : SandboxState}
    → Index.insert fresh r st ≡ ok (r', st')
    → has_id r.name st.sandboxes ≡ false
    → Index.remove r.name st' ≡ ok (r', restored st)
remove-insert fresh r st {r'} {st'} e k = elim (Bool-cases (has_name r.name st.sandboxes)) [
  | inl p ↦ cc (insert_taken fresh r st p, e)
  | inr p ↦
      let same : added fresh r st ≡ st' = cc (insert_fresh fresh r st p, e) in
      let same' : stored fresh r ≡ r' = cc (insert_fresh fresh r st p, e) in
      let out =
        take_out-append r.name st.sandboxes (stored fresh r) p k
          (unfold is_called in ground arith) in
      rw (← same, ← same')
        (remove_found r.name (stored fresh r) st.sandboxes (added fresh r st) out
          ∙ ap (λ x. ok (stored fresh r, x))
              (left-last (stored fresh r) st.sandboxes (st.sandboxes ++ stored fresh r ∷ [])))
]

module _ (C : Codec) (L : IsLawful C) (root : Text) where
  save_index_succeeds :
      (st : SandboxState) (t : C.Doc) (d : Disk C.Doc)
      → C.to_json st ≡ ok t
      → d.writable (index_path root) ≡ true
      → ((save_index C root st d).0 ≡ ok tt) × Holds C root st (save_index C root st d).1
  save_index_succeeds st t d e w = elim (save_index_cases C L root st d) [
    | inl saved ↦ saved
    | inr (x, fails) ↦ cc (save_index_writes C root st t d e w, fails)
  ]

  forget_policy-Holds :
      (st : SandboxState) (name : Text) (d : Disk C.Doc)
      → Holds C root st d
      → Holds C root st (forget_policy C root name d).1
  unfolding forget_policy
  forget_policy-Holds st name d h = record {
    text = h.text;
    there =
        remove_file-files_ne (policy_path root name) (index_path root) d
          (index_path-ne-policy_path root name)
        ∙ h.there;
    reads = h.reads;
  }

  remove_steps :
      (name : Text) (r : SandboxRecord) (st st' : SandboxState) (d : Disk C.Doc)
      → Holds C root st d
      → Index.remove name st ≡ ok (r, st')
      → (save_index C root st' d).0 ≡ ok tt
      → remove C root name d ≡ (ok r, (forget_policy C root r.name (save_index C root st' d).1).1)
  unfolding remove forget_policy
  remove_steps name r st st' d h e s = rw (load_index_of_Holds C root st d h, e, s) refl

  -- The removal of a sandbox that was just inserted gives its record, and leaves the records that
  -- were there before.
  pub remove_inserted :
      (fresh : Text) (r : SandboxRecord) (st : SandboxState) (d : Disk C.Doc)
      → Holds C root st d
      → {r' : SandboxRecord} {t : C.Doc} → (insert C root fresh r d).0 ≡ ok r'
      → has_id r.name st.sandboxes ≡ false
      → C.to_json (restored st) ≡ ok t
      → ((remove C root r.name (insert C root fresh r d).1).0 ≡ ok r')
        × Holds C root (restored st) (remove C root r.name (insert C root fresh r d).1).1
  remove_inserted fresh r st d held {r'} {t} inserted free json =
      let (st', e, holds, again) = insert_stores C root fresh r st d held L inserted in
      let behind = (insert C root fresh r d).1 in
      let (_, _, writable) = save_index_written C root st' behind (ap (λ x. x.0) again) in
      let (saves, kept) = save_index_succeeds (restored st) t behind json writable in
      let whole =
        remove_steps r.name r' st' (restored st) behind holds (remove-insert fresh r st e free)
          saves in
      (
        ap (λ x. x.0) whole,
        subst (Holds C root (restored st)) (sym (ap (λ x. x.1) whole)) (
            forget_policy-Holds (restored st) r'.name (save_index C root (restored st) behind).1
              kept),
      )

-- ===== src/Store/Files/Laws.antt =====
-- Every method of `Store`, whether it succeeds or fails, leaves an index file that is read back as
-- a well-formed index (crates/sandbox-core/src/state.rs).
use simple_sandbox_public.Prelude.{
  ℕ, ◌≡◌, sym, ap, ◌∙◌, ◌≢◌, ◌⊎◌, inl, inr, Option, some, [], Text, text_eq, arith, Bool-cases,
  Option-cases,
}
use simple_sandbox_public.Result.{ok, err, Result-cases}
use simple_sandbox_public.Text.{codes}
use simple_sandbox_public.FilePath.{join, last_char, last_char-join}
use simple_sandbox_public.Disk.{Disk, not_readable, not_writable, read, write}
use simple_sandbox_public.Codec.{Codec, IsLawful}
use simple_sandbox_public.Store.{StateError, io, json, SandboxState}
use simple_sandbox_public.Store.Files.{index_path, policy_path, load_index, save_index}

index_end-ne-policy_end : ◌≢◌ {A = Option ℕ} (some b'n') (some b'l')
index_end-ne-policy_end e = ground arith

-- The index and a policy are different files, whatever the sandbox is called.
pub index_path-ne-policy_path : (root name : Text) → index_path root ≢ policy_path root name
unfolding index_path policy_path
index_path-ne-policy_path root name e = index_end-ne-policy_end (
    sym (last_char-join root [] b'i' (codes "ndex.json"))
    ∙ ap last_char e
    ∙ last_char-join (join root (codes "policies")) name b'.' (codes "yaml"))

module _ (C : Codec) (root : Text) where
  -- The index file is there, and is read as the given index.
  pub record Holds (st : SandboxState) (d : Disk C.Doc) : Type 0 where
    pub text : C.Doc
    pub there : d.files (index_path root) ≡ some text
    pub reads : C.from_json text ≡ ok st

  pub load_index_of_Holds :
      (st : SandboxState) (d : Disk C.Doc) → Holds st d → load_index C root d ≡ (ok st, d)
  unfolding load_index read
  load_index_of_Holds st d h = ground (arith, h.there, h.reads)

  pub load_index_cases :
      (d : Disk C.Doc)
      → ((st : SandboxState) × Holds st d × (load_index C root d ≡ (ok st, d)))
        ⊎ ((e : StateError) × (load_index C root d ≡ (err e, d)))
  load_index_cases d = elim (Option-cases (d.files (index_path root))) [
    | inl p ↦ inr (io not_readable, unfold load_index read in ground arith)
    | inr (t, p) ↦ elim (Result-cases (C.from_json t)) [
      | inl (st, q) ↦
          let h : Holds st d = record { text = t; there = p; reads = q } in
          inl (st, h, load_index_of_Holds st d h)
      | inr (m, q) ↦ inr (json m, unfold load_index read in ground arith)
    ]
  ]

module _ (C : Codec) (L : IsLawful C) (root : Text) where
  pub save_index_cases :
      (st : SandboxState) (d : Disk C.Doc)
      → (((save_index C root st d).0 ≡ ok tt) × Holds C root st (save_index C root st d).1)
        ⊎ ((e : StateError) × (save_index C root st d ≡ (err e, d)))
  unfolding save_index write
  save_index_cases st d = elim (Result-cases (C.to_json st)) [
    | inr (m, p) ↦ inr (json m, ground arith)
    | inl (t, p) ↦ elim (Bool-cases (d.writable (index_path root))) [
      | inl w ↦ inl (
        ground arith,
        record { text = t; there = ground arith; reads = L.from_json-to_json st t p },
      )
      | inr w ↦ inr (io not_writable, ground arith)
    ]
  ]

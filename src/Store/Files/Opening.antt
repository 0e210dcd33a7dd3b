-- ===== src/Store/Files/Opening.antt =====
-- What `Store::open` leaves (crates/sandbox-core/src/state.rs): it makes the directories, and the
-- index where there is none.
use simple_sandbox_public.Prelude.{◌≡◌, ap, ◌∙◌, ◌⊎◌, inl, inr, true, false, none, Text, arith}
use simple_sandbox_public.Result.{Result, ok, err}
use simple_sandbox_public.Exec.{◌>>◌, after, map_error}
use simple_sandbox_public.Disk.{Disk, create_dir_all, create_dir_all-files, exists}
use simple_sandbox_public.Policy.{MechanismKind}
use simple_sandbox_public.Codec.{Codec, IsLawful}
use simple_sandbox_public.Store.{StateError, io, state_default}
use simple_sandbox_public.Store.Invariant.{state_default-IsWellFormed}
use simple_sandbox_public.Store.Files.{index_path, init_index, open_store, save_index, Store}
use simple_sandbox_public.Store.Files.Laws.{save_index_cases}
use simple_sandbox_public.Store.Files.Soundness.{IsKept, same_files-IsKept}

module _ (C : Codec) (L : IsLawful C) (root : Text) (G : MechanismKind → Text → Type 0) where
  -- A directory that has no index yet, or a store that is kept.
  abbrev pub IsUsable : Disk C.Doc → Type 0
  IsUsable d = (d.files (index_path root) ≡ none) ⊎ IsKept C root G d

  -- What becomes of it: a store stays kept, and where there is no index there may be one later.
  abbrev pub Stays : {d : Disk C.Doc} → IsUsable d → Disk C.Doc → Type 0
  Stays (inl e) d' = IsUsable d'
  Stays (inr h) d' = IsKept C root G d'

  pub IsUsable-Stays : {d : Disk C.Doc} (h : IsUsable d) → Stays h d
  IsUsable-Stays (inl e) = inl e
  IsUsable-Stays (inr h) = h

  pub IsKept-Stays : {d d' : Disk C.Doc} (h : IsUsable d) → IsKept C root G d' → Stays h d'
  IsKept-Stays (inl e) k = inr k
  IsKept-Stays (inr h) k = k

  -- What may fail, and else leaves a store that is kept.
  abbrev pub Opens : Store C root (Unit {0}) → Type 0
  Opens m =
      (d : Disk C.Doc) (h : IsUsable d)
      → Stays h (m d).1 × ((m d).0 ≡ ok tt → IsKept C root G (m d).1)

  init_index_there :
      (d : Disk C.Doc) → exists (index_path root) d ≡ true → init_index C root d ≡ (ok tt, d)
  unfolding init_index
  init_index_there d e = rw e

  init_index_missing :
      (d : Disk C.Doc)
      → exists (index_path root) d ≡ false
      → init_index C root d ≡ save_index C root state_default d
  unfolding init_index
  init_index_missing d e = rw e

  init_index-Opens : Opens (init_index C root)
  init_index-Opens d (inr h) =
      rw (init_index_there d (unfold exists in ground (arith, h.holds.there))) (h, λ _. h)
  init_index-Opens d (inl n) =
      let saves = init_index_missing d (unfold exists in ground arith) in
      elim (save_index_cases C L root state_default d) [
        | inl (_, holds) ↦
            let kept : IsKept C root G (save_index C root state_default d).1 = record {
              state = state_default;
              holds = holds;
              well_formed = state_default-IsWellFormed;
              owned = tt;
            } in
            rw saves (inr kept, λ _. kept)
        | inr (x, fails) ↦ rw saves (rw fails (inl n, λ e. cc e))
      ]

  after-Opens :
      (rest : Store C root (Unit {0}))
      → Opens rest
      → (r : Result StateError (Unit {0})) (d : Disk C.Doc) (h : IsUsable d)
      → Stays h (after r (λ _. rest) d).1
        × ((after r (λ _. rest) d).0 ≡ ok tt → IsKept C root G (after r (λ _. rest) d).1)
  after-Opens rest k (ok u) d h = k d h
  after-Opens rest k (err x) d h = (IsUsable-Stays h, λ e. cc e)

  -- One directory is made, and the rest of the block does the work.
  then-Opens :
      (p : Text) (rest : Store C root (Unit {0}))
      → Opens rest
      → Opens (map_error io (create_dir_all p) >> rest)
  then-Opens p rest k d (inl e) =
      after-Opens rest k (map_error io (create_dir_all p) d).0 (create_dir_all p d).1
        (inl (ap (λ f. f (index_path root)) (create_dir_all-files p d) ∙ e))
  then-Opens p rest k d (inr h) =
      after-Opens rest k (map_error io (create_dir_all p) d).0 (create_dir_all p d).1 (
        inr (
          same_files-IsKept C root G d _ (ap (λ f. f (index_path root)) (create_dir_all-files p d))
            h))

  pub open_store-Opens : Opens (open_store C root)
  unfolding open_store
  open_store-Opens =
      then-Opens _ _ (then-Opens _ _ (then-Opens _ _ (then-Opens _ _ init_index-Opens)))

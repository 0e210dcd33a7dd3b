-- ===== src/Store/Files/Reach.antt =====
-- A store that was opened on a new directory stays sound under every sequence of changes
-- (crates/sandbox-core/src/state.rs).
use simple_sandbox_public.Prelude.{◌≡◌, ◌⊎◌, inl, inr, none, List, [], ◌∷◌, Text}
use simple_sandbox_public.Result.{ok}
use simple_sandbox_public.Disk.{Disk}
use simple_sandbox_public.Codec.{Codec, IsLawful}
use simple_sandbox_public.Store.Files.{
  index_path, open_store, Change, put, drop, write_policy, change_policy, using, apply, apply_all,
}
use simple_sandbox_public.Store.Files.Opening.{open_store-Opens}
use simple_sandbox_public.Store.Files.Soundness.{
  IsSound, insert-Keeps, remove-Keeps, save_policy-Keeps, update_policy-Keeps, use_sandbox-Keeps,
  IsKept-IsSound, IsSound-IsKept, AnyOwner,
}

module _ (C : Codec) (L : IsLawful C) (root : Text) where
  apply-IsSound :
      (c : Change) (d : Disk C.Doc) → IsSound C root d → IsSound C root (apply C root c d)
  unfolding apply
  apply-IsSound (put fresh r) d h =
      IsKept-IsSound C root AnyOwner
        ((insert-Keeps C L root AnyOwner fresh r tt).at d (IsSound-IsKept C root d h)).0
  apply-IsSound (drop name) d h =
      IsKept-IsSound C root AnyOwner
        ((remove-Keeps C L root AnyOwner name).at d (IsSound-IsKept C root d h)).0
  apply-IsSound (write_policy name p) d h =
      IsKept-IsSound C root AnyOwner
        ((save_policy-Keeps C root AnyOwner name p).at d (IsSound-IsKept C root d h)).0
  apply-IsSound (change_policy name p) d h =
      IsKept-IsSound C root AnyOwner
        ((update_policy-Keeps C L root AnyOwner name p).at d (IsSound-IsKept C root d h)).0
  apply-IsSound (using name) d h =
      IsKept-IsSound C root AnyOwner
        ((use_sandbox-Keeps C L root AnyOwner name).at d (IsSound-IsKept C root d h)).0

  -- Whatever insertions, removals, policy updates and uses follow one another on a sound store, and
  -- whichever of them fail, the index file is there, is read back, and is well-formed.
  pub apply_all-IsSound :
      (cs : List Change) (d : Disk C.Doc)
      → IsSound C root d
      → IsSound C root (apply_all C root cs d)
  unfolding apply_all
  apply_all-IsSound [] d h = h
  apply_all-IsSound (c ∷ cs) d h = apply_all-IsSound cs (apply C root c d) (apply-IsSound c d h)

  -- A directory that has no index yet, or a sound store.
  abbrev pub IsOpenable : Disk C.Doc → Type 0
  IsOpenable d = (d.files (index_path root) ≡ none) ⊎ IsSound C root d

  -- Opening a store, where there is no index yet or a sound one, leaves a sound store, if it
  -- succeeds.
  pub open_store-IsSound :
      (d : Disk C.Doc)
      → IsOpenable d
      → (open_store C root d).0 ≡ ok tt
      → IsSound C root (open_store C root d).1
  open_store-IsSound d h e = IsKept-IsSound C root AnyOwner (
      (open_store-Opens C L root AnyOwner d (elim h [
        | inl none_yet ↦ inl none_yet
        | inr sound ↦ inr (IsSound-IsKept C root d sound)
      ])).1
        e)

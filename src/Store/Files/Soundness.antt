-- ===== src/Store/Files/Soundness.antt =====
-- Every method of `Store`, whether it succeeds or fails, leaves an index file that is read back as
-- a well-formed index (crates/sandbox-core/src/state.rs), and keeps what is known of the records'
-- backends and runtime identifiers.
use simple_sandbox_public.Prelude.{◌≡◌, ◌∙◌, inl, inr, Option, Text, text_eq}
use simple_sandbox_public.Result.{map_err, Result-cases}
use simple_sandbox_public.Exec.Keeps.{
  Keeps, Gives-any, Keeps-pure, Keeps-lift, Keeps-bind, Keeps-map_error,
}
use simple_sandbox_public.Disk.{Disk, write, write-files_ne, remove_file-files_ne}
use simple_sandbox_public.Policy.{MechanismKind, SandboxPolicy}
use simple_sandbox_public.Codec.{Codec, IsLawful, to_yaml, content_hash}
use simple_sandbox_public.Store.{io, SandboxRecord, SandboxState}
use simple_sandbox_public.Store.Index
use simple_sandbox_public.Store.Index.{has_name}
use simple_sandbox_public.Store.Invariant.{
  IsWellFormed, insert-IsWellFormed, set_hash-IsWellFormed, touch-IsWellFormed, remove-IsWellFormed,
}
use simple_sandbox_public.Store.Lookup.{get_or_last-has_name}
use simple_sandbox_public.Store.Owned.{
  IsOwned, AllOwned, get_or_last-IsOwned, insert-AllOwned, set_hash-AllOwned, remove-AllOwned,
  AllOwned-any,
}
use simple_sandbox_public.Store.Files.{
  index_path, policy_path, policy_io, load_index, save_index, insert, save_policy, update_policy,
  remove, forget_policy, touch_last_used, use_sandbox, get_or_last,
}
use simple_sandbox_public.Store.Files.Laws.{
  index_path-ne-policy_path, Holds, load_index_of_Holds, save_index_cases,
}

module _ (C : Codec) (root : Text) where
  -- The index file is there and is read as a well-formed index.
  pub record IsSound (d : Disk C.Doc) : Type 0 where
    pub state : SandboxState
    pub holds : Holds C root state d
    pub well_formed : IsWellFormed state

module _ (C : Codec) (root : Text) (G : MechanismKind → Text → Type 0) where
  -- A sound store whose records are owned.
  pub record IsKept (d : Disk C.Doc) : Type 0 where
    pub state : SandboxState
    pub holds : Holds C root state d
    pub well_formed : IsWellFormed state
    pub owned : AllOwned G state

  pub IsKept-IsSound : {d : Disk C.Doc} → IsKept d → IsSound C root d
  IsKept-IsSound h = record { state = h.state; holds = h.holds; well_formed = h.well_formed }

  -- What leaves the index file alone keeps the store.
  pub same_files-IsKept :
      (d d' : Disk C.Doc)
      → d'.files (index_path root) ≡ d.files (index_path root)
      → IsKept d
      → IsKept d'
  same_files-IsKept d d' e h = record {
    state = h.state;
    holds = record { text = h.holds.text; there = e ∙ h.holds.there; reads = h.holds.reads };
    well_formed = h.well_formed;
    owned = h.owned;
  }

  pub load_index-Keeps : Keeps IsKept (λ st. IsWellFormed st × AllOwned G st) (load_index C root)
  load_index-Keeps = record {
    at = λ d h. rw (load_index_of_Holds C root h.state d h.holds) (h, (h.well_formed, h.owned));
  }

  write-Keeps :
      (name : Text) (t : C.Doc)
      → Keeps IsKept (λ _. Unit) (write {Doc = C.Doc} (policy_path root name) t)
  write-Keeps name t = record {
    at = λ d h. (
      same_files-IsKept d _
          (write-files_ne (policy_path root name) (index_path root) t d
            (index_path-ne-policy_path root name))
          h,
      Gives-any _,
    );
  }

  pub save_policy-Keeps :
      (name : Text) (p : SandboxPolicy) → Keeps IsKept (λ _. Unit) (save_policy C root name p)
  unfolding save_policy
  save_policy-Keeps name p =
      Keeps-bind _ _ (Keeps-lift (map_err policy_io (to_yaml C p)) (λ t e. tt))
        λ t _. Keeps-bind _ _ (Keeps-map_error io _ (write-Keeps name t)) λ _ _. Keeps-pure _ tt

  forget_policy-Keeps : (name : Text) → Keeps IsKept (λ _. Unit) (forget_policy C root name)
  unfolding forget_policy
  forget_policy-Keeps name = record {
    at = λ d h. (
      same_files-IsKept d _
          (remove_file-files_ne (policy_path root name) (index_path root) d
            (index_path-ne-policy_path root name))
          h,
      tt,
    );
  }

module _ (C : Codec) (L : IsLawful C) (root : Text) (G : MechanismKind → Text → Type 0) where
  pub save_index-Keeps :
      (st : SandboxState)
      → IsWellFormed st
      → AllOwned G st
      → Keeps (IsKept C root G) (λ _. Unit) (save_index C root st)
  save_index-Keeps st wf o = record {
    at = λ d h. elim (save_index_cases C L root st d) [
      | inl (e, holds) ↦
          (record { state = st; holds = holds; well_formed = wf; owned = o }, rw e tt)
      | inr (e, same) ↦ rw same (h, tt)
    ];
  }

  pub insert-Keeps :
      (fresh : Text) (r : SandboxRecord)
      → IsOwned G r
      → Keeps (IsKept C root G) (λ _. Unit) (insert C root fresh r)
  unfolding insert
  insert-Keeps fresh r o = Keeps-bind _ _ (load_index-Keeps C root G) λ st (wf, os).
      Keeps-bind {Q = λ (_, st'). IsWellFormed st' × AllOwned G st'} _ _
        (Keeps-lift (Index.insert fresh r st)
          (λ (r', st') e. (insert-IsWellFormed fresh r wf e, insert-AllOwned G fresh r st o os e)))
        λ (r', st') (wf', os').
          Keeps-bind _ _ (save_index-Keeps st' wf' os') λ _ _. Keeps-pure r' tt

  pub update_policy-Keeps :
      (name : Text) (p : SandboxPolicy)
      → Keeps (IsKept C root G) (λ _. Unit) (update_policy C root name p)
  unfolding update_policy
  update_policy-Keeps name p =
      Keeps-bind {Q = λ _. Unit} _ _ (Keeps-lift (map_err policy_io (content_hash C p)) (λ t e. tt))
        λ hash _. Keeps-bind _ _ (save_policy-Keeps C root G name p) λ _ _.
          Keeps-bind _ _ (load_index-Keeps C root G) λ st (wf, os).
            Keeps-bind {Q = λ st'. IsWellFormed st' × AllOwned G st'} _ _
              (Keeps-lift (Index.set_hash name hash st) (λ st' e.
                (set_hash-IsWellFormed name hash wf e, set_hash-AllOwned G name hash st os e)))
              λ st' (wf', os'). save_index-Keeps st' wf' os'

  -- The removed record was owned.
  pub remove-Keeps : (name : Text) → Keeps (IsKept C root G) (IsOwned G) (remove C root name)
  unfolding remove
  remove-Keeps name = Keeps-bind _ _ (load_index-Keeps C root G) λ st (wf, os).
      Keeps-bind {Q = λ (r, st'). IsOwned G r × (IsWellFormed st' × AllOwned G st')} _ _
        (Keeps-lift (Index.remove name st) (λ (r, st') e.
          let (o, os') = remove-AllOwned G name st os e in
          (o, (remove-IsWellFormed name wf e, os'))))
        λ (r, st') (o, (wf', os')).
          Keeps-bind _ _ (save_index-Keeps st' wf' os')
            λ _ _. Keeps-bind _ _ (forget_policy-Keeps C root G r.name) λ _ _. Keeps-pure r o

  -- The record that a lookup gives is owned.
  pub get_or_last-Keeps :
      (name : Option Text) → Keeps (IsKept C root G) (IsOwned G) (get_or_last C root name)
  unfolding get_or_last
  get_or_last-Keeps name = Keeps-bind _ _ (load_index-Keeps C root G) λ st (wf, os).
      Keeps-lift (Index.get_or_last name st) λ r e. get_or_last-IsOwned G name st r e os

  -- Looks a sandbox up and makes it the last used one, as `exec` does.
  pub use_sandbox-Keeps :
      (name : Option Text) → Keeps (IsKept C root G) (IsOwned G) (use_sandbox C root name)
  unfolding use_sandbox get_or_last touch_last_used
  use_sandbox-Keeps name = record {
    at = λ d h.
        let loaded = load_index_of_Holds C root h.state d h.holds in
        elim (Result-cases (Index.get_or_last name h.state)) [
          | inl (r, p) ↦
              let named = get_or_last-has_name name h.state r p in
              rw loaded (
                rw p (
                  rw loaded (
                    (Keeps-bind _ _
                        (save_index-Keeps (Index.touch r.name h.state)
                          (touch-IsWellFormed r.name h.well_formed named)
                          (unfold Index.touch in h.owned))
                        λ _ _.
                          Keeps-pure {Q = IsOwned G} r
                            (get_or_last-IsOwned G name h.state r p h.owned)).at
                      d h)))
          | inr (e, p) ↦ rw loaded (rw p (h, tt))
        ];
  }

-- Soundness is that where nothing is asked of the records.
abbrev pub AnyOwner : MechanismKind → Text → Type 0
AnyOwner k id = Unit

pub IsSound-IsKept :
    (C : Codec) (root : Text) (d : Disk C.Doc) → IsSound C root d → IsKept C root AnyOwner d
IsSound-IsKept C root d h = record {
  state = h.state;
  holds = h.holds;
  well_formed = h.well_formed;
  owned = AllOwned-any h.state.sandboxes;
}

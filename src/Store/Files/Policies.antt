-- ===== src/Store/Files/Policies.antt =====
-- The policy files of the store: what is saved is loaded, also where the index refuses the update
-- (crates/sandbox-core/src/state.rs).
use simple_sandbox_public.Prelude.{◌≡◌, ◌⊎◌, inl, inr, true, some, Text, arith, Bool-cases}
use simple_sandbox_public.Result.{ok, err, Result-cases}
use simple_sandbox_public.Disk.{Disk, read, write, not_writable}
use simple_sandbox_public.Policy.{SandboxPolicy, yaml}
use simple_sandbox_public.Policy.Validate.{validate}
use simple_sandbox_public.Codec.{Codec, IsLawful, parse_yaml, to_yaml}
use simple_sandbox_public.Store.{StateError, io}
use simple_sandbox_public.Store.Files.{policy_path, save_policy, load_policy, policy_io}

module _ (C : Codec) (L : IsLawful C) (root : Text) where
  parse_yaml-to_yaml :
      (p : SandboxPolicy) (t : C.Doc)
      → C.to_yaml p ≡ ok t
      → validate p ≡ ok tt
      → parse_yaml C t ≡ ok p
  unfolding parse_yaml
  parse_yaml-to_yaml p t e v = rw (L.from_yaml-to_yaml p t e, v)

  load_policy_of_file :
      (name : Text) (p : SandboxPolicy) (t : C.Doc) (d : Disk C.Doc)
      → d.files (policy_path root name) ≡ some t
      → parse_yaml C t ≡ ok p
      → load_policy C root name d ≡ (ok p, d)
  unfolding load_policy read
  load_policy_of_file name p t d there reads = ground arith

  -- The disk with the policy's text written.
  abbrev written : Text → C.Doc → Disk C.Doc → Disk C.Doc
  written name t d = (write (policy_path root name) t d).1

  written-files :
      (name : Text) (t : C.Doc) (d : Disk C.Doc)
      → d.writable (policy_path root name) ≡ true
      → (written name t d).files (policy_path root name) ≡ some t
  unfolding write
  written-files name t d w = ground arith

  pub save_policy_writes :
      (name : Text) (p : SandboxPolicy) (t : C.Doc) (d : Disk C.Doc)
      → C.to_yaml p ≡ ok t
      → d.writable (policy_path root name) ≡ true
      → save_policy C root name p d ≡ (ok (policy_path root name), written name t d)
  unfolding save_policy to_yaml write
  save_policy_writes name p t d e w = ground arith

  save_policy_cases :
      (name : Text) (p : SandboxPolicy) (d : Disk C.Doc)
      → ((t : C.Doc) × (C.to_yaml p ≡ ok t) × (d.writable (policy_path root name) ≡ true))
        ⊎ ((x : StateError) × (save_policy C root name p d ≡ (err x, d)))
  unfolding save_policy to_yaml write
  save_policy_cases name p d = elim (Result-cases (C.to_yaml p)) [
    | inr (m, e) ↦ inr (policy_io (yaml m), ground arith)
    | inl (t, e) ↦ elim (Bool-cases (d.writable (policy_path root name))) [
      | inl w ↦ inl (t, e, w)
      | inr w ↦ inr (io not_writable, ground arith)
    ]
  ]

  load_policy-written :
      (name : Text) (p : SandboxPolicy) (t : C.Doc) (d : Disk C.Doc)
      → C.to_yaml p ≡ ok t
      → d.writable (policy_path root name) ≡ true
      → validate p ≡ ok tt
      → load_policy C root name (written name t d) ≡ (ok p, written name t d)
  load_policy-written name p t d e w v =
      load_policy_of_file name p t (written name t d) (written-files name t d w)
        (parse_yaml-to_yaml p t e v)

  -- With lawful serialisers, a valid policy that was saved under a name is what that name loads.
  pub load_policy-save_policy :
      (name : Text) (p : SandboxPolicy) (d : Disk C.Doc) {path : Text}
      → validate p ≡ ok tt
      → (save_policy C root name p d).0 ≡ ok path
      → (load_policy C root name (save_policy C root name p d).1).0 ≡ ok p
  load_policy-save_policy name p d v saved = elim (save_policy_cases name p d) [
    | inr (x, fails) ↦ cc (saved, fails)
    | inl (t, e, w) ↦
        rw (save_policy_writes name p t d e w) (rw (load_policy-written name p t d e w v))
  ]

-- ===== src/Seatbelt/Resume.antt =====
-- What the macOS backend runs in a sandbox that it has just kept
-- (crates/sandbox-mech-mac/src/lib.rs).
use simple_sandbox_public.Prelude.{
  ◌≡◌, refl, subst, sym, ap, ◌∙◌, ◌≢◌, Bool, false, Bool-cases, inl, inr, Text, text_eq, ◌||◌,
  if◌then◌else◌,
}
use simple_sandbox_public.Result.{ok, err, map_err, map_err-eq-ok}
use simple_sandbox_public.Exec.{Exec}
use simple_sandbox_public.Exec.Keeps.{
  >>=-reaches, Gives, Gives-any, Keeps, Keeps-bind, Keeps-lift, Keeps-pure,
}
use simple_sandbox_public.Text.{codes}
use simple_sandbox_public.FilePath.{join}
use simple_sandbox_public.Disk.{remove_file, remove_file-files_ne}
use simple_sandbox_public.Codec.{Codec, IsLawful}
use simple_sandbox_public.Mechanism.{
  message, unavailable, CreateRequest, CreateResult, ExecRequest, World, ExitStatus,
}
use simple_sandbox_public.Seatbelt.{Host, Child, generate_seatbelt_profile}
use simple_sandbox_public.Seatbelt.Instances.{
  Texts, is_macos, is_command, instance_dir, profile_path, runtime_id_of, spawn_sandboxed,
  write_profile, dropping, run_once, keep, create_here, create, exec,
}
use simple_sandbox_public.Seatbelt.Kept.{
  IsKeptAt, IsKeepable, exec-IsKeptAt, keep-files, write-same_writable,
}

module _ (C : Codec) {Out : Type 0} (T : Texts C.Doc) (H : Host)
    (run_child : Child → Exec (World C.Doc Out) Text ExitStatus) where
  -- The temporary profile has the host's path, and the rights of the disk stay.
  write_profile-Keeps :
      (contents : Text) (v : Text → Bool)
      → Keeps
          (λ w. w.disk.writable ≡ v)
          (λ path. H.temp_file ≡ ok path)
          (write_profile C T H run_child contents)
  unfolding write_profile
  write_profile-Keeps contents v =
      Keeps-bind {Q = λ path. H.temp_file ≡ ok path} _ _
        (Keeps-lift (map_err message H.temp_file) (λ path e. map_err-eq-ok message H.temp_file e))
        λ path e.
          Keeps-bind {Q = λ _. Unit} _ _
            (record {
              at = λ w h. (
                write-same_writable C T H run_child path (T.write_text contents) w.disk ∙ h,
                Gives-any _,
              );
            })
            λ _ _. Keeps-pure path e

  kept_branch :
      (base : Text) (req : CreateRequest) (w : World C.Doc Out)
      → IsKeepable C T H run_child base req w
      → (req.ephemeral || is_command req.command) ≡ false
  kept_branch base req w k = rw (k.stays, k.idle) refl

  dropped-IsKeptAt :
      (base path : Text) (req : CreateRequest) (w : World C.Doc Out)
      → join (instance_dir base req.name) (codes "workdir") ≢ path
      → join (instance_dir base req.name) (codes "policy.yaml") ≢ path
      → IsKeptAt C T H run_child base req w
      → IsKeptAt C T H run_child base req (record w { disk = remove_file path w.disk })
  dropped-IsKeptAt base path req w n m k = record {
    yaml = k.yaml;
    workdir_there = remove_file-files_ne path _ w.disk n ∙ k.workdir_there;
    policy_there = remove_file-files_ne path _ w.disk m ∙ k.policy_there;
    serialised = k.serialised;
  }

  create_here-files :
      (base : Text) (req : CreateRequest) (w : World C.Doc Out) {res : CreateResult}
      → IsKeepable C T H run_child base req w
      → (create_here C T H run_child base req w).0 ≡ ok res
      → IsKeptAt C T H run_child base req (create_here C T H run_child base req w).1
        × (res.runtime_id ≡ runtime_id_of (profile_path base req.name))
  unfolding create_here
  create_here-files base req w {res} k e =
      let profile = generate_seatbelt_profile H.canonicalize req.policy req.workdir in
      let (path, got, to_1) = >>=-reaches (write_profile C T H run_child profile) _ w e in
      let w1 = (write_profile C T H run_child profile w).1 in
      let (same, temp) = (write_profile-Keeps profile w.disk.writable).at w refl in
      let keeps = keep C T H run_child base profile req in
      let to_2 =
        to_1
        ∙ ap
            (λ b.
              dropping C T H run_child path (if b then run_once C T H run_child path req else keeps)
                w1)
            (kept_branch base req w k) in
      let temp_is : H.temp_file ≡ ok path = subst (Gives (λ p. H.temp_file ≡ ok p)) got temp in
      let (kept, id) =
        keep-files C T H run_child base profile req w1 k.yaml (ap (λ x. x.0) (sym to_2) ∙ e)
          k.serialised
          (ap (λ f. f (join (instance_dir base req.name) (codes "policy.yaml"))) same
            ∙ k.policy_writable) in
      (
        subst (λ x. IsKeptAt C T H run_child base req x.1) (sym to_2)
            (dropped-IsKeptAt base path req (keeps w1).1 (k.workdir_apart path temp_is)
              (k.policy_apart path temp_is) kept),
        id,
      )

  create-files :
      (base : Text) (req : CreateRequest) (w : World C.Doc Out) {res : CreateResult}
      → IsKeepable C T H run_child base req w
      → (create C T H run_child base req w).0 ≡ ok res
      → IsKeptAt C T H run_child base req (create C T H run_child base req w).1
        × (res.runtime_id ≡ runtime_id_of (profile_path base req.name))
  unfolding create
  create-files base req w {res} k e = elim (Bool-cases (is_macos H.os)) [
    | inl p ↦
        let same : create C T H run_child base req w ≡ create_here C T H run_child base req w =
          rw (p, create) refl in
        rw same (create_here-files base req w k (ap (λ x. x.0) (sym same) ∙ e))
    | inr p ↦
        let same : create C T H run_child base req w
            ≡ (err (unavailable (codes "mac_seatbelt requires macOS")), w) =
          rw (p, create) refl in
        cc (ap (λ x. x.0) (sym same) ∙ e)
  ]

  -- Behind a successful `create` that keeps a sandbox, an `exec` on the runtime identifier that it
  -- returned starts the child with the path of the sandbox's profile, in the working directory and
  -- under the policy of the creation. The request names no command and is not ephemeral, its name is
  -- plain, the serialisers are lawful and give a text for its policy, the file for it is writable,
  -- and no temporary file has the path of that file or of the one for the working directory.
  pub exec-create :
      (L : IsLawful C) (base : Text) (req : CreateRequest) (cmd : ExecRequest) (w : World C.Doc Out)
      {res : CreateResult}
      → IsKeepable C T H run_child base req w
      → (create C T H run_child base req w).0 ≡ ok res
      → cmd.runtime_id ≡ res.runtime_id
      → exec C T H run_child cmd (create C T H run_child base req w).1
        ≡ spawn_sandboxed C T H run_child
            (profile_path base req.name)
            req.policy
            req.workdir
            cmd.command
            cmd.env
            (create C T H run_child base req w).1
  exec-create L base req cmd w {res} k e same =
      let (kept, id) = create-files base req w k e in
      exec-IsKeptAt C T H run_child L base req cmd (create C T H run_child base req w).1 k.plain
        (same ∙ id) kept

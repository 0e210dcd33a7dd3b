-- ===== src/Seatbelt/Safety.antt =====
-- The macOS backend keeps to the interface: it leaves the index of the store as it is
-- (crates/sandbox-mech-mac/src/lib.rs).
use simple_sandbox_public.Prelude.{
  ℕ, ◌≡◌, refl, ap, ◌∙◌, ◌≢◌, inl, inr, Bool, true, false, Bool-cases, Option, some, List, ◌∷◌,
  Text, text_eq, ◌||◌, arith, if◌then◌else◌,
}
use simple_sandbox_public.Result.{Result, ok, err, map_err, map_err-eq-ok}
use simple_sandbox_public.Exec.{Exec}
use simple_sandbox_public.Exec.Keeps.{
  Keeps, Gives-any, Keeps-pure, Keeps-lift, Keeps-bind, Keeps-map_error,
}
use simple_sandbox_public.Text.{codes}
use simple_sandbox_public.FilePath.{last_char, join, parent}
use simple_sandbox_public.FilePath.Parent.{IsPlainName}
use simple_sandbox_public.Disk.{
  write, create_dir_all, create_dir_all-files, write-files_ne, remove_file-files_ne,
}
use simple_sandbox_public.Policy.{SandboxPolicy}
use simple_sandbox_public.Codec.{Codec}
use simple_sandbox_public.Store.Files.{index_path}
use simple_sandbox_public.Mechanism.{
  message, CreateRequest, ExecRequest, World, ExitStatus, Leaves, default_logs,
}
use simple_sandbox_public.Seatbelt.{Host, Child, sandboxed, generate_seatbelt_profile}
use simple_sandbox_public.Seatbelt.Instances.{
  Texts, is_macos, is_command, instance_dir, profile_path, Act, on_disk, spawn_sandboxed,
  write_profile, dropping, run_once, write_yaml, write_policy, keep, create_here, create,
  parse_mac_runtime, stored_policy, exec, mechanism,
}
use simple_sandbox_public.Seatbelt.Paths.{file-ne}
use simple_sandbox_public.Seatbelt.Removal.{Owns, remove-leaves}

module _ (C : Codec) {Out : Type 0} (T : Texts C.Doc) (H : Host)
    (run_child : Child → Exec (World C.Doc Out) Text ExitStatus) (root : Text) where
  -- What is asked of the host: neither a child nor a temporary file is at the index.
  pub record IsApart : Type 0 where
    pub child_leaves :
        (c : Child) (w : World C.Doc Out)
        → (run_child c w).1.disk.files (index_path root) ≡ w.disk.files (index_path root)
    pub temp_apart : (path : Text) → H.temp_file ≡ ok path → index_path root ≢ path

  module _ (A : IsApart) (v : Option C.Doc) where
    abbrev At : World C.Doc Out → Type 0
    At w = w.disk.files (index_path root) ≡ v

    write-At :
        (path : Text) (t : C.Doc)
        → index_path root ≢ path
        → Keeps At (λ _. Unit) (on_disk C T H run_child (write path t))
    write-At path t n = record {
      at = λ w h. (write-files_ne path (index_path root) t w.disk n ∙ h, Gives-any _);
    }

    create_dir_all-At :
        (path : Text) → Keeps At (λ _. Unit) (on_disk C T H run_child (create_dir_all path))
    create_dir_all-At path = record {
      at = λ w h.
          (ap (λ f. f (index_path root)) (create_dir_all-files path w.disk) ∙ h, Gives-any _);
    }

    spawn_sandboxed-At :
        (path : Text) (p : SandboxPolicy) (workdir : Text) (command : List Text)
        (env : List (Text × Text))
        → Keeps At (λ _. Unit) (spawn_sandboxed C T H run_child path p workdir command env)
    unfolding spawn_sandboxed
    spawn_sandboxed-At path p workdir command env =
        Keeps-bind {Q = λ _. Unit} _ _
          (Keeps-lift (sandboxed H path p workdir command env) (λ c e. tt))
          λ child _.
            Keeps-map_error _ _
              (record { at = λ w h. (A.child_leaves child w ∙ h, Gives-any (run_child child w).0) })

    write_profile-At :
        (contents : Text)
        → Keeps At (λ path. index_path root ≢ path) (write_profile C T H run_child contents)
    unfolding write_profile
    write_profile-At contents =
        Keeps-bind {Q = λ path. index_path root ≢ path} _ _
          (Keeps-lift (map_err message H.temp_file)
            (λ path e. A.temp_apart path (map_err-eq-ok message H.temp_file e)))
          λ path n.
            Keeps-bind _ _ (write-At path (T.write_text contents) n) λ _ _. Keeps-pure path n

    dropping-At :
        {X : Type 0} {Q : X → Type 0} (path : Text) (m : Act C T H run_child X)
        → index_path root ≢ path
        → Keeps At Q m
        → Keeps At Q (dropping C T H run_child path m)
    dropping-At path m n k = record {
      at = λ w h.
          let (h', q) = k.at w h in
          (remove_file-files_ne path (index_path root) (m w).1.disk n ∙ h', q);
    }

    run_once-At :
        (path : Text) (req : CreateRequest)
        → Keeps At (λ res. Owns root res.runtime_id) (run_once C T H run_child path req)
    unfolding run_once
    run_once-At path req =
        Keeps-bind _ _ (spawn_sandboxed-At path req.policy req.workdir req.command req.env)
          λ status _. Keeps-pure _ (inr (req.name, refl))

    write_yaml-At :
        (path : Text) (r : Result Text C.Doc)
        → index_path root ≢ path
        → Keeps At (λ _. Unit) (write_yaml C T H run_child path r)
    write_yaml-At path (ok yaml) n = record {
      at = λ w h. (write-files_ne path (index_path root) yaml w.disk n ∙ h, tt);
    }
    write_yaml-At path (err e) n = record { at = λ w h. (h, tt) }

    index-ne :
        (dir : Text) (c : ℕ) (s : Text)
        → ◌≢◌ {A = Option ℕ} (some b'n') (last_char (c ∷ s))
        → index_path root ≢ join dir (c ∷ s)
    unfolding index_path
    index-ne dir c s n = file-ne root dir b'i' c (codes "ndex.json") s n

    keep-At :
        (profile : Text) (req : CreateRequest)
        → IsPlainName req.name
        → Keeps At
            (λ res. Owns root res.runtime_id)
            (keep C T H run_child (join root (codes "mac")) profile req)
    unfolding keep write_policy
    keep-At profile req n =
        let dir = instance_dir (join root (codes "mac")) req.name in
        Keeps-bind _ _ (create_dir_all-At dir) λ _ _.
          Keeps-bind _ _
            (write-At (join dir (codes "profile.sb")) (T.write_text profile)
              (index-ne dir b'p' (codes "rofile.sb") (ground arith)))
            λ _ _.
              Keeps-bind _ _
                (write-At (join dir (codes "workdir")) (T.write_text req.workdir)
                  (index-ne dir b'w' (codes "orkdir") (ground arith)))
                λ _ _.
                  Keeps-bind _ _
                    (write_yaml-At (join dir (codes "policy.yaml")) (C.to_yaml req.policy)
                      (index-ne dir b'p' (codes "olicy.yaml") (ground arith)))
                    λ _ _. Keeps-pure _ (inl (req.name, n, unfold profile_path in refl))

    branch-At :
        (runs : Bool) (path profile : Text) (req : CreateRequest)
        → IsPlainName req.name
        → Keeps At
            (λ res. Owns root res.runtime_id)
            (if runs
              then run_once C T H run_child path req
              else keep C T H run_child (join root (codes "mac")) profile req)
    branch-At true path profile req n = run_once-At path req
    branch-At false path profile req n = keep-At profile req n

    create_here-At :
        (req : CreateRequest)
        → IsPlainName req.name
        → Keeps At
            (λ res. Owns root res.runtime_id)
            (create_here C T H run_child (join root (codes "mac")) req)
    unfolding create_here
    create_here-At req n =
        let profile = generate_seatbelt_profile H.canonicalize req.policy req.workdir in
        Keeps-bind _ _ (write_profile-At profile) λ path apart.
          dropping-At path _ apart
            (branch-At (req.ephemeral || is_command req.command) path profile req n)

    create-At :
        (req : CreateRequest)
        → IsPlainName req.name
        → Keeps At
            (λ res. Owns root res.runtime_id)
            (create C T H run_child (join root (codes "mac")) req)
    unfolding create
    create-At req n = elim (Bool-cases (is_macos H.os)) [
      | inl p ↦ rw (p, create) (create_here-At req n)
      | inr p ↦ rw (p, create) (record { at = λ w h. (h, tt) })
    ]

    exec-At : (req : ExecRequest) → Keeps At (λ _. Unit) (exec C T H run_child req)
    unfolding exec
    exec-At req = record {
      at = λ w h.
          (Keeps-bind {Q = λ _. Unit} _ _
              (Keeps-lift (parse_mac_runtime C T H run_child req.runtime_id w.disk) (λ r e. tt))
              λ (path, workdir) _.
                spawn_sandboxed-At path (stored_policy C T H run_child (parent path) w.disk) workdir
                  req.command req.env).at
            w h;
    }

  -- The macOS backend, in the directory that the commands give it, leaves the index of the store as
  -- it is, for sandboxes with plain names and for the runtime identifiers that it makes itself. The
  -- children that it starts leave the index alone, and no temporary file has its path.
  pub mechanism-Leaves :
      IsApart
      → Leaves
          (index_path root)
          IsPlainName
          (Owns root)
          (mechanism C T H run_child (some (join root (codes "mac"))))
  unfolding mechanism default_logs
  mechanism-Leaves A = record {
    create_leaves = λ r w n. (create-At A (w.disk.files (index_path root)) r n).at w refl;
    exec_leaves = λ r w o. ((exec-At A (w.disk.files (index_path root)) r).at w refl).0;
    remove_leaves = λ id w o. remove-leaves C T H run_child root id w o;
    logs_leaves = λ id tail w o. refl;
  }

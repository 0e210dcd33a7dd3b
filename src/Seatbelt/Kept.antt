-- ===== src/Seatbelt/Kept.antt =====
-- The files that the macOS backend keeps of a sandbox, and the commands that it runs with them
-- (crates/sandbox-mech-mac/src/lib.rs).
use simple_sandbox_public.Prelude.{
  ◌≡◌, subst, sym, ap, ◌∙◌, ◌≢◌, true, false, none, some, [], Text, text_eq, arith,
}
use simple_sandbox_public.Result.{ok, map_err-eq-ok, ok-injective}
use simple_sandbox_public.Exec.{Exec, after, pure, ◌>>◌}
use simple_sandbox_public.Exec.Keeps.{>>=-reaches}
use simple_sandbox_public.Text.{codes}
use simple_sandbox_public.FilePath.{join, parent}
use simple_sandbox_public.FilePath.Parent.{IsPlainName}
use simple_sandbox_public.Disk.{Disk, read, write, create_dir_all, write-files_ne}
use simple_sandbox_public.Policy.{mac}
use simple_sandbox_public.Codec.{Codec, IsLawful}
use simple_sandbox_public.Mechanism.{
  message, CreateRequest, CreateResult, ExecRequest, World, ExitStatus,
}
use simple_sandbox_public.Seatbelt.{Host, Child}
use simple_sandbox_public.Seatbelt.Instances.{
  Texts, instance_dir, profile_path, runtime_id_of, port_of, on_disk, spawn_sandboxed, write_policy,
  write_yaml, keep, text_or, policy_or_default, parsed_or_default, parse_path, parse_mac_runtime,
  stored_policy, exec,
}
use simple_sandbox_public.Seatbelt.Paths.{parent-profile_path, file-ne}
use simple_sandbox_public.Seatbelt.Removal.{parse_kept}

module _ (C : Codec) {Out : Type 0} (T : Texts C.Doc) (H : Host)
    (run_child : Child → Exec (World C.Doc Out) Text ExitStatus) where
  -- A write that succeeds is read back.
  write-ok :
      (p : Text) (v : C.Doc) (d : Disk C.Doc)
      → (write p v d).0 ≡ ok tt
      → (write p v d).1.files p ≡ some v
  unfolding write
  write-ok p v d e = ground arith

  write-writable :
      (p : Text) (v : C.Doc) (d : Disk C.Doc)
      → d.writable p ≡ true
      → (write p v d).1.files p ≡ some v
  unfolding write
  write-writable p v d e = ground arith

  pub write-same_writable :
      (p : Text) (v : C.Doc) (d : Disk C.Doc) → (write p v d).1.writable ≡ d.writable
  unfolding write
  write-same_writable p v d = ground arith

  read-eq : (p : Text) (v : C.Doc) (d : Disk C.Doc) → d.files p ≡ some v → (read p d).0 ≡ ok v
  unfolding read
  read-eq p v d e = ground arith

  create_dir_all-same_writable :
      (p : Text) (d : Disk C.Doc) → (create_dir_all p d).1.writable ≡ d.writable
  unfolding create_dir_all
  create_dir_all-same_writable p d = ground arith

  -- The files of a kept sandbox: its working directory and its policy.
  pub record IsKeptAt (base : Text) (req : CreateRequest) (w : World C.Doc Out) : Type 0 where
    pub yaml : C.Doc
    pub workdir_there :
        w.disk.files (join (instance_dir base req.name) (codes "workdir"))
        ≡ some (T.write_text req.workdir)
    pub policy_there :
        w.disk.files (join (instance_dir base req.name) (codes "policy.yaml")) ≡ some yaml
    pub serialised : C.to_yaml req.policy ≡ ok yaml

  -- A world with these files answers `exec` with them.
  pub exec-IsKeptAt :
      (L : IsLawful C) (base : Text) (req : CreateRequest) (cmd : ExecRequest) (w : World C.Doc Out)
      → IsPlainName req.name
      → cmd.runtime_id ≡ runtime_id_of (profile_path base req.name)
      → IsKeptAt base req w
      → exec C T H run_child cmd w
        ≡ spawn_sandboxed C T H run_child
            (profile_path base req.name)
            req.policy
            req.workdir
            cmd.command
            cmd.env
            w
  unfolding exec
  exec-IsKeptAt L base req cmd w n e k =
      let path = profile_path base req.name in
      let dir = instance_dir base req.name in
      let found = parent-profile_path base req.name n in
      let parsed : parse_mac_runtime C T H run_child cmd.runtime_id w.disk
          ≡ ok (path, req.workdir) =
        ap (λ i. parse_mac_runtime C T H run_child i w.disk) e
        ∙ parse_kept C T H run_child base path w.disk
        ∙ ap (λ o. parse_path C T H run_child path o w.disk) found
        ∙ ap (λ r. ok (path, text_or C T H run_child r (codes ".")))
            (read-eq (join dir (codes "workdir")) _ w.disk k.workdir_there)
        ∙ ap (λ t. ok (path, t)) (T.read_text-write_text req.workdir) in
      let policy : stored_policy C T H run_child (parent path) w.disk ≡ req.policy =
        ap (λ o. stored_policy C T H run_child o w.disk) found
        ∙ ap (policy_or_default C T H run_child)
            (read-eq (join dir (codes "policy.yaml")) _ w.disk k.policy_there)
        ∙ ap (parsed_or_default C T H run_child)
            (L.from_yaml-to_yaml req.policy k.yaml k.serialised) in
      ap
        (λ r.
          after r
            (λ (p, d).
              spawn_sandboxed C T H run_child p (stored_policy C T H run_child (parent p) w.disk) d
                cmd.command cmd.env)
            w)
        parsed
      ∙ ap (λ p. spawn_sandboxed C T H run_child path p req.workdir cmd.command cmd.env w) policy

  -- What `create` asks for where it keeps a sandbox.
  pub record IsKeepable (base : Text) (req : CreateRequest) (w : World C.Doc Out) : Type 0 where
    pub plain : IsPlainName req.name
    pub stays : req.ephemeral ≡ false
    pub idle : req.command ≡ []
    pub yaml : C.Doc
    pub serialised : C.to_yaml req.policy ≡ ok yaml
    pub policy_writable :
        w.disk.writable (join (instance_dir base req.name) (codes "policy.yaml")) ≡ true
    pub workdir_apart :
        (path : Text)
        → H.temp_file ≡ ok path
        → join (instance_dir base req.name) (codes "workdir") ≢ path
    pub policy_apart :
        (path : Text)
        → H.temp_file ≡ ok path
        → join (instance_dir base req.name) (codes "policy.yaml") ≢ path

  -- The files behind the branch that keeps the profile.
  pub keep-files :
      (base profile : Text) (req : CreateRequest) (w : World C.Doc Out) (yaml : C.Doc)
      {res : CreateResult}
      → (keep C T H run_child base profile req w).0 ≡ ok res
      → C.to_yaml req.policy ≡ ok yaml
      → w.disk.writable (join (instance_dir base req.name) (codes "policy.yaml")) ≡ true
      → IsKeptAt base req (keep C T H run_child base profile req w).1
        × (res.runtime_id ≡ runtime_id_of (profile_path base req.name))
  unfolding keep write_policy profile_path
  keep-files base profile req w yaml {res} e y may =
      let dir = instance_dir base req.name in
      let made = on_disk C T H run_child (create_dir_all dir) in
      let (_, _, to_1) = >>=-reaches made _ w e in
      let w1 = (made w).1 in
      let put_profile =
        on_disk C T H run_child (write (join dir (codes "profile.sb")) (T.write_text profile)) in
      let (_, _, to_2) = >>=-reaches put_profile _ w1 (ap (λ x. x.0) (sym to_1) ∙ e) in
      let w2 = (put_profile w1).1 in
      let put_workdir =
        on_disk C T H run_child (write (join dir (codes "workdir")) (T.write_text req.workdir)) in
      let (_, wrote, to_3) = >>=-reaches put_workdir _ w2 (ap (λ x. x.0) (sym (to_1 ∙ to_2)) ∙ e) in
      let w3 = (put_workdir w2).1 in
      let file = join dir (codes "policy.yaml") in
      let result : CreateResult = record {
        name = req.name;
        mechanism = mac;
        runtime_id = runtime_id_of (profile_path base req.name);
        proxy_port = port_of H.proxy_port;
        log_path = none;
        exit_code = none;
      } in
      let w4 : World C.Doc Out = record w3 { disk = (write file yaml w3.disk).1 } in
      let done : keep C T H run_child base profile req w ≡ (ok result, w4) =
        to_1 ∙ to_2 ∙ to_3 ∙ ap (λ r. (write_yaml C T H run_child file r >> pure result) w3) y in
      let may_3 =
        ap (λ f. f file)
          (write-same_writable _ _ w2.disk
            ∙ write-same_writable _ _ w1.disk
            ∙ create_dir_all-same_writable dir w.disk)
        ∙ may in
      let kept : IsKeptAt base req w4 = record {
        yaml = yaml;
        workdir_there =
            write-files_ne file (join dir (codes "workdir")) yaml w3.disk
              (file-ne dir dir b'w' b'p' (codes "orkdir") (codes "olicy.yaml") (λ q. ground arith))
            ∙ write-ok (join dir (codes "workdir")) (T.write_text req.workdir) w2.disk
                (map_err-eq-ok message _ wrote);
        policy_there = write-writable file yaml w3.disk may_3;
        serialised = y;
      } in
      (
        subst (λ x. IsKeptAt base req x.1) (sym done) kept,
        ap (λ r. r.runtime_id) (ok-injective (sym e ∙ ap (λ x. x.0) done)),
      )

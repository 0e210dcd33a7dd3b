-- ===== src/Seatbelt/Removal.antt =====
-- What the macOS backend removes (crates/sandbox-mech-mac/src/lib.rs): the directory of the sandbox, in
-- which the index of the store is not.
use simple_sandbox_public.Prelude.{◌≡◌, refl, ap, ◌∙◌, ◌⊎◌, inl, inr, ◌++◌, Text, text_eq}
use simple_sandbox_public.Result.{ok}
use simple_sandbox_public.Exec.{Exec}
use simple_sandbox_public.Text.{codes, strip_prefix}
use simple_sandbox_public.FilePath.{join, parent}
use simple_sandbox_public.FilePath.Parent.{IsPlainName}
use simple_sandbox_public.Disk.{Disk, remove_dir_all, remove_dir_all-files_apart}
use simple_sandbox_public.Codec.{Codec}
use simple_sandbox_public.Store.Files.{index_path}
use simple_sandbox_public.Mechanism.{World, ExitStatus}
use simple_sandbox_public.Seatbelt.{Host, Child}
use simple_sandbox_public.Seatbelt.Instances.{
  Texts, instance_dir, profile_path, runtime_id_of, parse_path, parse_mac_runtime, remove_parsed,
  remove_parent, remove,
}
use simple_sandbox_public.Seatbelt.Paths.{
  parent-profile_path, instance_dir-apart, instance_dir-open,
}

-- The runtime identifiers that the backend makes: of a kept profile, or of a command's run.
abbrev pub Owns : Text → Text → Type 0
Owns root id =
    ((name : Text) × IsPlainName name
      × (id ≡ runtime_id_of (profile_path (join root (codes "mac")) name)))
    ⊎ ((name : Text) × (id ≡ codes "mac-ephemeral:" ++ name))

module _ (C : Codec) {Out : Type 0} (T : Texts C.Doc) (H : Host)
    (run_child : Child → Exec (World C.Doc Out) Text ExitStatus) (root : Text) where
  pub parse_kept :
      (path : Text) (d : Disk C.Doc)
      → parse_mac_runtime C T H run_child (runtime_id_of path) d
        ≡ parse_path C T H run_child path (parent path) d
  unfolding parse_mac_runtime runtime_id_of strip_prefix
  parse_kept path d = refl

  remove_kept :
      (name : Text) (w : World C.Doc Out)
      → IsPlainName name
      → remove C T H run_child (runtime_id_of (profile_path (join root (codes "mac")) name)) w ≡ (
        ok tt,
        record w { disk = remove_dir_all (instance_dir (join root (codes "mac")) name) w.disk },
      )
  unfolding remove
  remove_kept name w h =
      let base = join root (codes "mac") in
      let path = profile_path base name in
      let found = parent-profile_path base name h in
      ap (λ r. remove_parsed C T H run_child r w)
        (parse_kept path w.disk ∙ ap (λ o. parse_path C T H run_child path o w.disk) found)
      ∙ ap (λ o. (ok tt, remove_parent C T H run_child o w)) found

  remove_run :
      (name : Text) (w : World C.Doc Out)
      → remove C T H run_child (codes "mac-ephemeral:" ++ name) w ≡ (ok tt, w)
  unfolding remove parse_mac_runtime strip_prefix
  remove_run name w = refl

  pub remove-leaves :
      (id : Text) (w : World C.Doc Out)
      → Owns root id
      → (remove C T H run_child id w).1.disk.files (index_path root)
        ≡ w.disk.files (index_path root)
  remove-leaves id w (inl (name, n, e)) = rw e (
      rw (remove_kept name w n) (
        remove_dir_all-files_apart (instance_dir (join root (codes "mac")) name) (index_path root)
          w.disk (instance_dir-apart root name n)
          (instance_dir-open (join root (codes "mac")) name n)))
  remove-leaves id w (inr (name, e)) = rw e (rw (remove_run name w) refl)

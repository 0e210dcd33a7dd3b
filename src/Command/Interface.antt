-- ===== src/Command/Interface.antt =====
-- What the commands ask of the backends, and the rules by which their steps keep the store sound
-- (crates/ssbx/src/main.rs).
use simple_sandbox_public.Prelude.{◌≡◌, Option, ◌++◌, Text}
use simple_sandbox_public.Result.{Result}
use simple_sandbox_public.Exec.{Exec, lift}
use simple_sandbox_public.Exec.Keeps.{Gives, Keeps, Gives-any, Keeps-lift, Keeps-map_error}
use simple_sandbox_public.Text.{codes}
use simple_sandbox_public.FilePath.{join}
use simple_sandbox_public.Disk.{Disk}
use simple_sandbox_public.Policy.{MechanismKind, podman, mac, krun, auto}
use simple_sandbox_public.Policy.Mechanism.{resolve_mechanism}
use simple_sandbox_public.Codec.{IsLawful}
use simple_sandbox_public.Mechanism.{MechanismError, Leaves}
use simple_sandbox_public.Krun
use simple_sandbox_public.Store.Files
use simple_sandbox_public.Store.Files.{index_path, policy_io}
use simple_sandbox_public.Store.Files.Soundness.{IsKept, same_files-IsKept}
use simple_sandbox_public.Command.{CommandError, state_failed, mechanism_failed}
use simple_sandbox_public.Command.Sandboxes.{
  Setting, W, zoom, on_disk, by_backend, reading, boxed, mech_box, or_name,
}
use simple_sandbox_public.Command.Stored.{
  Commands, create, run, exec, shell, policy_get, policy_set, ls, rm, logs, doctor,
}

-- The runtime identifiers of a resolved kind, and of a record's kind. The stub makes none.
abbrev pub OwnedAt : (OwnsPodman OwnsMac : Text → Type 0) → MechanismKind → Text → Type 0
OwnedAt OwnsPodman OwnsMac podman id = OwnsPodman id
OwnedAt OwnsPodman OwnsMac auto id = OwnsPodman id
OwnedAt OwnsPodman OwnsMac mac id = OwnsMac id
OwnedAt OwnsPodman OwnsMac krun id = ⊥

module _ {Out : Type 0} (S : Setting Out) (IsName OwnsPodman OwnsMac : Text → Type 0) where
  abbrev pub OwnedBy : MechanismKind → Text → Type 0
  OwnedBy kind id = OwnedAt OwnsPodman OwnsMac (resolve_mechanism S.os kind) id

  -- What is asked of the serialisers and of the backends: they leave the index file as it is.
  pub record IsRespectful : Type 0 where
    pub lawful : IsLawful S.codec
    pub podman_leaves :
        (port : Option Text)
        → Leaves (index_path S.root) IsName OwnsPodman (S.backends.podman_mechanism port)
    pub mac_leaves :
        (port : Option Text)
        → Leaves
            (index_path S.root)
            IsName
            OwnsMac
            (S.backends.mac_mechanism port (join S.root (codes "mac")))
    pub image_leaves :
        (w : W S)
        → (S.backends.ensure_image w).disk.files (index_path S.root)
          ≡ w.disk.files (index_path S.root)

  -- The name of a new sandbox is one that the backends bear.
  abbrev pub IsNamed : Commands → Type 0
  IsNamed (create fresh now name path o) = IsName (or_name name (codes "default"))
  IsNamed (run stamp name path o command) = IsName (or_name name (codes "run-" ++ stamp))
  IsNamed (exec name command) = Unit
  IsNamed (shell name) = Unit
  IsNamed (policy_get name) = Unit
  IsNamed (policy_set name path) = Unit
  IsNamed ls = Unit
  IsNamed (rm name) = Unit
  IsNamed (logs name tail) = Unit
  IsNamed (doctor mechanism) = Unit

  -- The store is sound, and every record's runtime identifier is of its backend's making.
  abbrev pub IsSoundWorld : W S → Type 0
  IsSoundWorld w = IsKept S.codec S.root OwnedBy w.disk

  module _ (R : IsRespectful) where
    boxed-Leaves :
        (port : Option Text) (kind : MechanismKind)
        → Leaves (index_path S.root) IsName (OwnedAt OwnsPodman OwnsMac kind) (boxed S port kind)
    boxed-Leaves port podman = R.podman_leaves port
    boxed-Leaves port auto = R.podman_leaves port
    boxed-Leaves port mac = R.mac_leaves port
    boxed-Leaves port krun = Krun.mechanism-Leaves (index_path S.root) IsName

    pub mech_box-Leaves :
        (port : Option Text) (kind : MechanismKind)
        → Leaves (index_path S.root) IsName (OwnedBy kind) (mech_box S port kind)
    unfolding mech_box
    mech_box-Leaves port kind = boxed-Leaves port (resolve_mechanism S.os kind)

    zoom-Keeps :
        {E A : Type 0} {Q : A → Type 0} {m : Exec (Disk S.codec.Doc) E A}
        → Keeps (IsKept S.codec S.root OwnedBy) Q m
        → Keeps IsSoundWorld Q (zoom S m)
    zoom-Keeps k = record { at = λ w h. k.at w.disk h }

    pub on_disk-Keeps :
        {A : Type 0} {Q : A → Type 0} {m : Files.Store S.codec S.root A}
        → Keeps (IsKept S.codec S.root OwnedBy) Q m
        → Keeps IsSoundWorld Q (on_disk S m)
    on_disk-Keeps k = Keeps-map_error state_failed _ (zoom-Keeps k)

    -- What leaves the index file as it is.
    pub leaving-Keeps :
        {E A : Type 0} (Q : A → Type 0) (m : Exec (W S) E A)
        → ((w : W S)
            → ((m w).1.disk.files (index_path S.root) ≡ w.disk.files (index_path S.root))
              × Gives Q (m w).0)
        → Keeps IsSoundWorld Q m
    leaving-Keeps Q m k = record {
      at = λ w h.
          let (same, q) = k w in
          (same_files-IsKept S.codec S.root OwnedBy w.disk (m w).1.disk same h, q);
    }

    pub by_backend-Keeps :
        {A : Type 0} (Q : A → Type 0) (m : Exec (W S) MechanismError A)
        → ((w : W S)
            → ((m w).1.disk.files (index_path S.root) ≡ w.disk.files (index_path S.root))
              × Gives Q (m w).0)
        → Keeps IsSoundWorld Q (by_backend S m)
    by_backend-Keeps Q m k = Keeps-map_error mechanism_failed _ (leaving-Keeps Q m k)

    pub reading-Keeps :
        {A : Type 0} (f : Disk S.codec.Doc → Result CommandError A)
        → Keeps IsSoundWorld (λ _. Unit) (reading S f)
    reading-Keeps f = record { at = λ w h. (h, Gives-any (f w.disk)) }

    pub lift-Keeps :
        {A : Type 0} (r : Result CommandError A) → Keeps IsSoundWorld (λ _. Unit) (lift r)
    lift-Keeps r = Keeps-lift r λ a e. tt

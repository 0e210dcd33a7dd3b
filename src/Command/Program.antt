-- ===== src/Command/Program.antt =====
-- The program with the backends of the repository (crates/ssbx/src/main.rs): the commands over the
-- Podman and the macOS backend, where only the container binary and the children are outside.
use simple_sandbox_public.Prelude.{◌≡◌, ◌≢◌, Option, none, some, List, Text, All}
use simple_sandbox_public.Result.{ok}
use simple_sandbox_public.Exec.{Exec}
use simple_sandbox_public.FilePath.Parent.{IsPlainName}
use simple_sandbox_public.Codec.{Codec, IsLawful}
use simple_sandbox_public.Mechanism.{World, ExitStatus}
use simple_sandbox_public.Podman
use simple_sandbox_public.Podman.Engine.{Machine, default_image, ensure_image}
use simple_sandbox_public.Podman.Containers
use simple_sandbox_public.Podman.Safety as PodmanSafety
use simple_sandbox_public.Podman.Safety.{podman-Leaves, ensure_image-leaves}
use simple_sandbox_public.Seatbelt
use simple_sandbox_public.Seatbelt.{Child}
use simple_sandbox_public.Seatbelt.Instances
use simple_sandbox_public.Seatbelt.Instances.{Texts}
use simple_sandbox_public.Seatbelt.Removal.{Owns}
use simple_sandbox_public.Seatbelt.Safety.{mechanism-Leaves}
use simple_sandbox_public.Store.Files.{index_path}
use simple_sandbox_public.Command.Sandboxes.{Backends, Setting, W}
use simple_sandbox_public.Command.Stored.{Commands, dispatch_all}
use simple_sandbox_public.Command.Interface.{IsRespectful, IsNamed, IsSoundWorld}
use simple_sandbox_public.Command.Reach.{dispatch_all-IsSoundWorld}
use simple_sandbox_public.Command.Output.{Printer}
use simple_sandbox_public.Command.Main.{Cli, Draw}
use simple_sandbox_public.Command.Runs.{
  main_all, IsUsableWorld, StaysSound, IsRun, main_all-StaysSound,
}

-- What the two backends find outside of the program.
pub record Outside (C : Codec) (Out : Type 0) : Type 0 where
  pub podman_host : Podman.Host
  pub machine : Machine (World C.Doc Out)
  pub mac_host : Seatbelt.Host
  pub texts : Texts C.Doc
  pub run_child : Child → Exec (World C.Doc Out) Text ExitStatus

module _ {Out : Type 0} (C : Codec) (E : Outside C Out) where
  -- `PodmanMechanism::new()` has no binary of its own.
  abbrev pub detected : Machine (World C.Doc Out)
  detected = record E.machine { binary = none }

  unfoldable pub backends_of : Backends (World C.Doc Out)
  backends_of = record {
    podman_mechanism = λ port.
        Containers.mechanism (record E.podman_host { proxy_port = port }) detected default_image;
    mac_mechanism = λ port dir.
        Instances.mechanism C E.texts (record E.mac_host { proxy_port = port }) E.run_child
          (some dir);
    ensure_image = λ w. (ensure_image E.podman_host detected default_image w).1;
  }

  -- What is asked of the outside: the container binary and the children leave the index of the store
  -- alone, and no temporary file has its path.
  pub record IsApart (root : Text) : Type 0 where
    pub binary_apart : PodmanSafety.IsApart E.podman_host detected default_image (index_path root)
    pub child_leaves :
        (c : Child) (w : World C.Doc Out)
        → (E.run_child c w).1.disk.files (index_path root) ≡ w.disk.files (index_path root)
    pub temp_apart : (path : Text) → E.mac_host.temp_file ≡ ok path → index_path root ≢ path

-- A setting with these backends.
abbrev pub linked : {Out : Type 0} (S : Setting Out) → Outside S.codec Out → Setting Out
linked S E = record S { backends = backends_of S.codec E }

module _ {Out : Type 0} (S : Setting Out) (E : Outside S.codec Out) (L : IsLawful S.codec)
    (A : IsApart S.codec E S.root) where
  pub linked-IsRespectful : IsRespectful (linked S E) IsPlainName (λ id. Unit {0}) (Owns S.root)
  unfolding backends_of
  linked-IsRespectful = record {
    lawful = L;
    podman_leaves = λ port.
        podman-Leaves (record E.podman_host { proxy_port = port }) (detected S.codec E)
          default_image (index_path S.root) IsPlainName
          (record {
            output_leaves = A.binary_apart.output_leaves;
            status_leaves = A.binary_apart.status_leaves;
          });
    mac_leaves = λ port.
        mechanism-Leaves S.codec E.texts (record E.mac_host { proxy_port = port }) E.run_child
          S.root (record { child_leaves = A.child_leaves; temp_apart = A.temp_apart });
    image_leaves = λ w.
        ensure_image-leaves E.podman_host (detected S.codec E) default_image (index_path S.root)
          A.binary_apart w;
  }

  -- With the repository's own backends, whatever commands follow one another, and whichever of them
  -- fail, a sound store stays sound. New sandboxes have plain names, the serialisers are lawful, and
  -- the container binary, the children and the temporary files leave the store's index alone.
  pub dispatch_all-linked :
      (cs : List Commands) (w : W (linked S E))
      → All (IsNamed (linked S E) IsPlainName (λ id. Unit {0}) (Owns S.root)) cs
      → IsSoundWorld (linked S E) IsPlainName (λ id. Unit {0}) (Owns S.root) w
      → IsSoundWorld
          (linked S E)
          IsPlainName
          (λ id. Unit {0})
          (Owns S.root)
          (dispatch_all (linked S E) cs w)
  dispatch_all-linked cs w n h =
      dispatch_all-IsSoundWorld (linked S E) IsPlainName (λ id. Unit {0}) (Owns S.root)
        linked-IsRespectful cs w n h

  -- With the repository's own backends, whatever runs of the program follow one another, and
  -- whichever of them fail, a sound store stays sound, and a directory that had no index has none
  -- yet or a sound store: an index file that is read back and is well-formed, with runtime
  -- identifiers of the backends' making. The runs use that directory, new sandboxes have plain
  -- names, the serialisers are lawful, and the container binary, the children and the temporary
  -- files leave the store's index alone.
  pub main_all-linked :
      (P : Printer S.codec.Doc) (base : Option Text) (runs : List (Draw × Cli)) (w : W (linked S E))
      (h : IsUsableWorld
        (linked S E)
        IsPlainName
        (λ id. Unit {0})
        (Owns S.root)
        linked-IsRespectful
        P
        w)
      → All
          (IsRun (linked S E) IsPlainName (λ id. Unit {0}) (Owns S.root) linked-IsRespectful P base)
          runs
      → StaysSound
          (linked S E)
          IsPlainName
          (λ id. Unit {0})
          (Owns S.root)
          linked-IsRespectful
          P
          w
          h
          (main_all (linked S E) P base runs w)
  main_all-linked P base runs w h n =
      main_all-StaysSound (linked S E) IsPlainName (λ id. Unit {0}) (Owns S.root)
        linked-IsRespectful P base runs w h n

-- ===== src/Disk.antt =====
-- The file system, as far as the program uses it: the contents of the files by their paths, the
-- directories that were made, and where the host refuses to write. A write takes place, or fails
-- and changes nothing. Contents are documents of a type that the serialisers bring.
use simple_sandbox_public.Prelude.{
  ◌≡◌, Bool, true, false, not, ◌&&◌, ◌||◌, ◌≢◌, Option, none, some, List, [], ◌∷◌, ◌++◌, Text,
  text_eq, ◌==◌, if◌then◌else◌, arith,
}
use simple_sandbox_public.Result.{ok, err}
use simple_sandbox_public.Exec.{Exec}
use simple_sandbox_public.Text.{codes, is_empty, starts_with}
use simple_sandbox_public.FilePath.{ends_with_separator}

pub record Disk (Doc : Type 0) : Type 0 where
  pub files : Text → Option Doc
  pub writable : Text → Bool
  pub directories : List Text

-- The message of a `std::io::Error`.
abbrev pub IoError : Type 0
IoError = Text

pub not_readable : IoError
not_readable = codes "No such file or directory"

pub not_writable : IoError
not_writable = codes "Permission denied"

-- Whether a file is below a directory.
abbrev pub is_below : Text → Text → Bool
is_below p q = starts_with (p ++ b'/' ∷ []) q || (ends_with_separator p && starts_with p q)

module _ {Doc : Type 0} where
  abbrev pub update : (Text → Option Doc) → Text → Option Doc → Text → Option Doc
  update f p v q = if q == p then v else f q

  -- `fs::read_to_string`
  unfoldable pub read : Text → Exec (Disk Doc) IoError Doc
  read p d = elim (d.files p) [ none ↦ (err not_readable, d) | some v ↦ (ok v, d) ]

  -- `fs::write`
  unfoldable pub write : Text → Doc → Exec (Disk Doc) IoError (Unit {0})
  write p v d =
      if d.writable p
      then (ok tt, record d { files = update d.files p (some v) })
      else (err not_writable, d)

  -- `fs::remove_file`, its result ignored.
  unfoldable pub remove_file : Text → Disk Doc → Disk Doc
  remove_file p d = if d.writable p then record d { files = update d.files p none } else d

  -- `fs::remove_dir_all`, its result ignored: what is below the directory. The empty path is none.
  unfoldable pub remove_dir_all : Text → Disk Doc → Disk Doc
  remove_dir_all p d =
      if d.writable p && not (is_empty p)
      then record d { files = λ q. if is_below p q then none else d.files q }
      else d

  -- `fs::create_dir_all`
  unfoldable pub create_dir_all : Text → Exec (Disk Doc) IoError (Unit {0})
  create_dir_all p d =
      if d.writable p
      then (ok tt, record d { directories = p ∷ d.directories })
      else (err not_writable, d)

  -- `Path::exists` for a file.
  unfoldable pub exists : Text → Disk Doc → Bool
  exists p d = elim (d.files p) [ none ↦ false | some v ↦ true ]

  -- A read changes nothing.
  pub read-disk : (p : Text) (d : Disk Doc) → (read p d).1 ≡ d
  unfolding read
  read-disk p d = ground arith

  pub create_dir_all-files : (p : Text) (d : Disk Doc) → (create_dir_all p d).1.files ≡ d.files
  unfolding create_dir_all
  create_dir_all-files p d = ground arith

  -- The other files stay as they are.
  pub write-files_ne :
      (p q : Text) (v : Doc) (d : Disk Doc) → q ≢ p → (write p v d).1.files q ≡ d.files q
  unfolding write
  write-files_ne p q v d h = ground arith

  pub remove_file-files_ne :
      (p q : Text) (d : Disk Doc) → q ≢ p → (remove_file p d).files q ≡ d.files q
  unfolding remove_file
  remove_file-files_ne p q d h = ground arith

  -- A file that is not below the directory is not removed with it.
  pub remove_dir_all-files_apart :
      (p q : Text) (d : Disk Doc)
      → starts_with (p ++ b'/' ∷ []) q ≡ false
      → ends_with_separator p ≡ false
      → (remove_dir_all p d).files q ≡ d.files q
  unfolding remove_dir_all
  remove_dir_all-files_apart p q d h o = ground arith

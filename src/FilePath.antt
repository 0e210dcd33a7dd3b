-- ===== src/FilePath.antt =====
-- What the program uses of Rust's `Path` and `PathBuf` on Unix, over texts.
pub mod Parent
use mathlib.Core.List.{reverse}
use simple_sandbox_public.Prelude.{
  ℕ, ◌≡◌, refl, ap, sym, ◌∙◌, Option, none, some, Bool, false, [], ◌∷◌, ◌++◌, append_assoc, Text,
  ◌==ℕ◌, ◌==◌, text_eq, ◌&&◌, ◌||◌, if◌then◌else◌, Bool-cases, inl, inr, arith,
}
use simple_sandbox_public.Text.{is_empty, codes}

-- `Path::is_absolute`
unfoldable pub is_absolute : Text → Bool
is_absolute [] = false
is_absolute (c ∷ p) = c ==ℕ b'/'

-- Whether the last character is the separator.
unfoldable pub ends_with_separator : Text → Bool
ends_with_separator [] = false
ends_with_separator (c ∷ []) = c ==ℕ b'/'
ends_with_separator (c ∷ d ∷ p) = ends_with_separator (d ∷ p)

-- `Path::join`: an absolute path replaces the first, and one separator stands between the two.
unfoldable pub join : Text → Text → Text
unfolding is_absolute ends_with_separator
join a b =
    if is_absolute b
    then b
    else if is_empty a
    then b
    else if ends_with_separator a
    then a ++ b
    else a ++ b'/' ∷ b

-- A joined path ends with the path that was joined to it.
pub join-suffix : (a b : Text) → (p : Text) × (join a b ≡ p ++ b)
join-suffix a b = elim (Bool-cases (is_absolute b)) [
  | inl e ↦ ([], unfold join in ground arith)
  | inr e ↦ elim (Bool-cases (is_empty a)) [
    | inl f ↦ ([], unfold join in ground arith)
    | inr f ↦ elim (Bool-cases (ends_with_separator a)) [
      | inl g ↦ (a, unfold join in ground arith)
      | inr g ↦ (a ++ b'/' ∷ [], unfold join in ground (arith, append_assoc a (b'/' ∷ []) b))
    ]
  ]
]

-- Paths with different ends differ.
abbrev pub last_char : Text → Option ℕ
last_char [] = none
last_char (c ∷ []) = some c
last_char (c ∷ d ∷ s) = last_char (d ∷ s)

pub last_char-append : (p : Text) (c : ℕ) (s : Text) → last_char (p ++ c ∷ s) ≡ last_char (c ∷ s)
last_char-append [] c s = refl
last_char-append (d ∷ []) c s = refl
last_char-append (d ∷ e ∷ p) c s = last_char-append (e ∷ p) c s

pub last_char-join :
    (a b : Text) (c : ℕ) (s : Text) → last_char (join a (b ++ c ∷ s)) ≡ last_char (c ∷ s)
last_char-join a b c s =
    let (p, e) = join-suffix a (b ++ c ∷ s) in
    ap last_char (e ∙ sym (append_assoc p b (c ∷ s))) ∙ last_char-append (p ++ b) c s

-- The last component of a path: `found` is the last one so far, `current` what is read of the next.
settle : Text → Text → Text
settle found current = if is_empty current || current == codes "." then found else current

last_component : Text → Text → Text → Text
last_component found current [] = settle found current
last_component found current (c ∷ s) =
    let ends = c ==ℕ b'/' in
    last_component (if ends then settle found current else found)
      (if ends then [] else current ++ c ∷ []) s

-- `Path::file_name`
unfoldable pub file_name : Text → Option Text
unfolding last_component settle
file_name p =
    let name = last_component [] [] p in
    if is_empty name || name == codes ".." then none else some name

file_name_test : file_name (codes "/srv/data/./") ≡ some (codes "data")
unfolding file_name text_eq
file_name_test = refl

-- A reversed path without the separators and the dots at its end; the root stays.
unfoldable pub trim_end : Text → Text
trim_end [] = []
trim_end (c ∷ r) =
    let t = trim_end r in
    if c ==ℕ b'/'
    then if is_empty r then c ∷ [] else t
    else if c ==ℕ b'.' && is_absolute r
    then t
    else c ∷ r

-- A reversed path without its last component.
unfoldable pub drop_component : Text → Text
drop_component [] = []
drop_component (c ∷ r) = let rest = drop_component r in if c ==ℕ b'/' then c ∷ r else rest

-- `Path::parent`
unfoldable pub parent : Text → Option Text
unfolding trim_end drop_component
parent p =
    let r = trim_end (reverse p) in
    if is_empty r || r == codes "/" then none else some (reverse (trim_end (drop_component r)))

parent_test : parent (codes "/a//b/./") ≡ some (codes "/a")
unfolding parent text_eq is_absolute
parent_test = refl

parent_root_test : parent (codes "/./") ≡ none
unfolding parent text_eq is_absolute
parent_root_test = refl

parent_single_test : parent (codes "a") ≡ some []
unfolding parent text_eq is_absolute
parent_single_test = refl

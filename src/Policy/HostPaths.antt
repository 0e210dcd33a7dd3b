-- ===== src/Policy/HostPaths.antt =====
-- `resolve_host_paths` (crates/sandbox-policy/src/lib.rs), with the comparison of paths by their
-- components that `Path` makes.
use simple_sandbox_public.Prelude.{
  ◌≡◌, refl, inl, inr, Bool, true, false, not, ◌&&◌, ◌||◌, List, [], ◌∷◌, ◌++◌, map, Text, text_eq,
  ◌==◌, ◌==ℕ◌, if◌then◌else◌, arith, All, All-append, Bool-cases,
}
use simple_sandbox_public.Text.{codes, is_empty}
use simple_sandbox_public.FilePath.{is_absolute, ends_with_separator, join}
use simple_sandbox_public.Policy.{FilesystemPolicy}

-- The pieces between the separators; `current` is what is read of the first.
pieces : Text → Text → List Text
pieces current [] = current ∷ []
pieces current (c ∷ s) =
    let ends = c ==ℕ b'/' in
    let rest = pieces (if ends then [] else current ++ c ∷ []) s in
    if ends then current ∷ rest else rest

drop_dots : List Text → List Text
drop_dots [] = []
drop_dots (p ∷ ps) =
    let rest = drop_dots ps in if is_empty p || p == codes "." then rest else p ∷ rest

-- A leading dot counts.
keep_first : List Text → List Text
unfolding drop_dots
keep_first [] = []
keep_first (p ∷ ps) = if p == codes "." then p ∷ drop_dots ps else drop_dots (p ∷ ps)

parts : Text → List Text
unfolding pieces keep_first
parts p = keep_first (pieces [] p)

same_parts : List Text → List Text → Bool
same_parts [] [] = true
same_parts [] (q ∷ qs) = false
same_parts (p ∷ ps) [] = false
same_parts (p ∷ ps) (q ∷ qs) = p == q && same_parts ps qs

-- `==` of `PathBuf`
unfoldable pub same_path : Text → Text → Bool
unfolding parts same_parts
same_path a b =
    (if is_absolute a then is_absolute b else not (is_absolute b)) && same_parts (parts a) (parts b)

-- The closure `resolve`.
unfoldable pub resolve : Text → Text → Text
resolve workdir p = if is_absolute p then p else join workdir p

-- `rw.iter().any(|p| p == &ws)`
unfoldable pub has_path : Text → List Text → Bool
has_path ws [] = false
has_path ws (p ∷ ps) = same_path p ws || has_path ws ps

-- The workspace is added, if it is not there.
unfoldable pub with_workspace : Text → List Text → List Text
with_workspace ws rw = if has_path ws rw then rw else rw ++ ws ∷ []

unfoldable pub resolve_host_paths : FilesystemPolicy → Text → List Text × List Text
resolve_host_paths fs workdir =
    let rw = map (resolve workdir) fs.read_write in
    (map (resolve workdir) fs.read_only, if fs.workdir then with_workspace workdir rw else rw)

abbrev pub IsAbsolute : Text → Type 0
IsAbsolute p = is_absolute p ≡ true

join-IsAbsolute : (a b : Text) → IsAbsolute a → IsAbsolute (join a b)
unfolding join
join-IsAbsolute [] b h = absurd (unfold is_absolute in ground arith)
join-IsAbsolute (c ∷ a) b h = elim (Bool-cases (is_absolute b)) [
  | inl e ↦ rw e e
  | inr e ↦ elim (Bool-cases (ends_with_separator (c ∷ a))) [
    | inl f ↦ rw (e, f) (unfold is_absolute in h)
    | inr f ↦ rw (e, f) (unfold is_absolute in h)
  ]
]

resolve-IsAbsolute : (workdir p : Text) → IsAbsolute workdir → IsAbsolute (resolve workdir p)
unfolding resolve
resolve-IsAbsolute workdir p h = elim (Bool-cases (is_absolute p)) [
  | inl e ↦ rw e e
  | inr e ↦ rw e (join-IsAbsolute workdir p h)
]

resolved-IsAbsolute :
    (workdir : Text) (ps : List Text)
    → IsAbsolute workdir
    → All IsAbsolute (map (resolve workdir) ps)
resolved-IsAbsolute workdir [] h = tt
resolved-IsAbsolute workdir (p ∷ ps) h =
    (resolve-IsAbsolute workdir p h, resolved-IsAbsolute workdir ps h)

same_parts_self : (ps : List Text) → same_parts ps ps ≡ true
unfolding same_parts
same_parts_self [] = refl
same_parts_self (p ∷ ps) = ground (arith, same_parts_self ps)

same_path_self : (p : Text) → same_path p p ≡ true
unfolding same_path
same_path_self p = ground (arith, same_parts_self (parts p))

has_path_last : (ws : Text) (ps : List Text) → has_path ws (ps ++ ws ∷ []) ≡ true
unfolding has_path
has_path_last ws [] = rw (same_path_self ws)
has_path_last ws (p ∷ ps) = ground (arith, has_path_last ws ps)

with_workspace-has_path : (ws : Text) (ps : List Text) → has_path ws (with_workspace ws ps) ≡ true
unfolding with_workspace
with_workspace-has_path ws ps = elim (Bool-cases (has_path ws ps)) [
  | inl e ↦ rw (e, e)
  | inr e ↦ rw e (has_path_last ws ps)
]

with_workspace-IsAbsolute :
    (ws : Text) (ps : List Text)
    → IsAbsolute ws
    → All IsAbsolute ps
    → All IsAbsolute (with_workspace ws ps)
unfolding with_workspace
with_workspace-IsAbsolute ws ps h hs = elim (Bool-cases (has_path ws ps)) [
  | inl e ↦ rw e hs
  | inr e ↦ rw e (All-append IsAbsolute ps (ws ∷ []) hs (h, tt))
]

-- Under an absolute working directory every path that a policy resolves to, for reading or for
-- writing, is absolute, and if the policy grants the working directory it is one of the paths for
-- writing.
pub resolve_host_paths-IsAbsolute :
    (fs : FilesystemPolicy) (workdir : Text)
    → IsAbsolute workdir
    → All IsAbsolute (resolve_host_paths fs workdir).0
      × All IsAbsolute (resolve_host_paths fs workdir).1
      × (fs.workdir ≡ true → has_path workdir (resolve_host_paths fs workdir).1 ≡ true)
unfolding resolve_host_paths
resolve_host_paths-IsAbsolute fs workdir h =
    let rw_paths = resolved-IsAbsolute workdir fs.read_write h in
    (
      resolved-IsAbsolute workdir fs.read_only h,
      (elim (Bool-cases fs.workdir) [
        | inl e ↦ rw e (with_workspace-IsAbsolute workdir _ h rw_paths)
        | inr e ↦ rw e rw_paths
      ]),
      λ e. rw e (with_workspace-has_path workdir _),
    )

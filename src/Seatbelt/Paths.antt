-- ===== src/Seatbelt/Paths.antt =====
-- The paths of a sandbox of the macOS backend (crates/sandbox-mech-mac/src/lib.rs): where they lie,
-- and that they are apart from each other and from the index of the store.
use simple_sandbox_public.Prelude.{
  ℕ, ◌≡◌, refl, sym, ap, ◌∙◌, ◌≢◌, false, some, [], ◌∷◌, ◌++◌, append_assoc, Text, text_eq,
  Bool-cases, inl, inr, arith,
}
use simple_sandbox_public.Text.{codes, is_empty, strip_prefix, starts_with}
use simple_sandbox_public.Text.Laws.{Lacks}
use simple_sandbox_public.FilePath.{
  is_absolute, ends_with_separator, join, join-suffix, last_char, last_char-join, parent,
}
use simple_sandbox_public.FilePath.Parent.{IsPlainName, parent_of_profile}
use simple_sandbox_public.Store.Files.{index_path}
use simple_sandbox_public.Seatbelt.Instances.{instance_dir, profile_path}

-- The front that a path puts before what is joined to it.
join-front : (a : Text) → (q : Text) × ((b : Text) → is_absolute b ≡ false → join a b ≡ q ++ b)
unfolding join
join-front a = elim (Bool-cases (is_empty a)) [
  | inl f ↦ ([], λ b e. ground arith)
  | inr f ↦ elim (Bool-cases (ends_with_separator a)) [
    | inl g ↦ (a, λ b e. ground arith)
    | inr g ↦ (a ++ b'/' ∷ [], λ b e. ground (arith, append_assoc a (b'/' ∷ []) b))
  ]
]

-- A relative path is joined behind the first.
join-extends : (a b : Text) → is_absolute b ≡ false → (t : Text) × (join a b ≡ a ++ t)
unfolding join
join-extends [] b e = (b, ground arith)
join-extends (c ∷ a) b e = elim (Bool-cases (ends_with_separator (c ∷ a))) [
  | inl g ↦ (b, ground arith)
  | inr g ↦ (b'/' ∷ b, ground arith)
]

plain-relative : (name : Text) → IsPlainName name → is_absolute name ≡ false
unfolding is_absolute
plain-relative [] h = refl
plain-relative (c ∷ s) h = ground (arith, h.no_separator.0)

starts_with-front : (q a b : Text) → starts_with (q ++ a) (q ++ b) ≡ starts_with a b
unfolding starts_with strip_prefix
starts_with-front [] a b = refl
starts_with-front (c ∷ q) a b = ground (arith, starts_with-front q a b)

pub ends_with_separator-append :
    (p : Text) (c : ℕ) (s : Text) → ends_with_separator (p ++ c ∷ s) ≡ ends_with_separator (c ∷ s)
unfolding ends_with_separator
ends_with_separator-append [] c s = refl
ends_with_separator-append (d ∷ []) c s = refl
ends_with_separator-append (d ∷ e ∷ p) c s = ends_with_separator-append (e ∷ p) c s

Lacks-open : (c : ℕ) (s : Text) → Lacks b'/' (c ∷ s) → ends_with_separator (c ∷ s) ≡ false
unfolding ends_with_separator
Lacks-open c [] h = ground (arith, h.0)
Lacks-open c (d ∷ s) h = Lacks-open d s h.1

full : (p : Text) (c : ℕ) (s : Text) → is_empty (p ++ c ∷ s) ≡ false
full [] c s = refl
full (d ∷ p) c s = refl

join-file :
    (p name : Text)
    → IsPlainName name
    → join (p ++ name) (codes "profile.sb") ≡ (p ++ name) ++ codes "/profile.sb"
unfolding join is_absolute
join-file p [] h = absurd (h.nonempty refl)
join-file p (c ∷ s) h =
    rw (full p c s)
      (rw (ends_with_separator-append p c s) (rw (Lacks-open c s h.no_separator) refl))

-- The directory of a sandbox ends with its name.
pub instance_dir-open :
    (base name : Text) → IsPlainName name → ends_with_separator (instance_dir base name) ≡ false
unfolding instance_dir
instance_dir-open base [] h = absurd (h.nonempty refl)
instance_dir-open base (c ∷ s) h =
    let (p, e) = join-suffix (join base (codes "instances")) (c ∷ s) in
    ap ends_with_separator e ∙ ends_with_separator-append p c s ∙ Lacks-open c s h.no_separator

-- The directory of a sandbox is the parent of its profile.
pub parent-profile_path :
    (base name : Text)
    → IsPlainName name
    → parent (profile_path base name) ≡ some (instance_dir base name)
unfolding profile_path instance_dir
parent-profile_path base name h =
    let (p, e) = join-suffix (join base (codes "instances")) name in
    rw e (ap parent (join-file p name h) ∙ parent_of_profile p name h)

mac-relative : is_absolute (codes "mac") ≡ false
unfolding is_absolute
mac-relative = refl

instances-relative : is_absolute (codes "instances") ≡ false
unfolding is_absolute
instances-relative = refl

index-relative : is_absolute (codes "index.json") ≡ false
unfolding is_absolute
index-relative = refl

apart_from_index : (t : Text) → starts_with (codes "mac" ++ t) (codes "index.json") ≡ false
unfolding starts_with strip_prefix
apart_from_index t = refl

-- The index of the store is not below the directory of a sandbox.
pub instance_dir-apart :
    (root name : Text)
    → IsPlainName name
    → starts_with (instance_dir (join root (codes "mac")) name ++ b'/' ∷ []) (index_path root)
      ≡ false
unfolding instance_dir index_path
instance_dir-apart root name h =
    let (q, behind) = join-front root in
    let mac_dir = join root (codes "mac") in
    let (t, e) = join-extends mac_dir (codes "instances") instances-relative in
    let (u, f) = join-extends (join mac_dir (codes "instances")) name (plain-relative name h) in
    let below : join (join mac_dir (codes "instances")) name ++ b'/' ∷ []
        ≡ q ++ (codes "mac" ++ (t ++ (u ++ b'/' ∷ []))) =
      ap (λ x. x ++ b'/' ∷ [])
        (f ∙ ap (λ x. x ++ u) (e ∙ ap (λ x. x ++ t) (behind (codes "mac") mac-relative)))
      ∙ append_assoc ((q ++ codes "mac") ++ t) u (b'/' ∷ [])
      ∙ append_assoc (q ++ codes "mac") t (u ++ b'/' ∷ [])
      ∙ append_assoc q (codes "mac") (t ++ (u ++ b'/' ∷ [])) in
    rw (below, behind (codes "index.json") index-relative)
      (starts_with-front q (codes "mac" ++ (t ++ (u ++ b'/' ∷ []))) (codes "index.json")
        ∙ apart_from_index (t ++ (u ++ b'/' ∷ [])))

-- Files with different last characters are different files.
pub file-ne :
    (d d' : Text) (c c' : ℕ) (s s' : Text)
    → last_char (c ∷ s) ≢ last_char (c' ∷ s')
    → join d (c ∷ s) ≢ join d' (c' ∷ s')
file-ne d d' c c' s s' n e =
    n (sym (last_char-join d [] c s) ∙ ap last_char e ∙ last_char-join d' [] c' s')

-- ===== src/FilePath/Parent.antt =====
-- The parent of a path that ends with a plain name.
use mathlib.Core.List.{reverse, reverse-reverse, reverse-append}
use simple_sandbox_public.Prelude.{
  ◌≡◌, refl, sym, ap, ◌∙◌, ◌≢◌, false, some, [], ◌∷◌, ◌++◌, Text, text_eq, arith, All-reverse,
}
use simple_sandbox_public.Text.{codes, is_empty}
use simple_sandbox_public.Text.Laws.{Lacks}
use simple_sandbox_public.FilePath.{is_absolute, trim_end, drop_component, parent}

-- One component of a path that stands for itself.
pub record IsPlainName (name : Text) : Type 0 where
  pub nonempty : name ≢ []
  pub no_separator : Lacks b'/' name
  pub not_here : name ≢ codes "."
  pub not_parent : name ≢ codes ".."

-- In front of such a component, reversed, nothing is trimmed.
trim_end_plain :
    (r s : Text)
    → Lacks b'/' r
    → r ≢ []
    → r ≢ codes "."
    → (trim_end (r ++ s) ≡ r ++ s) × (is_empty (r ++ s) ≡ false)
unfolding trim_end is_absolute
trim_end_plain [] s l n h = absurd (n refl)
trim_end_plain (c ∷ []) s l n h =
    let other : c ≢ b'.' = λ e. h (ap (λ x. x ∷ []) e) in (ground arith, refl)
trim_end_plain (c ∷ e ∷ m) s l n h = (ground arith, refl)

parent_reversed :
    (x r : Text)
    → reverse x ≡ codes "bs.eliforp/" ++ r
    → trim_end r ≡ r
    → is_empty r ≡ false
    → parent x ≡ some (reverse r)
unfolding parent trim_end drop_component text_eq is_absolute
parent_reversed x r e t n = rw e (rw n (ap (λ y. some (reverse y)) t))

-- The directory of `profile.sb` in a directory with a plain name is that directory.
pub parent_of_profile :
    (p name : Text)
    → IsPlainName name
    → parent ((p ++ name) ++ codes "/profile.sb") ≡ some (p ++ name)
parent_of_profile p name h =
    let turned : reverse (p ++ name) ≡ reverse name ++ reverse p = reverse-append p name in
    let (tidy, full) =
      trim_end_plain (reverse name) (reverse p) (All-reverse _ name h.no_separator)
        (λ e. h.nonempty (sym (reverse-reverse name) ∙ ap reverse e))
        (λ e. h.not_here (sym (reverse-reverse name) ∙ ap reverse e)) in
    parent_reversed ((p ++ name) ++ codes "/profile.sb") (reverse (p ++ name))
      (reverse-append (p ++ name) (codes "/profile.sb")) (rw turned tidy) (rw turned full)
    ∙ ap some (reverse-reverse (p ++ name))

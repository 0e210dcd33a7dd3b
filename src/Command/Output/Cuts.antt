-- ===== src/Command/Output/Cuts.antt =====
-- What is printed without a panic, and the rows of `ls` that are not (crates/ssbx/src/main.rs).
use mathlib.Core.Option
use simple_sandbox_public.Prelude.{
  ◌≡◌, refl, subst, sym, ap, ◌∙◌, ◌≢◌, ◌↔◌, inl, inr, Bool, true, false, Option, none, some,
  Option-cases, List, [], ◌∷◌, ◌++◌, Text, Any, length,
}
use simple_sandbox_public.Result.{Result, ok, err, map_err, Result-cases}
use simple_sandbox_public.Text.Utf8.{as_bytes}
use simple_sandbox_public.Text.Slice.{slice_to, slice_to-eq-some, slice_to-append}
use simple_sandbox_public.Policy.{SandboxPolicy}
use simple_sandbox_public.Codec.{Codec, to_yaml}
use simple_sandbox_public.Mechanism.{CreateResult, DoctorItem}
use simple_sandbox_public.Store.{SandboxRecord}
use simple_sandbox_public.Command.{policy_failed}
use simple_sandbox_public.Command.Output.{
  line, Printer, printed, broken, shown_bytes, row, print_rows, print_list, print_created,
  print_items, print_policy, print_updated, print_removed, json_line, yaml_or,
}
use simple_sandbox_public.Command.Main.{returned, panicked, wrote, broke, ended}

-- No prefix of a text has as many bytes as `ls` shows of it: a character goes over the sixteenth.
abbrev pub IsCut : Text → Type 0
IsCut id = (p rest : Text) → id ≡ p ++ rest → length (as_bytes p) ≢ shown_bytes id

slice-IsCut : (id : Text) → slice_to (shown_bytes id) id ≡ none → IsCut id
slice-IsCut id e p rest split size = cc (
  subst (λ n. slice_to n id ≡ some p) size
      (ap (slice_to (length (as_bytes p))) split ∙ slice_to-append p rest),
  e,
)

IsCut-slice : (id p : Text) → IsCut id → slice_to (shown_bytes id) id ≢ some p
IsCut-slice id p cut e =
    let (rest, split, size) = slice_to-eq-some (shown_bytes id) id p e in cut p rest split size

-- The standard output takes whatever is printed.
abbrev pub TakesAll : {Doc : Type 0} → Printer Doc → Type 0
TakesAll P = (t : Text) → P.fails_after t ≡ none

module _ {Doc : Type 0} (P : Printer Doc) where
  -- A panic of the program itself is one whatever the standard output takes.
  broken-panics : (out : Text) → (ended P (broken out)).ending ≡ panicked
  broken-panics out = go (P.fails_after out)
    where
      go : (r : Option Text) → (broke r out).ending ≡ panicked
      go none = refl
      go (some part) = refl

  row_of :
      (s : SandboxRecord) {id : Option Text}
      → slice_to (shown_bytes s.runtime_id) s.runtime_id ≡ id
      → row P s ≡ Option.map (λ t. line P s t) id
  unfolding row
  row_of s e = ap (Option.map (λ t. line P s t)) e

  row_cut :
      (out : Text) (s : SandboxRecord) (rest : List SandboxRecord)
      → slice_to (shown_bytes s.runtime_id) s.runtime_id ≡ none
      → print_rows P out (s ∷ rest) ≡ broken out
  unfolding print_rows
  row_cut out s rest e = rw (row_of s e, print_rows) refl

  row_shown :
      (out : Text) (s : SandboxRecord) (rest : List SandboxRecord) (id : Text)
      → slice_to (shown_bytes s.runtime_id) s.runtime_id ≡ some id
      → print_rows P out (s ∷ rest) ≡ print_rows P (out ++ line P s id) rest
  unfolding print_rows
  row_shown out s rest id e = rw (row_of s e, print_rows) refl

module _ {Doc : Type 0} (P : Printer Doc) (takes : TakesAll P) where
  pub printed-calm : (out : Text) → (ended P (printed out)).ending ≢ panicked
  printed-calm out e =
      let same : (ended P (printed out)).ending ≡ returned 0 =
        ap (λ r. (wrote r out).ending) (takes out) in
      cc (same, e)

  json_line-calm : (r : Result Text Text) → (ended P (json_line r)).ending ≢ panicked
  json_line-calm (ok t) e = printed-calm _ e
  json_line-calm (err m) e = cc e

  pub print_rows-panics :
      (out : Text) (l : List SandboxRecord)
      → ((ended P (print_rows P out l)).ending ≡ panicked) ↔ Any (λ s. IsCut s.runtime_id) l
  print_rows-panics out [] =
      ((λ e. unfold print_rows in absurd (printed-calm out e)), λ h. absurd h)
  print_rows-panics out (s ∷ rest) =
      elim (Option-cases (slice_to (shown_bytes s.runtime_id) s.runtime_id)) [
        | inl e ↦ (
          (λ _. inl (slice-IsCut s.runtime_id e)),
          λ _. ap (λ r. (ended P r).ending) (row_cut P out s rest e) ∙ broken-panics P out,
        )
        | inr (id, e) ↦
            let (there, back) = print_rows-panics (out ++ line P s id) rest in
            let same = ap (λ r. (ended P r).ending) (row_shown P out s rest id e) in
            (
              (λ h. inr (there (sym same ∙ h))),
              λ a. elim a [
                | inl c ↦ absurd (IsCut-slice s.runtime_id id c e)
                | inr r ↦ same ∙ back r
              ],
            )
      ]

  pub print_list-panics :
      (json : Bool) (l : List SandboxRecord)
      → ((ended P (print_list P json l)).ending ≡ panicked)
        ↔ ((json ≡ false) × Any (λ s. IsCut s.runtime_id) l)
  unfolding print_list
  print_list-panics true l = ((λ e. absurd (json_line-calm (P.records_json l) e)), λ (f, _). cc f)
  print_list-panics false [] = ((λ e. absurd (printed-calm _ e)), λ (_, a). absurd a)
  print_list-panics false (s ∷ rest) =
      let (there, back) = print_rows-panics [] (s ∷ rest) in
      ((λ e. (refl, there e)), λ (_, a). back a)

  pub created-calm :
      (json : Bool) (name mech_name : Text) (result : CreateResult)
      → (ended P (print_created P json name mech_name result)).ending ≢ panicked
  unfolding print_created
  created-calm true name mech_name result e = json_line-calm (P.created_json result) e
  created-calm false name mech_name result e = printed-calm _ e

  pub items-calm :
      (json : Bool) (items : List DoctorItem)
      → (ended P (print_items P json items)).ending ≢ panicked
  unfolding print_items
  items-calm true items e = json_line-calm (P.items_json items) e
  items-calm false items e = printed-calm _ e

  pub updated-calm : (name : Text) → (ended P (print_updated name)).ending ≢ panicked
  unfolding print_updated
  updated-calm name e = printed-calm _ e

  pub removed-calm : (name : Text) → (ended P (print_removed name)).ending ≢ panicked
  unfolding print_removed
  removed-calm name e = printed-calm _ e

module _ (C : Codec) (P : Printer C.Doc) (takes : TakesAll P) where
  pub policy-calm :
      (json : Bool) (p : SandboxPolicy) → (ended P (print_policy C P json p)).ending ≢ panicked
  unfolding print_policy
  policy-calm true p e = json_line-calm P takes (P.policy_json p) e
  policy-calm false p e = elim (Result-cases (map_err policy_failed (to_yaml C p))) [
    | inl (d, h) ↦ printed-calm P takes _ (ap (λ r. (ended P (yaml_or C P r)).ending) (sym h) ∙ e)
    | inr (x, h) ↦ cc (ap (λ r. (ended P (yaml_or C P r)).ending) (sym h) ∙ e)
  ]

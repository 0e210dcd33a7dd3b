-- ===== src/Command/Output.antt =====
-- What the commands print (crates/ssbx/src/main.rs). The serialisers of JSON, YAML and of times are
-- parameters, and so is the standard output.
pub mod Cuts
use mathlib.Core.Option
use simple_sandbox_public.Prelude.{
  ℕ, Bool, Option, none, some, List, [], ◌∷◌, ◌++◌, Text, length, leb, if◌then◌else◌,
}
use simple_sandbox_public.Result.{Result, ok, err, map_err}
use simple_sandbox_public.Text.{codes}
use simple_sandbox_public.Text.Utf8.{as_bytes}
use simple_sandbox_public.Text.Slice.{slice_to}
use simple_sandbox_public.Policy.{SandboxPolicy}
use simple_sandbox_public.Policy.Mechanism.{display}
use simple_sandbox_public.Codec.{Codec, to_yaml}
use simple_sandbox_public.Mechanism.{CreateResult, DoctorItem}
use simple_sandbox_public.Store.{SandboxRecord}
use simple_sandbox_public.Command.{CommandError, policy_failed, json_failed}

-- `serde_json::to_string_pretty` on what is printed, the text of a YAML document, and
-- `DateTime::to_rfc3339`; and the standard output: it takes a text as a whole, for which
-- `fails_after` is none, or fails after a part of it, and then `println!` and `print!` panic.
pub record Printer (Doc : Type 0) : Type 0 where
  pub created_json : CreateResult → Result Text Text
  pub policy_json : SandboxPolicy → Result Text Text
  pub records_json : List SandboxRecord → Result Text Text
  pub items_json : List DoctorItem → Result Text Text
  pub yaml_text : Doc → Text
  pub rfc3339 : ℕ → Text
  pub fails_after : Text → Option Text

-- What a command prints: all of it, nothing because of an error, or what stands before a panic.
pub data Printed : Type 0 where
  printed : Text → Printed
  unprintable : CommandError → Printed
  broken : Text → Printed

abbrev pub newline : Text
newline = b'\n' ∷ []

abbrev pub tab : Text
tab = b'\t' ∷ []

-- `println!` of a serialised value.
abbrev pub json_line : Result Text Text → Printed
json_line (ok t) = printed (t ++ newline)
json_line (err e) = unprintable (json_failed e)

abbrev pub all_or : Result CommandError Text → Printed
all_or (ok t) = printed t
all_or (err e) = unprintable e

-- `s.runtime_id.len().min(16)`
abbrev pub shown_bytes : Text → ℕ
shown_bytes id = if leb (length (as_bytes id)) 16 then length (as_bytes id) else 16

-- The end of `cmd_rm`
unfoldable pub print_removed : Text → Printed
print_removed name = printed (codes "removed '" ++ (name ++ codes "'\n"))

-- The end of `PolicyCmd::Set`
unfoldable pub print_updated : Text → Printed
print_updated name = printed (codes "updated policy for '" ++ (name ++ codes "'\n"))

unfoldable pub item_lines : List DoctorItem → Text
item_lines [] = []
item_lines (i ∷ items) =
    (codes "[" ++ (if i.is_ok then codes "ok" else codes "FAIL"))
    ++ ((codes "] " ++ i.name) ++ ((codes ": " ++ i.detail) ++ (newline ++ item_lines items)))

module _ {Doc : Type 0} (P : Printer Doc) where
  -- The end of `cmd_create`, with the names of the sandbox and of the backend.
  unfoldable pub print_created : Bool → Text → Text → CreateResult → Printed
  print_created json name mech_name result =
      if json
      then json_line (P.created_json result)
      else printed (
          (codes "created sandbox '" ++ name)
          ++ ((codes "' via " ++ mech_name) ++ (codes " (" ++ (result.runtime_id ++ codes ")\n"))))

  -- A row of `ls` with what is shown of the runtime identifier.
  abbrev pub line : SandboxRecord → Text → Text
  line s id =
      (s.name ++ tab)
      ++ ((display s.mechanism ++ tab) ++ ((id ++ tab) ++ (P.rfc3339 s.created_at ++ newline)))

  -- It is none where the slice of the identifier panics.
  unfoldable pub row : SandboxRecord → Option Text
  row s = Option.map (λ id. line s id) (slice_to (shown_bytes s.runtime_id) s.runtime_id)

  -- The rows behind what is printed already.
  unfoldable pub print_rows : Text → List SandboxRecord → Printed
  print_rows out [] = printed out
  print_rows out (s ∷ rest) = elim (row s) [
    | none ↦ broken out
    | some next ↦ print_rows (out ++ next) rest
  ]

  -- The end of `cmd_ls`
  abbrev pub print_some : List SandboxRecord → Printed
  print_some [] = printed (codes "(no sandboxes)\n")
  print_some (s ∷ rest) = print_rows [] (s ∷ rest)

  unfoldable pub print_list : Bool → List SandboxRecord → Printed
  print_list json list = if json then json_line (P.records_json list) else print_some list

  -- The end of `cmd_doctor`
  unfoldable pub print_items : Bool → List DoctorItem → Printed
  print_items json items =
      if json then json_line (P.items_json items) else printed (item_lines items)

module _ (C : Codec) (P : Printer C.Doc) where
  abbrev pub yaml_or : Result CommandError C.Doc → Printed
  yaml_or (ok d) = printed (P.yaml_text d)
  yaml_or (err e) = unprintable e

  -- The end of `PolicyCmd::Get`
  unfoldable pub print_policy : Bool → SandboxPolicy → Printed
  print_policy json policy =
      if json
      then json_line (P.policy_json policy)
      else yaml_or (map_err policy_failed (to_yaml C policy))

-- ===== src/Codec.antt =====
-- The serialisers that the repository does not hold (`serde_json`, `serde_yaml`, SHA-256), and the
-- functions of crates/sandbox-policy/src/lib.rs that are calls of them.
use simple_sandbox_public.Prelude.{◌≡◌, Text}
use simple_sandbox_public.Result.{Result, ok, map_err, ◌>>=◌}
use simple_sandbox_public.Policy.{PolicyError, io, yaml, SandboxPolicy}
use simple_sandbox_public.Disk.{Disk, read}
use simple_sandbox_public.Policy.Validate.{validate}
use simple_sandbox_public.Store.{SandboxState}

-- `Doc` is the contents of a file. A serialiser gives such contents, or an error's message.
pub record Codec : Type 1 where
  pub Doc : Type 0
  pub to_json : SandboxState → Result Text Doc
  pub from_json : Doc → Result Text SandboxState
  pub to_yaml : SandboxPolicy → Result Text Doc
  pub from_yaml : Doc → Result Text SandboxPolicy
  pub sha256_hex : Doc → Text

-- What was written is read back.
pub record IsLawful (C : Codec) : Type 0 where
  pub from_json-to_json :
      (st : SandboxState) (d : C.Doc) → C.to_json st ≡ ok d → C.from_json d ≡ ok st
  pub from_yaml-to_yaml :
      (p : SandboxPolicy) (d : C.Doc) → C.to_yaml p ≡ ok d → C.from_yaml d ≡ ok p

module _ (C : Codec) where
  -- `SandboxPolicy::parse_yaml`
  unfoldable pub parse_yaml : C.Doc → Result PolicyError SandboxPolicy
  parse_yaml text = do policy ← map_err yaml (C.from_yaml text); _ ← validate policy; ok policy

  -- `SandboxPolicy::load_file`
  unfoldable pub load_file : Text → Disk C.Doc → Result PolicyError SandboxPolicy
  load_file path d = do text ← map_err io (read path d).0; parse_yaml text

  -- `SandboxPolicy::to_yaml`
  unfoldable pub to_yaml : SandboxPolicy → Result PolicyError C.Doc
  to_yaml p = map_err yaml (C.to_yaml p)

  -- `SandboxPolicy::content_hash`
  unfoldable pub content_hash : SandboxPolicy → Result PolicyError Text
  unfolding to_yaml
  content_hash p = do doc ← to_yaml p; ok (C.sha256_hex doc)

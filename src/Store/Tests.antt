-- ===== src/Store/Tests.antt =====
-- Tests of the store, and its theorems at concrete inputs (crates/sandbox-core/src/state.rs).
use simple_sandbox_public.Prelude.{
  ◌≡◌, refl, ◌⊎◌, inl, true, false, none, some, List, [], ◌∷◌, Text, text_eq, option_eq, ◌==◌,
  if◌then◌else◌,
}
use simple_sandbox_public.Result.{Result, ok, err}
use simple_sandbox_public.Text.{codes}
use simple_sandbox_public.Disk.{Disk, write, create_dir_all, exists}
use simple_sandbox_public.Policy.{SandboxPolicy, policy_default, podman, network_mode_eq}
use simple_sandbox_public.Policy.Size.{memory_bytes}
use simple_sandbox_public.Policy.Validate.{validate, validate_network, validate_secrets}
use simple_sandbox_public.Text.{trim}
use simple_sandbox_public.Text.Decimal.{parse_uint}
use simple_sandbox_public.Codec.{Codec, IsLawful, to_yaml}
use simple_sandbox_public.Store.{StateError, not_found, SandboxRecord, SandboxState, state_default}
use simple_sandbox_public.Store.Index
use simple_sandbox_public.Store.Index.{is_called, no_sandboxes}
use simple_sandbox_public.Store.Invariant.{
  IsWellFormed, insert-IsWellFormed, state_default-IsWellFormed,
}
use simple_sandbox_public.Store.Registry.{registry, Registry}
use simple_sandbox_public.Store.Refinement.{removing, perform, Promises, perform_refines}
use simple_sandbox_public.Store.Lookup.{get-insert, get-remove, get_or_last-used}
use simple_sandbox_public.Store.Files.{
  index_path, policy_path, open_store, save_index, save_policy, load_policy, Change, put, drop,
  change_policy, using, apply_all,
}
use simple_sandbox_public.Store.Files.Soundness.{IsSound}
use simple_sandbox_public.Store.Files.Reach.{apply_all-IsSound, open_store-IsSound, IsOpenable}
use simple_sandbox_public.Store.Files.Policies.{load_policy-save_policy}

-- Files that hold what was serialised.
data Document : Type 0 where
  index_text : SandboxState → Document
  policy_text : SandboxPolicy → Document

abbrev read_index : Document → Result Text SandboxState
read_index (index_text st) = ok st
read_index (policy_text p) = err (codes "no index")

abbrev read_policy : Document → Result Text SandboxPolicy
read_policy (index_text st) = err (codes "no policy")
read_policy (policy_text p) = ok p

abbrev documents : Codec
documents = record {
  Doc = Document;
  to_json = λ st. ok (index_text st);
  from_json = read_index;
  to_yaml = λ p. ok (policy_text p);
  from_yaml = read_policy;
  sha256_hex = λ d. codes "hash";
}

documents-IsLawful : IsLawful documents
documents-IsLawful = record { from_json-to_json = λ st d e. cc; from_yaml-to_yaml = λ p d e. cc }

abbrev root : Text
root = codes "/home"

abbrev box : Text → SandboxRecord
box name = record {
  id = [];
  name = name;
  mechanism = podman;
  runtime_id = codes "c0ffee";
  policy_hash = codes "hash";
  workdir = codes "/work";
  created_at = 1;
  proxy_port = none;
  log_path = none;
  ephemeral = false;
}

abbrev stored_box : SandboxRecord
stored_box = record (box (codes "a")) { id = codes "1" }

abbrev one_box : SandboxState
one_box = record { last_used = some (codes "a"); sandboxes = stored_box ∷ [] }

insert_one : Index.insert (codes "1") (box (codes "a")) state_default ≡ ok (stored_box, one_box)
unfolding Index.insert Index.has_name
insert_one = refl

one_box-IsWellFormed : IsWellFormed one_box
one_box-IsWellFormed =
    insert-IsWellFormed (codes "1") (box (codes "a")) state_default-IsWellFormed insert_one

get-insert_example :
    (Index.get (codes "a") one_box ≡ ok stored_box)
    × (Index.get_or_last none one_box ≡ ok stored_box)
get-insert_example = get-insert (codes "1") (box (codes "a")) state_default insert_one refl

remove_one : Index.remove (codes "1") one_box ≡ ok (stored_box, state_default)
unfolding Index.remove text_eq Index.take_out is_called option_eq Index.last
remove_one = refl

get-remove_example :
    (Index.get (codes "1") one_box ≡ ok stored_box)
    × (is_called (codes "b") stored_box ≡ false
        → Index.get (codes "b") state_default ≡ Index.get (codes "b") one_box)
get-remove_example = get-remove (codes "1") (codes "b") one_box remove_one

get_or_last-used_example :
    ((n : Text) × (s : SandboxRecord) × (one_box.last_used ≡ some n)
      × (Index.get_or_last none one_box ≡ ok s)
      × (is_called n s ≡ true))
    ⊎ ((one_box.sandboxes ≡ []) × (Index.get_or_last none one_box ≡ err (not_found no_sandboxes)))
get_or_last-used_example = get_or_last-used one_box one_box-IsWellFormed

abbrev empty_disk : Disk Document
empty_disk = record { files = λ p. none; writable = λ p. true; directories = [] }

empty-IsOpenable : IsOpenable documents documents-IsLawful root empty_disk
empty-IsOpenable = inl refl

opens : (open_store documents root empty_disk).0 ≡ ok tt
unfolding open_store create_dir_all exists save_index write
opens = refl

opened-IsSound : IsSound documents root (open_store documents root empty_disk).1
opened-IsSound =
    open_store-IsSound documents documents-IsLawful root empty_disk empty-IsOpenable opens

open_store-IsSound_example : IsSound documents root (open_store documents root empty_disk).1
open_store-IsSound_example =
    open_store-IsSound documents documents-IsLawful root empty_disk empty-IsOpenable opens

abbrev changes : List Change
changes =
    put (codes "1") (box (codes "a"))
    ∷ put (codes "2") (box (codes "a"))
    ∷ using (some (codes "b"))
    ∷ change_policy (codes "a") policy_default
    ∷ drop (codes "a")
    ∷ []

apply_all-IsSound_example :
    IsSound documents root
      (apply_all documents root changes (open_store documents root empty_disk).1)
apply_all-IsSound_example =
    apply_all-IsSound documents documents-IsLawful root changes
      (open_store documents root empty_disk).1 opened-IsSound

validates : validate policy_default ≡ ok tt
unfolding validate memory_bytes trim parse_uint validate_network network_mode_eq validate_secrets
validates = refl

saves :
    (save_policy documents root (codes "a") policy_default empty_disk).0
    ≡ ok (policy_path root (codes "a"))
unfolding save_policy to_yaml write
saves = refl

load_policy-save_policy_example :
    (load_policy documents root
      (codes "a")
      (save_policy documents root (codes "a") policy_default empty_disk).1).0
    ≡ ok policy_default
load_policy-save_policy_example =
    load_policy-save_policy documents documents-IsLawful root (codes "a") policy_default empty_disk
      validates saves

abbrev indexed_disk : Disk Document
indexed_disk = record {
  files = λ p. if p == index_path root then some (index_text one_box) else none;
  writable = λ p. true;
  directories = [];
}

perform_refines_example :
    ((st' : SandboxState)
      → perform (removing (codes "1")) one_box ≡ ok st'
      → Promises (removing (codes "1")) (registry one_box) (registry st'))
    × ((e : StateError)
        → perform (removing (codes "1")) one_box ≡ err e
        → (m : Registry) → Promises (removing (codes "1")) (registry one_box) m
        → ⊥)
perform_refines_example = perform_refines (removing (codes "1")) one_box one_box-IsWellFormed

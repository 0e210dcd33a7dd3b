-- ===== src/Seatbelt/Profile.antt =====
-- What a Seatbelt profile lets a sandbox write and reach (crates/sandbox-mech-mac/src/lib.rs): its
-- rules with a prefix are exactly those that the policy asks for.
use mathlib.Core.Option
use simple_sandbox_public.Prelude.{
  ◌≡◌, refl, ap, ◌∙◌, Bool, true, false, Option, List, [], ◌∷◌, ◌++◌, Text, if◌then◌else◌, arith,
  map,
}
use simple_sandbox_public.Text.{codes, strip_prefix, starts_with}
use simple_sandbox_public.Policy.{NetworkMode, deny_all, allowlist, unrestricted, SandboxPolicy}
use simple_sandbox_public.Seatbelt.{
  resolve_path, allow_write, first_lines, system_paths, read_lines, device_lines, workdir_lines,
  read_only_lines, read_write_lines, temp_paths, temp_lines, network_lines, policy_lines,
  profile_lines, generate_seatbelt_profile,
}
use simple_sandbox_public.Seatbelt.Rules.{rules_of, rules_of-join_with}
use simple_sandbox_public.Seatbelt.Rules.Policies.{IsQuoted, profile_lines-IsRule}

-- The rules that start with a prefix.
unfoldable pub pick : Text → List Text → List Text
pick p [] = []
pick p (l ∷ ls) = let rest = pick p ls in if starts_with p l then l ∷ rest else rest

pick-append : (p : Text) (ls ms : List Text) → pick p (ls ++ ms) ≡ pick p ls ++ pick p ms
unfolding pick
pick-append p [] ms = refl
pick-append p (l ∷ ls) ms = ground (arith, pick-append p ls ms)

-- The parts of a profile, each picked from.
pick_parts :
    (p : Text) (policy : SandboxPolicy) (workdir : Text)
    → pick p (profile_lines policy workdir)
      ≡ pick p first_lines
        ++ (pick p (read_lines system_paths)
            ++ (pick p device_lines
                ++ (pick p (workdir_lines policy.filesystem.workdir workdir)
                    ++ (pick p (read_only_lines policy.filesystem.read_only workdir)
                        ++ (pick p (read_write_lines policy.filesystem.read_write workdir)
                            ++ (pick p temp_lines
                                ++ pick p (network_lines policy.network.mode)))))))
unfolding profile_lines policy_lines
pick_parts p policy workdir =
    rw (pick-append, pick-append, pick-append, pick-append, pick-append, pick-append, pick-append)

abbrev pub network_prefix : Text
network_prefix = codes "(allow network"

abbrev pub file_write_prefix : Text
file_write_prefix = codes "(allow file-write*"

-- What the policy asks for: the lines on the network, and the lines that let files be written.
unfoldable pub network_rules : NetworkMode → List Text
network_rules deny_all = []
network_rules allowlist =
    codes "(allow network* (remote ip \"localhost:*\"))"
    ∷ codes "(allow network-bind (local ip \"localhost:*\"))"
    ∷ []
network_rules unrestricted = codes "(allow network*)" ∷ []

unfoldable pub writable_paths : SandboxPolicy → Text → List Text
writable_paths policy workdir =
    (if policy.filesystem.workdir then workdir ∷ [] else [])
    ++ (map (λ p. resolve_path p workdir) policy.filesystem.read_write ++ temp_paths)

read_only_network :
    (ps : List Text) (workdir : Text) → pick network_prefix (read_only_lines ps workdir) ≡ []
unfolding pick read_only_lines starts_with strip_prefix
read_only_network [] workdir = refl
read_only_network (p ∷ ps) workdir = read_only_network ps workdir

read_write_network :
    (ps : List Text) (workdir : Text) → pick network_prefix (read_write_lines ps workdir) ≡ []
unfolding pick read_write_lines starts_with strip_prefix
read_write_network [] workdir = refl
read_write_network (p ∷ ps) workdir = read_write_network ps workdir

workdir_network :
    (granted : Bool) (workdir : Text) → pick network_prefix (workdir_lines granted workdir) ≡ []
unfolding pick workdir_lines starts_with strip_prefix
workdir_network true workdir = refl
workdir_network false workdir = refl

mode_network : (mode : NetworkMode) → pick network_prefix (network_lines mode) ≡ network_rules mode
unfolding pick network_lines network_rules starts_with strip_prefix
mode_network deny_all = refl
mode_network allowlist = refl
mode_network unrestricted = refl

fixed_network :
    (pick network_prefix first_lines ≡ [])
    × (pick network_prefix (read_lines system_paths) ≡ [])
    × (pick network_prefix device_lines ≡ [])
    × (pick network_prefix temp_lines ≡ [])
unfolding pick read_lines temp_lines starts_with strip_prefix
fixed_network = (refl, refl, refl, refl)

lines_network :
    (policy : SandboxPolicy) (workdir : Text)
    → pick network_prefix (profile_lines policy workdir) ≡ network_rules policy.network.mode
lines_network policy workdir =
    let (first, system, device, temp) = fixed_network in
    pick_parts network_prefix policy workdir
    ∙ rw
        (
          first,
          system,
          device,
          temp,
          workdir_network policy.filesystem.workdir workdir,
          read_only_network policy.filesystem.read_only workdir,
          read_write_network policy.filesystem.read_write workdir,
        )
        (mode_network policy.network.mode)

read_only_write :
    (ps : List Text) (workdir : Text) → pick file_write_prefix (read_only_lines ps workdir) ≡ []
unfolding pick read_only_lines starts_with strip_prefix
read_only_write [] workdir = refl
read_only_write (p ∷ ps) workdir = read_only_write ps workdir

read_write_write :
    (ps : List Text) (workdir : Text)
    → pick file_write_prefix (read_write_lines ps workdir)
      ≡ map allow_write (map (λ p. resolve_path p workdir) ps)
unfolding pick read_write_lines starts_with strip_prefix
read_write_write [] workdir = refl
read_write_write (p ∷ ps) workdir =
    ap (λ x. allow_write (resolve_path p workdir) ∷ x) (read_write_write ps workdir)

workdir_write :
    (granted : Bool) (workdir : Text)
    → pick file_write_prefix (workdir_lines granted workdir)
      ≡ map allow_write (if granted then workdir ∷ [] else [])
unfolding pick workdir_lines starts_with strip_prefix
workdir_write true workdir = refl
workdir_write false workdir = refl

mode_write : (mode : NetworkMode) → pick file_write_prefix (network_lines mode) ≡ []
unfolding pick network_lines starts_with strip_prefix
mode_write deny_all = refl
mode_write allowlist = refl
mode_write unrestricted = refl

-- The devices that every profile lets a sandbox write to.
abbrev pub device_writes : List Text
device_writes =
    codes "(allow file-write* (literal \"/dev/null\"))"
    ∷ codes "(allow file-write* (literal \"/dev/dtracehelper\"))"
    ∷ []

fixed_write :
    (pick file_write_prefix first_lines ≡ [])
    × (pick file_write_prefix (read_lines system_paths) ≡ [])
    × (pick file_write_prefix device_lines ≡ device_writes)
    × (pick file_write_prefix temp_lines ≡ map allow_write temp_paths)
unfolding pick read_lines temp_lines starts_with strip_prefix
fixed_write = (refl, refl, refl, refl)

map-append : (f : Text → Text) (xs ys : List Text) → map f xs ++ map f ys ≡ map f (xs ++ ys)
map-append f [] ys = refl
map-append f (x ∷ xs) ys = ap (λ l. f x ∷ l) (map-append f xs ys)

lines_write :
    (policy : SandboxPolicy) (workdir : Text)
    → pick file_write_prefix (profile_lines policy workdir)
      ≡ device_writes ++ map allow_write (writable_paths policy workdir)
unfolding writable_paths
lines_write policy workdir =
    let (first, system, device, temp) = fixed_write in
    let granted = if policy.filesystem.workdir then workdir ∷ [] else [] in
    let asked = map (λ p. resolve_path p workdir) policy.filesystem.read_write in
    pick_parts file_write_prefix policy workdir
    ∙ rw
        (
          first,
          system,
          device,
          temp,
          workdir_write policy.filesystem.workdir workdir,
          read_only_write policy.filesystem.read_only workdir,
          read_write_write policy.filesystem.read_write workdir,
          mode_write policy.network.mode,
        )
        (ap (λ l. device_writes ++ l)
          (ap (λ l. map allow_write granted ++ l) (map-append allow_write asked temp_paths)
            ∙ map-append allow_write granted (asked ++ temp_paths)))

module _ (canonicalize : Text → Option Text) (policy : SandboxPolicy) (workdir : Text) where
  abbrev pub canonical : Text
  canonical = Option.get_or (canonicalize workdir) workdir

  rules_of-profile :
      IsQuoted policy canonical
      → rules_of (generate_seatbelt_profile canonicalize policy workdir)
        ≡ profile_lines policy canonical
  unfolding generate_seatbelt_profile
  rules_of-profile h =
      unfold profile_lines in rules_of-join_with _ _ (profile_lines-IsRule policy canonical h)

  -- The rules of a profile that start with `(allow network` are those of the policy's mode: none for
  -- `none`, the two for the local proxy for `allowlist`, and one without limits for `unrestricted`.
  -- The rules are the outermost lists in parentheses, strings apart. The working directory and the
  -- policy's paths, resolved, hold no quote and no backslash.
  pub profile_network :
      IsQuoted policy canonical
      → pick network_prefix (rules_of (generate_seatbelt_profile canonicalize policy workdir))
        ≡ network_rules policy.network.mode
  profile_network h = ap (pick network_prefix) (rules_of-profile h) ∙ lines_network policy canonical

  -- The rules of a profile that start with `(allow file-write*` are those for two devices, for the
  -- working directory if the policy grants it, for the policy's paths for writing, resolved, and
  -- for the temporary directories. The rules are the outermost lists in parentheses, strings apart.
  -- The working directory and the policy's paths, resolved, hold no quote and no backslash.
  pub profile_write :
      IsQuoted policy canonical
      → pick file_write_prefix (rules_of (generate_seatbelt_profile canonicalize policy workdir))
        ≡ device_writes ++ map allow_write (writable_paths policy canonical)
  profile_write h = ap (pick file_write_prefix) (rules_of-profile h) ∙ lines_write policy canonical

-- ===== src/Policy/Mechanism.antt =====
-- `MechanismKind`: its print, its parser, and the choice of a backend
-- (crates/sandbox-policy/src/lib.rs, crates/sandbox-core/src/lib.rs).
use mathlib.Core.Option
use simple_sandbox_public.Prelude.{◌≡◌, ◌||◌, ◌++◌, Text, text_eq, ◌==◌, if◌then◌else◌}
use simple_sandbox_public.Result.{Result, ok, err}
use simple_sandbox_public.Text.{codes, to_ascii_lowercase}
use simple_sandbox_public.Policy.{
  PolicyError, invalid, MechanismKind, podman, mac, krun, auto, SandboxPolicy,
}

-- `Display`
unfoldable pub display : MechanismKind → Text
display podman = codes "podman"
display mac = codes "mac"
display krun = codes "krun"
display auto = codes "auto"

pub unknown_mechanism : Text → PolicyError
unknown_mechanism other =
    invalid (codes "unknown mechanism '" ++ other ++ codes "' (expected podman|mac|krun|auto)")

-- The arms of the match in `from_str`.
unfoldable pub from_lower : Text → Result PolicyError MechanismKind
from_lower s =
    if s == codes "podman" || s == codes "linux" || s == codes "linux_podman"
    then ok podman
    else if s == codes "mac"
        || s == codes "macos"
        || s == codes "seatbelt"
        || s == codes "mac_seatbelt"
    then ok mac
    else if s == codes "krun" || s == codes "libkrun" || s == codes "linux_libkrun"
    then ok krun
    else if s == codes "auto"
    then ok auto
    else err (unknown_mechanism s)

unfoldable pub from_str : Text → Result PolicyError MechanismKind
unfolding from_lower
from_str s = from_lower (to_ascii_lowercase s)

-- `mechanism_or_auto`
unfoldable pub mechanism_or_auto : SandboxPolicy → MechanismKind
mechanism_or_auto p = Option.get_or p.mechanism auto

-- `cfg!(target_os = …)`
pub data TargetOs : Type 0 where
  macos linux other_os : TargetOs

unfoldable pub resolve_mechanism : TargetOs → MechanismKind → MechanismKind
resolve_mechanism macos auto = podman
resolve_mechanism linux auto = podman
resolve_mechanism other_os auto = mac
resolve_mechanism os kind = kind

-- Every printed kind is read back as itself, however its letters are cased.
pub from_str-display :
    (k : MechanismKind) (s : Text) → to_ascii_lowercase s ≡ display k → from_str s ≡ ok k
unfolding from_str display text_eq
from_str-display podman s e = rw e
from_str-display mac s e = rw e
from_str-display krun s e = rw e
from_str-display auto s e = rw e

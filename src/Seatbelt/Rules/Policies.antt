-- ===== src/Seatbelt/Rules/Policies.antt =====
-- The lines of a profile are rules where the policy's paths can be quoted
-- (crates/sandbox-mech-mac/src/lib.rs).
use simple_sandbox_public.Prelude.{
  ◌≡◌, refl, ap, ◌∙◌, Bool, true, false, List, [], ◌∷◌, ◌++◌, append_assoc, Text, All, All-append,
}
use simple_sandbox_public.Policy.{NetworkMode, deny_all, allowlist, unrestricted, SandboxPolicy}
use simple_sandbox_public.Seatbelt.{
  resolve_path, read_prefix, write_prefix, line_end, allow_read, allow_write, first_lines,
  system_paths, read_lines, device_lines, workdir_lines, read_only_lines, read_write_lines,
  temp_lines, network_lines, policy_lines, profile_lines,
}
use simple_sandbox_public.Seatbelt.Rules.{
  outside, inside, quoted, IsRule, IsQuotable, step, scan, scan_path,
}

-- No path of the policy ends the string that it stands in.
pub record IsQuoted (policy : SandboxPolicy) (workdir : Text) : Type 0 where
  pub workdir_quotable : IsQuotable workdir
  pub read_only_quotable :
      All (λ p. IsQuotable (resolve_path p workdir)) policy.filesystem.read_only
  pub read_write_quotable :
      All (λ p. IsQuotable (resolve_path p workdir)) policy.filesystem.read_write

-- Behind the path the string and the two lists are closed.
scan-line_end :
    (rule : Text) → scan (inside 1 quoted rule) line_end ≡ ((rule ++ line_end) ∷ [], outside)
unfolding scan step
scan-line_end rule =
    ap (λ r. (r ∷ [], outside))
      (append_assoc (rule ++ b'"' ∷ []) (b')' ∷ []) (b')' ∷ [])
        ∙ append_assoc rule (b'"' ∷ []) (b')' ∷ b')' ∷ []))

path-IsRule :
    (front p : Text)
    → scan outside front ≡ ([], inside 1 quoted front)
    → IsQuotable p
    → IsRule (front ++ (p ++ line_end))
path-IsRule front p e h =
    scan_path outside front p line_end e h
    ∙ scan-line_end (front ++ p)
    ∙ ap (λ r. (r ∷ [], outside)) (append_assoc front p line_end)

allow_read-IsRule : (p : Text) → IsQuotable p → IsRule (allow_read p)
allow_read-IsRule p h = path-IsRule read_prefix p (unfold scan step in refl) h

allow_write-IsRule : (p : Text) → IsQuotable p → IsRule (allow_write p)
allow_write-IsRule p h = path-IsRule write_prefix p (unfold scan step in refl) h

read_only-IsRule :
    (ps : List Text) (workdir : Text)
    → All (λ p. IsQuotable (resolve_path p workdir)) ps
    → All IsRule (read_only_lines ps workdir)
unfolding read_only_lines
read_only-IsRule [] workdir h = tt
read_only-IsRule (p ∷ ps) workdir (h, hs) = (allow_read-IsRule _ h, read_only-IsRule ps workdir hs)

read_write-IsRule :
    (ps : List Text) (workdir : Text)
    → All (λ p. IsQuotable (resolve_path p workdir)) ps
    → All IsRule (read_write_lines ps workdir)
unfolding read_write_lines
read_write-IsRule [] workdir h = tt
read_write-IsRule (p ∷ ps) workdir (h, hs) =
    (allow_read-IsRule _ h, (allow_write-IsRule _ h, read_write-IsRule ps workdir hs))

workdir-IsRule :
    (granted : Bool) (workdir : Text)
    → IsQuotable workdir
    → All IsRule (workdir_lines granted workdir)
unfolding workdir_lines
workdir-IsRule true workdir h = (allow_read-IsRule _ h, (allow_write-IsRule _ h, tt))
workdir-IsRule false workdir h = tt

network-IsRule : (mode : NetworkMode) → All IsRule (network_lines mode)
unfolding network_lines scan step
network-IsRule deny_all = (refl, tt)
network-IsRule allowlist = (refl, (refl, tt))
network-IsRule unrestricted = (refl, tt)

first-IsRule : All IsRule first_lines
unfolding scan step
first-IsRule = (refl, (refl, (refl, (refl, (refl, (refl, (refl, (refl, tt))))))))

device-IsRule : All IsRule device_lines
unfolding scan step
device-IsRule = (refl, (refl, (refl, (refl, tt))))

system-IsRule : All IsRule (read_lines system_paths)
unfolding read_lines scan step
system-IsRule = (
  refl,
  (refl, (refl, (refl, (refl, (refl, (refl, (refl, (refl, (refl, (refl, (refl, tt))))))))))),
)

temp-IsRule : All IsRule temp_lines
unfolding temp_lines scan step
temp-IsRule = (refl, (refl, (refl, (refl, tt))))

pub profile_lines-IsRule :
    (policy : SandboxPolicy) (workdir : Text)
    → IsQuoted policy workdir
    → All IsRule (profile_lines policy workdir)
unfolding profile_lines policy_lines
profile_lines-IsRule policy workdir h = All-append _ first_lines _ first-IsRule (
    All-append _ (read_lines system_paths) _ system-IsRule (
      All-append _ device_lines _ device-IsRule (
        All-append _ (workdir_lines policy.filesystem.workdir workdir) _
          (workdir-IsRule policy.filesystem.workdir workdir h.workdir_quotable)
          (All-append _ (read_only_lines policy.filesystem.read_only workdir) _
            (read_only-IsRule policy.filesystem.read_only workdir h.read_only_quotable)
            (All-append _ (read_write_lines policy.filesystem.read_write workdir) _
              (read_write-IsRule policy.filesystem.read_write workdir h.read_write_quotable)
              (All-append _ temp_lines _ temp-IsRule (network-IsRule policy.network.mode)))))))

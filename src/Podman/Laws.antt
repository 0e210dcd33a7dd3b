-- ===== src/Podman/Laws.antt =====
-- The network option of the arguments of `create` (crates/sandbox-mech-podman/src/lib.rs).
use simple_sandbox_public.Prelude.{
  ℕ, ◌≡◌, refl, sym, ap, ◌∙◌, subst, Bool, true, false, not, List, ◌∷◌, ◌++◌, Text, text_eq, ◌==◌,
  All,
}
use simple_sandbox_public.Result.{ok, >>=-eq-ok}
use simple_sandbox_public.Text.{codes}
use simple_sandbox_public.Policy.{deny_all, allowlist, network_mode_eq}
use simple_sandbox_public.Mechanism.{CreateRequest}
use simple_sandbox_public.Podman.{
  Host, network_flag, network_args, command_args, first_options, last_options, run_args,
  build_run_args, memory_of,
}
use simple_sandbox_public.Podman.Create.{
  patch, build_allowlist_args, choose_args, create_args, unrestricted_request,
}
use simple_sandbox_public.Podman.Options.{
  IsOther, patch-IsOther, first_options-IsOther, last_options-IsOther,
}

allowlist-==-allowlist : (allowlist == allowlist) ≡ true
unfolding network_mode_eq
allowlist-==-allowlist = refl

deny_all-==-allowlist : (deny_all == allowlist) ≡ false
unfolding network_mode_eq
deny_all-==-allowlist = refl

module _ (H : Host) (image : Text) where
  choose_args_allowlist :
      (req : CreateRequest) (args : List Text)
      → req.policy.network.mode ≡ allowlist
      → choose_args H image req args ≡ build_allowlist_args H image req req.name (not req.ephemeral)
  unfolding choose_args
  choose_args_allowlist req args mode =
      let is : (req.policy.network.mode == allowlist) ≡ true =
        ap (λ m. m == allowlist) mode ∙ allowlist-==-allowlist in
      rw is

  choose_args_deny_all :
      (req : CreateRequest) (args : List Text)
      → req.policy.network.mode ≡ deny_all
      → choose_args H image req args ≡ ok args
  unfolding choose_args
  choose_args_deny_all req args mode =
      let is : (req.policy.network.mode == allowlist) ≡ false =
        ap (λ m. m == allowlist) mode ∙ deny_all-==-allowlist in
      rw is

  build_run_args_ok :
      (req : CreateRequest) (name : Text) (detach : Bool) {args : List Text}
      → build_run_args H image req name detach ≡ ok args
      → (mem : ℕ) × (run_args H image req name detach mem ≡ args)
  unfolding build_run_args
  build_run_args_ok req name detach e =
      let (mem, _, same) = >>=-eq-ok (memory_of req.policy.resources) _ e in (mem, cc same)

  run_args_deny_all :
      (req : CreateRequest) (name : Text) (detach : Bool) (mem : ℕ)
      → req.policy.network.mode ≡ deny_all
      → run_args H image req name detach mem
        ≡ first_options H req name detach mem
          ++ network_flag ∷ codes "none" ∷ (last_options H req ++ image ∷ command_args req.command)
  unfolding run_args network_args
  run_args_deny_all req name detach mem mode =
      ap
        (λ m.
          first_options H req name detach mem
          ++ (network_args m ++ (last_options H req ++ image ∷ command_args req.command)))
        mode

  build_allowlist_args-IsOther :
      (req : CreateRequest) (name : Text) (detach : Bool) {args : List Text}
      → build_allowlist_args H image req name detach ≡ ok args
      → All IsOther args
  unfolding build_allowlist_args
  build_allowlist_args-IsOther req name detach {args} e =
      let (run, _, same) =
        >>=-eq-ok (build_run_args H image (unrestricted_request req) name detach) _ e in
      let patched : patch H image run ≡ args = cc same in
      subst (All IsOther) patched (patch-IsOther H image run)

  -- In the mode `allowlist` no argument of `create` is `--network`: the container is in the default
  -- network, and no part of the user's command, of the request or of the image brings the option in.
  pub create_args_allowlist :
      (req : CreateRequest) {args : List Text}
      → req.policy.network.mode ≡ allowlist
      → create_args H image req ≡ ok args
      → All IsOther args
  unfolding create_args
  create_args_allowlist req mode e =
      let (run, _, chosen) =
        >>=-eq-ok (build_run_args H image req req.name (not req.ephemeral))
          (choose_args H image req) e in
      build_allowlist_args-IsOther req req.name (not req.ephemeral)
        (sym (choose_args_allowlist req run mode) ∙ chosen)

  -- In the mode `none` the arguments of `create` isolate the container, whatever the request holds:
  -- `--network none` stands among the options, in front of the image and the command, and no other
  -- option is `--network`.
  pub create_args_isolated :
      (req : CreateRequest) {args : List Text}
      → req.policy.network.mode ≡ deny_all
      → create_args H image req ≡ ok args
      → (before : List Text) × (after : List Text) × (args
          ≡ before ++ network_flag ∷ codes "none" ∷ (after ++ image ∷ command_args req.command))
        × All IsOther before
        × All IsOther after
  unfolding create_args
  create_args_isolated req {args} mode e =
      let (run, built, chosen) =
        >>=-eq-ok (build_run_args H image req req.name (not req.ephemeral))
          (choose_args H image req) e in
      let kept : run ≡ args = cc (chosen, choose_args_deny_all req run mode) in
      let (mem, same) = build_run_args_ok req req.name (not req.ephemeral) built in
      (
        first_options H req req.name (not req.ephemeral) mem,
        last_options H req,
        sym kept ∙ sym same ∙ run_args_deny_all req req.name (not req.ephemeral) mem mode,
        first_options-IsOther H req req.name (not req.ephemeral) mem,
        last_options-IsOther H req,
      )

-- ===== src/Command/Invocations.antt =====
-- Runs of the program, and the theorem on its panics at a concrete input (crates/ssbx/src/main.rs).
use simple_sandbox_public.Prelude.{
  ◌≡◌, refl, inl, All, true, false, ◌==◌, if◌then◌else◌, none, some, List, [], ◌∷◌, Text, text_eq,
}
use simple_sandbox_public.Result.{ok}
use simple_sandbox_public.Text.{codes}
use simple_sandbox_public.Text.Slice.{slice_to}
use simple_sandbox_public.Text.Utf8.{as_bytes, encode_char}
use simple_sandbox_public.FilePath.{join, is_absolute, ends_with_separator}
use simple_sandbox_public.Disk.{read, create_dir_all, exists}
use simple_sandbox_public.Policy.{podman}
use simple_sandbox_public.Policy.Mechanism.{display}
use simple_sandbox_public.Store.Files
use simple_sandbox_public.Store.Files.{index_path}
use simple_sandbox_public.Command.Sandboxes.{W}
use simple_sandbox_public.Command.Stored.{cmd_ls}
use simple_sandbox_public.Command.Output.{Printer, print_list, print_rows, row}
use simple_sandbox_public.Command.Main.{
  MechArg, Arguments, create, exec, rm, ls, Cli, Draw, command_of, uuid_simple, returned, exit_code,
  perform, run_cli, main,
}
use simple_sandbox_public.FilePath.Parent.{IsPlainName}
use simple_sandbox_public.Seatbelt.Removal.{Owns}
use simple_sandbox_public.Command.Runs.{main_all, StaysSound, IsRun}
use simple_sandbox_public.Command.Program.{linked, linked-IsRespectful, main_all-linked}
use simple_sandbox_public.Command.Panics.{configured}
use simple_sandbox_public.Command.Queries.{opened, main-Asks}
use simple_sandbox_public.Command.Examples.{
  Document, setting, root, index_text, outside, outside-IsApart, documents-IsLawful, a-IsPlainName,
}

hex_of : uuid_simple 0x19af ≡ codes "19af"
unfolding uuid_simple
hex_of = refl

abbrev printer : Printer Document
printer = record {
  created_json = λ r. ok [];
  policy_json = λ p. ok [];
  records_json = λ l. ok [];
  items_json = λ i. ok [];
  yaml_text = λ d. [];
  rfc3339 = λ t. codes "now";
  fails_after = λ t. none;
}

abbrev listing : Cli
listing = record { config = some root; json = false; command = ls }

abbrev draw : Draw
draw = record { fresh = codes "1"; now = 1; millis = 1 }

-- A store with a sandbox of that runtime identifier.
abbrev holding : Text → W setting
holding id = record {
  disk = record {
    files = λ p.
        if p == index_path root
        then some (
            index_text (record {
              last_used = none;
              sandboxes =
                  record {
                    id = codes "0";
                    name = codes "a";
                    mechanism = podman;
                    runtime_id = id;
                    policy_hash = codes "hash";
                    workdir = codes "/work";
                    created_at = 0;
                    proxy_port = none;
                    log_path = none;
                    ephemeral = false;
                  }
                  ∷ [];
            }))
        else none;
    writable = λ p. true;
    directories = [];
  };
  outside = tt;
}

lists_prefix :
    (main setting printer none draw listing (holding (codes "0123456789abcdef0123"))).0
    ≡ record { ending = returned 0; stdout = codes "a\tpodman\t0123456789abcdef\tnow\n" }
unfolding main run_cli perform command_of cmd_ls Files.open_store Files.list Files.load_index
    index_path read create_dir_all exists join is_absolute ends_with_separator text_eq print_list
    print_rows row slice_to as_bytes encode_char display exit_code
lists_prefix = refl

-- The sixteenth byte is inside of the last character.
panics_inside :
    exit_code (main setting printer none draw listing (holding (codes "0123456789abcdeé"))).0.ending
    ≡ 101
unfolding main run_cli perform command_of cmd_ls Files.open_store Files.list Files.load_index
    index_path read create_dir_all exists join is_absolute ends_with_separator text_eq print_list
    print_rows row slice_to as_bytes encode_char display exit_code
panics_inside = refl

-- The runs of a new directory: a sandbox is created, listed, used and removed.
abbrev invocation : Arguments → Draw × Cli
invocation c = (draw, record { config = some root; json = true; command = c })

abbrev invocations : List (Draw × Cli)
invocations =
    invocation (create (some (codes "a")) none (some MechArg.mac) none (some (codes "1G")))
    ∷ invocation ls
    ∷ invocation (exec none (codes "ls" ∷ []))
    ∷ invocation (rm (codes "a"))
    ∷ []

abbrev empty_world : W setting
empty_world = record {
  disk = record { files = λ p. none; writable = λ p. true; directories = [] };
  outside = tt;
}

invocations-IsRun :
    All
      (IsRun
        (linked setting outside)
        IsPlainName
        (λ id. Unit {0})
        (Owns root)
        (linked-IsRespectful setting outside documents-IsLawful outside-IsApart)
        printer
        none)
      invocations
unfolding command_of
invocations-IsRun = ((refl, a-IsPlainName), ((refl, tt), ((refl, tt), ((refl, tt), tt))))

main_all-linked_example :
    StaysSound
      (linked setting outside)
      IsPlainName
      (λ id. Unit {0})
      (Owns root)
      (linked-IsRespectful setting outside documents-IsLawful outside-IsApart)
      printer
      empty_world
      (inl refl)
      (main_all (linked setting outside) printer none invocations empty_world)
main_all-linked_example =
    main_all-linked setting outside documents-IsLawful outside-IsApart printer none invocations
      empty_world (inl refl) invocations-IsRun

main-Asks_example :
    (main setting printer none draw listing empty_world).1
    ≡ (opened (configured setting none listing) empty_world).1
main-Asks_example = main-Asks setting printer none draw listing empty_world tt

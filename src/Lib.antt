-- ===== src/Lib.antt =====
-- ssbx, a sandbox runner: a policy says what a sandbox may read, reach and use; a store on the disk
-- remembers the sandboxes; a backend runs them; an HTTP CONNECT proxy on the host lets a sandbox
-- with an allowlist reach the policy's endpoints.
--
-- The parts, and the code that they model:
--   Policy         crates/sandbox-policy/src/lib.rs: the schema, its defaults and its errors;
--                  Policy.Size is `parse_size` with the accounting functions, Policy.Mechanism the
--                  text of `MechanismKind` and `resolve_mechanism` (crates/sandbox-core/src/lib.rs),
--                  Policy.Validate is `validate`, Policy.Preflight `preflight`,
--                  Policy.HostPaths `resolve_host_paths`
--   Codec          the calls of serde_yaml and SHA-256 in the same file: `parse_yaml`,
--                  `load_file`, `to_yaml`, `content_hash`
--   Store          crates/sandbox-core/src/state.rs: the index and its records; Store.Index holds
--                  what the methods of `Store` do to the index in memory, Store.Files the methods
--                  with their reads and writes of the disk, in the code's order; `use_sandbox` is
--                  the start of `cmd_exec` (crates/ssbx/src/main.rs)
--   Proxy          crates/sandbox-proxy/src/lib.rs: the allow set and `handle_client`; Proxy.Reader
--                  is the buffered reader with the loop over the headers, Proxy.Server the
--                  accept loop with its handle, whose end is in Proxy.Server.Shutdown, Proxy.Relay
--                  the relay, Proxy.Stall the client that sends no more
--   Command        crates/ssbx/src/main.rs: `load_policy`, and `cmd_create` up to its preflight;
--                  Command.Sandboxes is `mech_box`, `cmd_create` and `cmd_run`, Command.Stored the
--                  other commands and the choice of one, Command.Created and
--                  Command.Removed what they do with a new sandbox,
--                  Command.Duplicate with a name that is taken,
--                  Command.Program the program with the backends of the repository;
--                  Command.Output is what the commands print, Command.Main `main` and `run`,
--                  Command.Panics where they panic, Command.Runs one run after the other
--   Mechanism      crates/sandbox-core/src/lib.rs: the requests, results and errors of the backends,
--                  and the trait as a record of operations over a world, which the commands take
--   Podman         crates/sandbox-mech-podman/src/lib.rs: the arguments of run, and in Podman.Create
--                  those of `create` and `exec`; Podman.Engine and Podman.Containers are the
--                  operations, over a machine that starts the binary
--   Krun           crates/sandbox-mech-krun/src/lib.rs: the stub
--   Secrets        crates/sandbox-core/src/secrets.rs, over the environment, the files and the
--                  locked buffers as parameters; Text.Utf8 is the encoding of Rust's strings
--   Seatbelt       crates/sandbox-mech-mac/src/lib.rs: the profile of a policy, the limits, the child;
--                  Seatbelt.Instances is `create`, `exec` and `remove` on the disk
--   Store.Registry what the index promises, by names, which Store.Refinement shows of its operations
--   Control        crates/sandbox-core/src/control.rs, over the transport of simple_network
--   Prelude, Result, Exec, Text, FilePath, Disk, Float: what the parts share, and what they use of
--                  Rust's standard library
-- A command loads a policy, validates it and runs preflight, creates the sandbox with the backend,
-- saves the policy and inserts the record; with an allowlist it starts the proxy on the set that
-- `allow_from_endpoints` makes of the policy's endpoints.
--
-- How the code is read. A text is the list of its code points, a `HashSet` the list of its members,
-- a time a number. A method of the store takes the disk and gives a result and the disk behind it; a
-- write takes place or fails as a whole, and other processes do not interfere. A connection is the
-- list of what its reads give, in text, and then ends; in Proxy.Stall it stays open. Whether the
-- upstream can be reached is a function of the key, and the proxy's short answers are taken by the
-- client. A write of the relay that fails delivers nothing of its chunk. The accept loop goes in
-- rounds of `select!`, each with a branch that is checked first. A question that `doctor` asks of
-- the podman binary leaves the world as it is. The standard error takes what is written, and the
-- libraries do not panic. A `u64` is a number with its bounds written out. An `f64` is NaN, an
-- infinity or a mantissa of at most 53 bits with an exponent.
--
-- Fuel. `decimal` has 20 digits of fuel, enough for any `u64`, and `hex` has 32, enough for 128
-- bits. `drain` and `drain_open` have one step more than there are characters left, and every step
-- but the last takes one. `times` halves a product at most 12 times, which is enough for a constant
-- below 2 ^ 12.
--
-- Parameters: the serialisers and the hash (`Codec`, with `Codec.IsLawful`: what was written is read
-- back) and the extent engine of limited_core (`Extents`, with `IsLawful`).
-- `Podman.Host` is what the Podman backend asks its host: the paths that are there and their
-- canonical form, a variable of the environment, and how a CPU count is printed.
-- `Secrets.Process` is the environment with the files, `Secrets.LockedBuffers` the buffers of
-- secure_memory (with `IsLawful`: what was locked is read back). `Seatbelt.Host` is what that backend
-- asks its host.
-- `Command.Sandboxes.Setting` is where a command runs: the system, the working directory, the start
-- of the proxy, and the backends, which keep to `Mechanism.Leaves`.
-- `Command.Output.Printer` is serde_json with the texts of documents and times, and the standard
-- output, `Control.Transport` the TCP transport of simple_network. `Command.Main.Draw` is what a
-- run takes from the clock and from `Uuid::new_v4`.
--
-- Not modelled: what is I/O alone: the processes and sockets themselves, the system
-- calls for the limits, the logging and the text of errors on the terminal, and how clap reads the
-- arguments of the command line.
pub mod Prelude
pub mod Result
pub mod Exec
pub mod Text
pub mod FilePath
pub mod Disk
pub mod Float
pub mod Policy
pub mod Codec
pub mod Store
pub mod Proxy
pub mod Mechanism
pub mod Podman
pub mod Krun
pub mod Secrets
pub mod Control
pub mod Seatbelt
pub mod Command

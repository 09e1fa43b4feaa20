-- ===== src/Lib.antt =====
-- Archangel: an administration daemon for Linux hosts. A language model proposes actions, a
-- daemon (crates/archangeld, lower trust) puts them to the policy and to the operator and signs
-- requests, and an executor (crates/archangel-execd) verifies each request again and runs it in a
-- sandbox. Both keep to a signed, hash-chained log. This library models the executor's pipeline,
-- the policy that both sides ask, the plan of the sandbox, the daemon's orchestrator with its
-- sessions and prompts, and the log.
--
-- The parts and their files:
--
-- - Common: shared names, Boolean tests on the native numbers, lists, results, text as lists of
--   code points, and maps as association lists.
-- - Core: crates/archangel-core/src/mode.rs, the operation modes and the risk levels.
-- - Policy/Pathnorm: crates/archangel-policy/src/pathnorm.rs, `normalize_absolute` with its loop
--   as `step` and `walk`, and the error type of error.rs.
-- - Policy/Denylist: crates/archangel-policy/src/denylist.rs. Table holds RULES word for word;
--   `build` goes through it as the source does, `check_command` and `check_path` look up in what
--   it built. The `OnceLock` that keeps the built table is left out: `build` has no input, so
--   that each call gives the same table.
-- - Policy/Allowlist: crates/archangel-policy/src/allowlist.rs, the lookups of a parsed
--   allowlist.
-- - Policy/Engine: crates/archangel-policy/src/lib.rs, `evaluate`, which asks the denylist for
--   each command and each path, then the allowlist, and then decides on approval.
-- - Execd/RateLimit: crates/archangel-execd/src/ratelimit.rs, `try_admit` over three windows.
-- - Execd/Replay: crates/archangel-execd/src/replay.rs, `admit`, for any size of the window of
--   nonces and for the source's 4096.
-- - ExecFormat/Manifest, Ipc: the data of crates/archangel-exec-format/src/manifest.rs and
--   crates/archangel-ipc/src/message.rs that the pipeline handles.
-- - ExecFormat/Args: crates/archangel-exec-format/src/args.rs, `validate` with its two loops; the
--   crate regex is the parameter `Regexes`.
-- - ExecFormat/Hex and ExecFormat/Verify: crates/archangel-exec-format/src/hex.rs and verify.rs,
--   the verification of a bundle's bytes; Ed25519, SHA-256 and the manifest's parser are the
--   parameter `Crypto`, of which nothing is assumed.
-- - Ipc/Envelope: crates/archangel-ipc/src/envelope.rs, `seal`, `open` (`open_envelope`),
--   `to_frame` and `frame_len`, with the bytes of a u32 written out; CBOR and Ed25519 are the
--   parameter `Wire`, of which nothing is assumed.
-- - Execd/Handler: crates/archangel-execd/src/handler.rs, `handle` and `dispatch` with each gate
--   under its own name; `admissible` and `carry_out` are the two stretches of `dispatch` before
--   and behind the rate gate. Handler/Interface holds what needs no collaborator. `Collaborators`
--   is the interface to the crates that the executor calls (the envelope, the bundle loader, the
--   argument check, the sandbox plan, the cgroup, the snapshot, the runner); those that act on
--   the host take the world and give the new one.
-- - Audit: crates/archangel-audit/src/entry.rs and error.rs. Audit/Entry holds `seal`,
--   `chain_hash` and the keys of key.rs, Audit/Log the writer of log.rs (`with_sink`, `append`)
--   over any `DurableSink`, Audit/Verify the verifier of verify.rs with a line, an entry and a
--   seal as functions of their own. Ed25519, SHA-256 and serde_json are the parameter
--   `Externals`, and `IsSound` (Audit/Entry/Laws) states what they document: a key verifies what
--   it signed, hashes and keys are bytes, and what serde_json writes is one line that it reads
--   back. Audit/Tests has a sound instance.
-- - Daemon/Monitor: crates/archangeld/src/monitor.rs and autoloop.rs, `LogTailer::poll`,
--   `LogMatcher`, `LogMonitor::poll` and `poll_actionable`; a poll is given the state of every
--   file (FileState), and regular expressions and texts of paths are the interface `Host`.
--   Monitor/Cooldown holds `CooldownGate` with its reference, Monitor/Tailer what a poll
--   consumes. Instants are numbers of nanoseconds.
-- - Sandbox: crates/archangel-sandbox/src. Sandbox/Limits holds the parsers of `cpu_max` and
--   `memory_max` and the contents of the controller files (cgroup.rs), Sandbox/Cgroup the cgroup
--   of an action over the interface `CgroupFiles`, Sandbox/Plan `plan` and `resolve` (plan.rs,
--   capability.rs) over the parameter `Kernel`: the seccomp compiler and the names of
--   capabilities. Sandbox/Names is about the ordered set that `resolve` fills, a list in
--   ascending order.
-- - Daemon/Session: crates/archangeld/src/session.rs, `sign_exec_request`; the nonce, the clock
--   and the fresh keys are arguments. Session/Admitted composes it with the envelope and the
--   executor's replay guard.
-- - Daemon/Prompt and Daemon/Response: crates/archangeld/src/prompt.rs and response.rs, `build`,
--   `wrap_untrusted`, the canary's test and `parse_model_response`; serde_json's reading of one
--   object is the parameter `from_str`.
-- - Daemon/Orchestrator: crates/archangeld/src/orchestrator.rs. The file holds the state and the
--   steps that all operations share (`record_event` is an append to the log of Audit, `dispatch`,
--   `record_outcome`, `prune_pending`), Orchestrator/Invoke `invoke`, Orchestrator/Run `run_task`
--   and `start`, Orchestrator/Approve `approve` and `reject`. A step is a function from the
--   orchestrator to the orchestrator and its answer, chained by `do`. The model, the executor's
--   transport, the files, the clock and the random numbers are the interface `Setting`, together
--   with derived Debug and Display texts; Effects, Proposals, Answers and Tasks prove what the
--   steps do to the transport and to the pending actions, Reachable what holds after any number
--   of operations.
--
-- How it is modelled: a method that changes its object is a function from the object to the
-- object and the answer. Text is a list of code points, the `Instant` of a limit a number of
-- nanoseconds, and a formatted message the constructor of what it is formatted from. Every loop
-- is structural recursion on the list it goes through, so that no fuel is needed. The u64 numbers
-- that the program counts with stop at their largest value (`saturating_add`, Common/Machine),
-- and a product that a u64 cannot hold is an error.
--
-- The crates globset and regex are the parameter `Matchers` (Policy/Denylist): constructors of a
-- set, which may fail, a set's matches, and the matchers of a single pattern. `IsLawful` states
-- what they document: a set reports the index of exactly those members that match. Policy/Tests
-- has a lawful instance.
--
-- Not modelled: files, sockets, processes and the TOML and JSON parsers (I/O and third-party
-- crates); the system call table and the kernel calls of the sandbox; the snapshots, the egress
-- filter, the configuration, the live loop that hands an alert to the orchestrator (main.rs), the
-- backends of the language model, and the operator's command line.
pub mod Common
pub mod Core
pub mod Policy
pub mod Sandbox
pub mod ExecFormat
pub mod Ipc
pub mod Execd
pub mod Audit
pub mod Daemon

-- ===== src/Lib.antt =====
-- A model of the substrate kernel and what is proved of it.
--
-- The program is one kernel with seven primitives (module, artifact, contract, event, ledger,
-- registry, run) behind one interface, `KernelApi`, in three languages, and a framework of hosts
-- and plugins on top. This is the Rust kernel, kernel/sdk/rust/src/lib.rs, with the messages of
-- kernel/contracts/proto/srcport/substrate/v1/substrate.proto, and the parts that the Rust
-- framework's host composes, in framework/sdk/rust/src: run policies, cuts of assemblies, memo
-- records and tables. A policy is compiled into the policy and limits of the kernel's run request;
-- a cut is an assembly that the kernel validates and runs, with seeds as run inputs.
--
-- Base          tests of numbers, lists, strings and maps. A `String` and a `Vec<u8>` are lists of
--               bytes. A map is the list of its entries by ascending key: the order of a `BTreeMap`,
--               and one of the orders that a `HashMap` may iterate in.
-- Proto         the messages and enums. `Run.state` is the enum and not its number, since the kernel
--               writes only enumerators into it.
-- Kernel.Platform   SHA-256, the protobuf encoder and Rust's formatting of numbers and strings, which
--               the source calls and does not hold: fields of an instance argument, of which no
--               law is assumed except where a theorem names it.
-- Kernel.Error  `KernelError` and results; `panic` stands for `unwrap()` of `None`.
-- Kernel.Digest     content addresses, `ledger_hash`, `verify_chain`, `derivation_id`.
-- Kernel.Bag    traits of artifacts: `project_traits`, `merge_traits` and their kin.
-- Kernel.State  the records behind the kernel's lock, `append_locked`, deadlines and the replay of
--               replies under a request key. A method takes the lock for its whole run, so it is one
--               action `State → Result A × State`, which leaves a state also when it fails.
-- Kernel.Registry   modules, lifecycle, contracts, bus, `append`, `snapshot`.
-- Kernel.Store, Kernel.Blobs    the store policy and the content-addressed stores.
-- Kernel.Assembly, Kernel.Cycle, Kernel.Validate    `materialize_assembly`, `validate_assembly`
--               with its search for cycles, `validate_outputs`.
-- Kernel.Ready  inputs, firing and unit keys of nodes: what can be claimed.
-- Kernel.Runs, Kernel.Lease, Kernel.Commit    the engine: `start_run_ctx`, `inject_input_ctx`,
--               `cancel_run`; `claim_ready`, `heartbeat`, reaping; `fail_work` and `commit_ctx`.
-- Kernel.Api    the calls of `KernelApi` as one type, `perform` for one of them and `serve` for a
--               sequence of them.
-- Kernel.Keeps, Kernel.Traverse    relations between the states before and after a call, for the
--               proofs over all sequences of calls in Kernel.Ledger, Kernel.Stores, Kernel.Known,
--               Kernel.Sound and Kernel.Registry.Kept.
-- Kernel.Examples   a platform, states and calls to run the kernel on.
--
-- Framework.Error   `FrameworkError` of lib.rs; a failed kernel call is one of its values.
-- Framework.Reach   the two breadth-first searches of cut.rs.
-- Framework.Cut, Framework.Seeds    cut.rs: the nodes that a `NodePlan` keeps, `materialize_cut`;
--               `seeds_from_run`, whose kernel reply is an argument, `merge_inputs` and
--               `validate_seeds_present`.
-- Framework.Policy  policy.rs: `FrameworkPolicy` and what it compiles to.
-- Framework.Memo    memo.rs: memo keys, records and `MemoryMemo`.
-- Framework.Storage, Framework.Tables   storage.rs: plans, schemas and names; rows and
--               `MemoryStorage`. No law is assumed of the equality of floats and JSON values.
-- Framework.Foreign, Framework.Outside      what a host calls and the source does not hold: the clock,
--               plugins with a world that they may change, floats and serde_json.
-- Framework.Presentation, Framework.Step    presentation.rs, and the data of a step in lib.rs.
-- Framework.Host    `Host` of lib.rs over the kernel, tables and memo records in memory:
--               `register_plugin`, presentation events; Framework.Host.SideTables its storage
--               helpers; Framework.Host.Start `start_pipeline`, `resume_after` and `cancel`;
--               Framework.Host.Steps `try_memo_hit`, `finish_work_unit` and `try_step`;
--               Framework.Host.Waves `drive_claim_wave` and `finish_work_units_parallel`, whose
--               threads are a parameter that returns what they return in any interleaving;
--               Framework.Host.Drive `drive_until_idle`, `drive_with` and `inject`;
--               Framework.Host.Calls the host's methods as one type, and sequences of them.
-- Framework.Host.Upholds    relations between the hosts before and after a method, for the proofs
--               over all sequences of methods in Framework.Host.Plugins and Framework.Host.Named.
-- Framework.Examples    inputs to run the framework's parts on.
--
-- The readings of the clock are arguments of the methods that make them. The recursive search
-- for cycles runs on fuel, one more than the number of nodes, since a longer path meets a node
-- that is being visited, where the search ends. The breadth-first searches run on fuel as well,
-- one more than the number of edges, since each edge puts its end into the queue at most once.
-- `drive_until_idle` takes its fuel from the caller and returns `none` when it is used up: plugins
-- decide how long a run lasts. The other loops are over lists and recurse on them. Machine integers
-- wrap or saturate where the code does.
--
-- Not modelled: serialization by serde, the SDKs in Go and Python, the build script, the receiving
-- ends of subscriptions, which are outside the kernel, and the methods that only call another with
-- a default context.
pub mod Base
pub mod Proto
pub mod Kernel
pub mod Framework

-- ===== src/Kernel/Runs.antt =====
-- Starting, feeding, cancelling and reading runs.
use srcport_substrate.Base.{
  ℕ, ◌+◌, ◌-◌, ◌^◌, Bool, true, false, not, Option, none, some, List, [], ◌∷◌, ◌++◌, Str, no_bytes,
  lit, is_empty, ◌==◌, length, ltb, eqb, if◌then◌else◌, filter, any, unwrap_or,
}
use srcport_substrate.Base.Int.{ℤ}
use srcport_substrate.Base.Map
use srcport_substrate.Base.Map.{Map}
use srcport_substrate.Proto.{
  RunState, NamedArtifact, Assembly, Limits, Run, RunRequest, InjectInputRequest, Derivation,
  RequestContext,
}
use srcport_substrate.Kernel.Platform.{Platform, named_artifact}
use srcport_substrate.Kernel.Platform
use srcport_substrate.Kernel.Error.{not_found, invalid, conflict, run_closed}
use srcport_substrate.Kernel.State.{
  State, RunSlot, IdempotentResult, M, ◌>>=◌, ◌>>◌, pure, fail, lift, gets, modify, ok_or,
  refuse_if, check_deadline, idempotent_get, idempotent_put, append_locked,
}
use srcport_substrate.Kernel.State
use srcport_substrate.Kernel.Assembly.{materialize_assembly}
use srcport_substrate.Kernel.Validate.{validate_assembly}

abbrev pub default_lease : ℕ
default_lease = 60000

abbrev pub default_max_attempts : ℕ
default_max_attempts = 3

abbrev pub is_running : RunState → Bool
is_running RunState.running = true
is_running _ = false

-- `get_mut` and the writes through it.
unfoldable pub set_slot : Str → RunSlot → State → State
set_slot id slot state = record state { runs = Map.insert id slot state.runs }

-- The slot of a run that is there and RUNNING.
unfoldable pub running_slot : Str → M RunSlot
running_slot id = do
  found ← gets (λ s. Map.lookup id s.runs)
  slot ← ok_or found (not_found id)
  refuse_if (not (is_running slot.run.state)) (run_closed slot.run.state)
  pure slot

-- A limit, or the default where it is 0 or absent.
abbrev pub or_default : ℕ → ℕ → ℕ
or_default d n = if eqb n 0 then d else n

abbrev no_limits : Limits
no_limits = record { max_steps = 0; max_in_flight = 0; default_lease_ms = 0; max_attempts = 0 }

zero_epochs : List NamedArtifact → Map ℕ → Map ℕ
zero_epochs [] epochs = epochs
zero_epochs (input ∷ inputs) epochs = zero_epochs inputs (Map.insert input.name 0 epochs)

unfoldable pub new_run : RunRequest → Assembly → Run
new_run req assembly = record {
  id = req.id;
  assembly = some assembly;
  inputs = req.inputs;
  state = RunState.running;
  answer = none;
  steps = 0;
  max_steps = or_default (length assembly.nodes) (unwrap_or req.limits no_limits).max_steps;
  reason = no_bytes;
  policy = req.policy;
}

unfoldable pub new_slot : RunRequest → Run → RunSlot
unfolding zero_epochs
new_slot req run = record {
  run = run;
  claimed = [];
  latest = [];
  done_units = [];
  claim_attempts = [];
  input_epochs = zero_epochs req.inputs [];
  node_commits = [];
  max_in_flight = (unwrap_or req.limits no_limits).max_in_flight;
  default_lease_ms = or_default default_lease (unwrap_or req.limits no_limits).default_lease_ms;
  max_attempts = or_default default_max_attempts (unwrap_or req.limits no_limits).max_attempts;
}

-- The first input of the name is replaced, or the input is added at the end.
unfoldable pub place_input : NamedArtifact → List NamedArtifact → List NamedArtifact
place_input input [] = input ∷ []
place_input input (i ∷ inputs) =
    let rest = place_input input inputs in if i.name == input.name then input ∷ inputs else i ∷ rest

abbrev pub u64_max : ℕ
u64_max = 2 ^ 64 - 1

unfoldable pub inject_slot : NamedArtifact → RunSlot → RunSlot
inject_slot input slot =
    let epoch = Map.get_or input.name 0 slot.input_epochs in
    record slot {
      run = record slot.run { inputs = place_input input slot.run.inputs };
      input_epochs =
          Map.insert input.name (if ltb epoch u64_max then epoch + 1 else u64_max)
            slot.input_epochs;
    }

unfoldable pub is_bound : Str → Option Assembly → Bool
is_bound name none = false
is_bound name (some a) = any (λ b. b.input == name) a.bindings

unfoldable pub cancel_slot : RunSlot → RunSlot
cancel_slot slot = record slot {
  run = record slot.run { state = RunState.cancelled; reason = lit "cancelled" };
  claimed = [];
}

module _ ⦃p : Platform⦄ where
  unfoldable pub log_run : Str → Run → State → State
  log_run kind run state = append_locked kind run.id (p.encode_to_vec (Platform.run run)) state

  unfoldable pub start_fresh : RunRequest → RequestContext → M Run
  start_fresh req ctx = do
    refuse_if (is_empty req.id) (invalid (lit "run id is required"))
    known ← gets (λ s. Map.contains_key req.id s.runs)
    refuse_if known (conflict (lit "run " ++ (req.id ++ lit " already exists")))
    requested ← ok_or req.assembly (invalid (lit "assembly is required"))
    assembly ← lift (materialize_assembly requested req.include_nodes)
    valid ← gets (λ s. validate_assembly s assembly req.inputs)
    lift valid
    let run = new_run req assembly
    refuse_if (eqb run.max_steps 0) (invalid (lit "max_steps must be positive"))
    modify (set_slot run.id (new_slot req run))
    modify (log_run (lit "run.started") run)
    modify (idempotent_put (lit "start_run") ctx (State.run run))
    pure run

  unfoldable pub start_unless_replayed :
      RunRequest → RequestContext → Option IdempotentResult → M Run
  start_unless_replayed req ctx (some (State.run r)) = pure r
  start_unless_replayed req ctx _ = start_fresh req ctx

  unfoldable pub start_run_ctx : ℤ → RunRequest → RequestContext → M Run
  start_run_ctx now req ctx = do
    lift (check_deadline now ctx)
    replay ← gets (idempotent_get (lit "start_run") ctx)
    start_unless_replayed req ctx replay

  unfoldable pub inject_input_ctx : ℤ → InjectInputRequest → RequestContext → M Run
  inject_input_ctx now req ctx = do
    lift (check_deadline now ctx)
    input ← ok_or req.input (invalid (lit "input is required"))
    refuse_if (is_empty input.name) (invalid (lit "input name is required"))
    r ← ok_or input.artifact (invalid (lit "input " ++ (input.name ++ lit " has no artifact")))
    stored ← gets (λ s. Map.contains_key r.id s.artifacts)
    refuse_if (not stored) (not_found r.id)
    slot ← running_slot req.run_id
    refuse_if (not (is_bound input.name slot.run.assembly))
        (invalid (lit "run input " ++ (input.name ++ lit " is not bound in the assembly")))
    let slot' = inject_slot input slot
    modify (set_slot req.run_id slot')
    modify (
        append_locked (lit "run.input_injected") slot'.run.id
          (p.encode_to_vec (named_artifact input)))
    pure slot'.run

  unfoldable pub cancel_run : Str → M Run
  cancel_run id = do
    slot ← running_slot id
    let slot' = cancel_slot slot
    modify (set_slot id slot')
    modify (log_run (lit "run.cancelled") slot'.run)
    pure slot'.run

unfoldable pub get_run : Str → M Run
get_run id = do
  found ← gets (λ s. Map.lookup id s.runs)
  slot ← ok_or found (not_found id)
  pure slot.run

unfoldable pub list_derivations : Str → M (List Derivation)
list_derivations id = do
  known ← gets (λ s. Map.contains_key id s.runs)
  refuse_if (not known) (not_found id)
  gets (λ s. filter (λ d. d.run_id == id) s.derivations)

-- ===== src/Framework/Policy.antt =====
-- framework/sdk/rust/src/policy.rs: run modes and plans, and what they compile to in the kernel.
pub mod Compile
use srcport_substrate.Base.{
  ℕ, ◌+◌, ◌*◌, ◌-◌, ◌^◌, Bool, true, false, Option, none, some, List, [], ◌∷◌, Str, length, ltb,
  if◌then◌else◌, unwrap_or,
}
use srcport_substrate.Base.Int.{ℤ, pos}
use srcport_substrate.Base.Map
use srcport_substrate.Base.Map.{Map}
use srcport_substrate.Proto.{
  Closure, closure_number, Firing, firing_number, AssemblyNode, Assembly, ExecutionPolicy, Limits,
  RunRequest,
}
use srcport_substrate.Framework.Memo.{MemoPlan}
use srcport_substrate.Framework.Memo
use srcport_substrate.Framework.Storage.{StoragePlan}
use srcport_substrate.Framework.Storage

pub data RunMode : Type 0 where
  converge stream dedupe_stream selective : RunMode
  manual : Closure → RunMode

pub data FiringPlan : Type 0 where
  capability_defaults : FiringPlan
  all : Firing → FiringPlan
  by_map : Firing → Map Firing → FiringPlan

pub data NodePlan : Type 0 where
  all : NodePlan
  only : List Str → NodePlan
  after from : Str → NodePlan

pub data DrivePlan : Type 0 where
  until_idle one_pass until_idle_then_wait : DrivePlan

pub data DriveAfter : Type 0 where
  never until_idle one_pass : DriveAfter

pub record FrameworkPolicy : Type 0 where
  pub mode : RunMode
  pub firing : FiringPlan
  pub nodes : NodePlan
  pub max_steps : Option ℕ
  pub drive : DrivePlan
  pub claim_modules : Option (List Str)
  pub storage : StoragePlan
  pub memo : MemoPlan
  pub concurrency : Option ℕ
  pub claim_batch : Option ℕ
  pub lease_ms : Option ℕ
  pub max_attempts : Option ℕ

abbrev pub default_concurrency : ℕ
default_concurrency = 8

abbrev pub base : RunMode → FiringPlan → NodePlan → DrivePlan → FrameworkPolicy
base mode firing nodes drive = record {
  mode = mode;
  firing = firing;
  nodes = nodes;
  max_steps = none;
  drive = drive;
  claim_modules = none;
  storage = Storage.off_plan;
  memo = Memo.off;
  concurrency = none;
  claim_batch = none;
  lease_ms = none;
  max_attempts = none;
}

abbrev pub converge_policy : FrameworkPolicy
converge_policy = base converge capability_defaults NodePlan.all DrivePlan.until_idle

abbrev pub memoized : FrameworkPolicy
memoized = record converge_policy { memo = Memo.on }

abbrev pub stream_policy : FrameworkPolicy
stream_policy = base stream (FiringPlan.all Firing.always) NodePlan.all until_idle_then_wait

abbrev pub stream_dedupe : FrameworkPolicy
stream_dedupe =
    base dedupe_stream (FiringPlan.all Firing.once_per_key) NodePlan.all until_idle_then_wait

abbrev pub selective_policy : List Str → FrameworkPolicy
selective_policy node_ids = base selective capability_defaults (only node_ids) DrivePlan.until_idle

abbrev pub start_after : Str → FrameworkPolicy
start_after node = base selective capability_defaults (after node) DrivePlan.until_idle

abbrev pub from_node : Str → FrameworkPolicy
from_node node = base selective capability_defaults (from node) DrivePlan.until_idle

abbrev pub manual_policy : Closure → FrameworkPolicy
manual_policy closure = base (manual closure) capability_defaults NodePlan.all DrivePlan.until_idle

abbrev pub max_1 : ℕ → ℕ
max_1 n = if ltb n 1 then 1 else n

abbrev pub with_firing : FiringPlan → FrameworkPolicy → FrameworkPolicy
with_firing firing self = record self { firing = firing }

abbrev pub with_nodes : NodePlan → FrameworkPolicy → FrameworkPolicy
with_nodes nodes self = record self { nodes = nodes }

abbrev pub with_drive : DrivePlan → FrameworkPolicy → FrameworkPolicy
with_drive drive self = record self { drive = drive }

abbrev pub with_max_steps : ℕ → FrameworkPolicy → FrameworkPolicy
with_max_steps max_steps self = record self { max_steps = some max_steps }

abbrev pub with_claim_modules : List Str → FrameworkPolicy → FrameworkPolicy
with_claim_modules modules self = record self { claim_modules = some modules }

abbrev pub with_storage : StoragePlan → FrameworkPolicy → FrameworkPolicy
with_storage storage self = record self { storage = storage }

abbrev pub with_memo : MemoPlan → FrameworkPolicy → FrameworkPolicy
with_memo memo self = record self { memo = memo }

abbrev pub with_lease_ms : ℕ → FrameworkPolicy → FrameworkPolicy
with_lease_ms ms self = record self { lease_ms = some ms }

unfoldable pub with_concurrency : ℕ → FrameworkPolicy → FrameworkPolicy
with_concurrency n self = record self { concurrency = some (max_1 n) }

unfoldable pub with_claim_batch : ℕ → FrameworkPolicy → FrameworkPolicy
with_claim_batch n self = record self { claim_batch = some (max_1 n) }

unfoldable pub with_max_attempts : ℕ → FrameworkPolicy → FrameworkPolicy
with_max_attempts n self = record self { max_attempts = some (max_1 n) }

unfoldable pub effective_concurrency : FrameworkPolicy → ℕ
effective_concurrency self = max_1 (unwrap_or self.concurrency default_concurrency)

unfoldable pub effective_claim_batch : FrameworkPolicy → ℕ
unfolding effective_concurrency
effective_claim_batch self = max_1 (unwrap_or self.claim_batch (effective_concurrency self))

abbrev pub closure_of_mode : RunMode → Closure
closure_of_mode converge = Closure.first_terminal
closure_of_mode selective = Closure.first_terminal
closure_of_mode stream = Closure.open_closure
closure_of_mode dedupe_stream = Closure.open_closure
closure_of_mode (manual closure) = closure

unfoldable pub closure : FrameworkPolicy → Closure
closure self = closure_of_mode self.mode

-- The loop over the nodes under `FiringPlan::All`.
unfoldable pub pin_nodes : Firing → List AssemblyNode → Map ℤ → Map ℤ
unfolding Map.insert
pin_nodes f [] by_node = by_node
pin_nodes f (n ∷ nodes) by_node =
    pin_nodes f nodes (Map.insert n.id (pos (firing_number f)) by_node)

abbrev pub numbers : Map Firing → Map ℤ
numbers [] = []
numbers ((k, v) ∷ m) = (k, pos (firing_number v)) ∷ numbers m

-- `default` and `by_node`.
unfoldable pub firing_fields : FiringPlan → Option Assembly → ℤ × Map ℤ
unfolding pin_nodes
firing_fields capability_defaults assembly = (pos 0, [])
firing_fields (FiringPlan.all f) none = (pos (firing_number f), [])
firing_fields (FiringPlan.all f) (some a) = (pos (firing_number f), pin_nodes f a.nodes [])
firing_fields (by_map default by_node) assembly = (pos (firing_number default), numbers by_node)

unfoldable pub execution_policy_for : Option Assembly → FrameworkPolicy → ExecutionPolicy
unfolding firing_fields closure
execution_policy_for assembly self =
    let (default, by_node) = firing_fields self.firing assembly in
    record { default = default; by_node = by_node; closure = pos (closure_number (closure self)) }

abbrev pub execution_policy : FrameworkPolicy → ExecutionPolicy
execution_policy self = execution_policy_for none self

abbrev pub included : NodePlan → List Str
included (only ids) = ids
included _ = []

unfoldable pub include_nodes : FrameworkPolicy → List Str
include_nodes self = included self.nodes

unfoldable pub needs_cut : FrameworkPolicy → Bool
needs_cut self = elim self.nodes [ NodePlan.all ↦ false | _ ↦ true ]

-- `saturating_mul(10_000).max(10_000)`
abbrev pub stream_steps : ℕ → ℕ
stream_steps node_count =
    let bound = if ltb (node_count * 10000) (2 ^ 64) then node_count * 10000 else 2 ^ 64 - 1 in
    if ltb bound 10000 then 10000 else bound

unfoldable pub default_max_steps : ℕ → FrameworkPolicy → ℕ
unfolding closure
default_max_steps node_count self = elim (closure self) [
  | Closure.open_closure ↦ stream_steps node_count
  | _ ↦ 0
]

unfoldable pub resolve_max_steps : Assembly → FrameworkPolicy → ℕ
unfolding default_max_steps
resolve_max_steps assembly self =
    unwrap_or self.max_steps (default_max_steps (length assembly.nodes) self)

abbrev pub node_count : Option Assembly → ℕ
node_count none = 0
node_count (some a) = length a.nodes

unfoldable pub apply_to_run_request : RunRequest → FrameworkPolicy → RunRequest
unfolding execution_policy_for include_nodes default_max_steps effective_concurrency
apply_to_run_request req self = record req {
  policy = some (execution_policy_for req.assembly self);
  include_nodes = include_nodes self;
  limits = some (record {
    max_steps = unwrap_or self.max_steps (default_max_steps (node_count req.assembly) self);
    max_in_flight = effective_concurrency self;
    default_lease_ms = unwrap_or self.lease_ms 0;
    max_attempts = unwrap_or self.max_attempts 0;
  });
}

unfoldable pub effective_drive : FrameworkPolicy → DrivePlan
effective_drive self = elim self.drive [
  | until_idle_then_wait ↦ DrivePlan.until_idle
  | other ↦ other
]

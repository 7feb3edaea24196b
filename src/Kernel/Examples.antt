-- ===== src/Kernel/Examples.antt =====
-- A platform, messages and states to run the kernel on.
mod Artifacts
mod Registry
mod Work
mod Closing
mod Frozen
use srcport_substrate.Base.{true, false, List, [], ◌∷◌, none, some, Str, Bytes, lit}
use srcport_substrate.Base.Int.{pos}
use srcport_substrate.Proto.{
  Lifecycle, RunState, Port, Capability, ModuleManifest, Contract, Trait, Artifact, ArtifactRef,
  ArtifactStorePolicy, Event, AssemblyNode, Binding, NodeOutput, Assembly, NamedArtifact, Run,
  RequestContext, AppendRequest,
}
use srcport_substrate.Kernel.Platform.{Platform}
use srcport_substrate.Kernel.State.{State, default_state, RunSlot, Sub, ModuleSlot, ClaimedSlot}

-- The hash is the identity here, and every message has the same bytes.
instance abbrev pub example_platform : Platform
example_platform = record {
  sha256 = λ bytes. bytes;
  encode_to_vec = λ message. 7 ∷ [];
  show_nat = λ n. n ∷ [];
  debug_str = λ s. s;
  debug_strs = λ l. [];
}

abbrev pub example_policy : ArtifactStorePolicy
example_policy = record {
  max_inline_bytes = 1024;
  max_blob_bytes = 0;
  ingest_mode = pos 1;
  durability = pos 1;
}

abbrev pub keyed : RequestContext
keyed = record {
  caller = lit "host";
  request_key = lit "k1";
  deadline_unix_ms = pos 0;
  correlation_id = [];
}

abbrev pub note : Artifact
note = record {
  id = [];
  meta = [];
  produced_by = lit "author";
  traits = (lit "t", record { body = 1 ∷ 2 ∷ []; object = none }) ∷ [];
  entity_id = [];
  supersedes = [];
}

abbrev pub started : Event
started = record {
  id = [];
  topic = lit "runs";
  event_type = lit "started";
  source = lit "m";
  seq = 0;
  run_id = [];
  artifacts = [];
}

abbrev pub remark : AppendRequest
remark = record { kind = lit "note"; subject = lit "s"; detail = 5 ∷ [] }

abbrev pub listener : Sub
listener = record { topics = lit "runs" ∷ []; queue = []; connected = true }

-- A module whose capability turns a trait `t` into a trait `t`.
abbrev pub port_of : Str → Port
port_of name = record {
  name = name;
  multiple = false;
  optional = false;
  key = false;
  traits = lit "t" ∷ [];
}

abbrev pub copier : ModuleSlot
copier = record {
  manifest = record {
    name = lit "copier";
    version = lit "1";
    provides =
        (record {
          name = lit "copy";
          inputs = port_of (lit "in") ∷ [];
          outputs = port_of (lit "out") ∷ [];
          firing = pos 0;
        })
        ∷ [];
    requires = [];
  };
  lifecycle = Lifecycle.active;
}

abbrev pub node_of : Str → AssemblyNode
node_of id = record {
  id = id;
  module_name = lit "copier";
  module_version = lit "1";
  capability = lit "copy";
}

abbrev pub from_input : Binding
from_input = record {
  to_node = lit "a";
  to_port = lit "in";
  from_node = [];
  from_port = [];
  input = lit "x";
}

abbrev pub from_a : Binding
from_a = record {
  to_node = lit "b";
  to_port = lit "in";
  from_node = lit "a";
  from_port = lit "out";
  input = [];
}

-- The node `a` reads the run's input and feeds the node `b`.
abbrev pub pipeline : Assembly
pipeline = record {
  id = lit "pipeline";
  nodes = node_of (lit "a") ∷ node_of (lit "b") ∷ [];
  bindings = from_input ∷ from_a ∷ [];
  terminal = some (record { node = lit "b"; port = lit "out" });
}

abbrev pub input_x : NamedArtifact
input_x = record { name = lit "x"; artifact = some (record { id = lit "note" }) }

abbrev pub ready_state : State
ready_state = record default_state { modules = copier ∷ []; artifacts = (lit "note", note) ∷ [] }

abbrev pub run_in : RunState → RunSlot
run_in state = record {
  run = record {
    id = lit "r";
    assembly = some pipeline;
    inputs = input_x ∷ [];
    state = state;
    answer = none;
    steps = 0;
    max_steps = 2;
    reason = [];
    policy = none;
  };
  claimed = [];
  latest = [];
  done_units = [];
  claim_attempts = [];
  input_epochs = [];
  node_commits = [];
  max_in_flight = 1;
  default_lease_ms = 1000;
  max_attempts = 3;
}

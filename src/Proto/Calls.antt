-- ===== src/Proto/Calls.antt =====
-- Requests, replies and the call metadata.
use srcport_substrate.Base.{ℕ, Bool, List, Option, Str, Bytes}
use srcport_substrate.Base.Int.{ℤ}
use srcport_substrate.Proto.Registry.{Capability, ModuleManifest, Contract}
use srcport_substrate.Proto.Artifacts.{ArtifactStorePolicy}
use srcport_substrate.Proto.Runs.{NamedArtifact, Assembly, Limits, ExecutionPolicy}

pub record RunRequest : Type 0 where
  pub id : Str
  pub assembly : Option Assembly
  pub inputs : List NamedArtifact
  pub limits : Option Limits
  pub include_nodes : List Str
  pub policy : Option ExecutionPolicy

pub record InjectInputRequest : Type 0 where
  pub run_id : Str
  pub input : Option NamedArtifact

pub record ClaimRequest : Type 0 where
  pub run_id : Str
  pub module_name : Str
  pub node_ids : List Str
  pub max_items : ℕ
  pub modules : List Str

pub record HeartbeatRequest : Type 0 where
  pub run_id : Str
  pub work_ids : List Str
  pub extend_lease_ms : ℕ

pub record HeartbeatResponse : Type 0 where
  pub renewed_work_ids : List Str
  pub lost_work_ids : List Str

pub record FailWorkRequest : Type 0 where
  pub run_id : Str
  pub work_id : Str
  pub reason : Str
  pub terminal : Bool

pub record RequestContext : Type 0 where
  pub caller : Str
  pub request_key : Str
  pub deadline_unix_ms : ℤ
  pub correlation_id : Str

pub record ErrorMessage : Type 0 where
  pub code : ℕ
  pub message : Str
  pub retryable : Bool
  pub conflict_subject : Str
  pub failed_precondition : Str

pub record TransitionRequest : Type 0 where
  pub module_name : Str
  pub to : ℤ

pub record AppendRequest : Type 0 where
  pub kind : Str
  pub subject : Str
  pub detail : Bytes

pub record RegistrySnapshot : Type 0 where
  pub modules : List ModuleManifest
  pub capabilities : List Capability
  pub contracts : List Contract
  pub store_policy : Option ArtifactStorePolicy

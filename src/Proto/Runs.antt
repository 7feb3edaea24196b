-- ===== src/Proto/Runs.antt =====
-- Assemblies, runs and work.
use srcport_substrate.Base.{ℕ, Bool, List, Option, Str}
use srcport_substrate.Base.Int.{ℤ}
use srcport_substrate.Base.Map.{Map}
use srcport_substrate.Proto.Enums.{RunState}
use srcport_substrate.Proto.Artifacts.{ArtifactRef}

pub record NamedArtifact : Type 0 where
  pub name : Str
  pub artifact : Option ArtifactRef

pub record AssemblyNode : Type 0 where
  pub id : Str
  pub module_name : Str
  pub module_version : Str
  pub capability : Str

pub record Binding : Type 0 where
  pub to_node : Str
  pub to_port : Str
  pub from_node : Str
  pub from_port : Str
  pub input : Str

pub record NodeOutput : Type 0 where
  pub node : Str
  pub port : Str

pub record Assembly : Type 0 where
  pub id : Str
  pub nodes : List AssemblyNode
  pub bindings : List Binding
  pub terminal : Option NodeOutput

pub record Limits : Type 0 where
  pub max_steps : ℕ
  pub max_in_flight : ℕ
  pub default_lease_ms : ℕ
  pub max_attempts : ℕ

pub record ExecutionPolicy : Type 0 where
  pub default : ℤ
  pub by_node : Map ℤ
  pub closure : ℤ

-- The kernel writes only enumerators into `state`, so it is one.
pub record Run : Type 0 where
  pub id : Str
  pub assembly : Option Assembly
  pub inputs : List NamedArtifact
  pub state : RunState
  pub answer : Option ArtifactRef
  pub steps : ℕ
  pub max_steps : ℕ
  pub reason : Str
  pub policy : Option ExecutionPolicy

pub record WorkItem : Type 0 where
  pub id : Str
  pub run_id : Str
  pub node_id : Str
  pub module_name : Str
  pub module_version : Str
  pub capability : Str
  pub inputs : List NamedArtifact
  pub unit_key : Str
  pub attempt : ℕ
  pub lease_until_unix_ms : ℤ

pub record WorkFailure : Type 0 where
  pub run_id : Str
  pub work_id : Str
  pub unit_key : Str
  pub reason : Str
  pub terminal : Bool
  pub attempt : ℕ

pub record Derivation : Type 0 where
  pub id : Str
  pub run_id : Str
  pub work_id : Str
  pub node_id : Str
  pub module_name : Str
  pub module_version : Str
  pub capability : Str
  pub inputs : List NamedArtifact
  pub outputs : List NamedArtifact

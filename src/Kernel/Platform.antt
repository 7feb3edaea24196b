-- ===== src/Kernel/Platform.antt =====
-- What the kernel calls and does not implement: SHA-256 (crate sha2), the protobuf encoder (prost)
-- and the formatting of Rust's standard library.
use srcport_substrate.Base.{ℕ, List, Str, Bytes}
use srcport_substrate.Proto.{
  ModuleManifest, Artifact, BlobRef, Contract, Event, Run, NamedArtifact, WorkItem, WorkFailure,
  Derivation,
}

-- The messages that are encoded into the detail of a ledger entry.
pub data Message : Type 0 where
  module_manifest : ModuleManifest → Message
  artifact : Artifact → Message
  blob_ref : BlobRef → Message
  contract : Contract → Message
  event : Event → Message
  run : Run → Message
  named_artifact : NamedArtifact → Message
  work_item : WorkItem → Message
  work_failure : WorkFailure → Message
  derivation : Derivation → Message

pub record Platform : Type 0 where
  -- Sha256::new, update, finalize
  pub sha256 : Bytes → Bytes
  -- Message::encode_to_vec
  pub encode_to_vec : Message → Bytes
  -- `{}` of an integer
  pub show_nat : ℕ → Str
  -- `{:?}` of a string and of a vector of strings
  pub debug_str : Str → Str
  pub debug_strs : List Str → Str

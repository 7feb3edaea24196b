-- ===== src/Proto/Artifacts.antt =====
-- Artifacts, blobs and the store policy.
use srcport_substrate.Base.{ℕ, Bool, List, Option, Str, Bytes}
use srcport_substrate.Base.Int.{ℤ}
use srcport_substrate.Base.Map.{Map}

pub record BlobRef : Type 0 where
  pub digest : Str
  pub byte_count : ℕ
  pub namespace : Str

pub record ObjectRef : Type 0 where
  pub digest : Str
  pub byte_count : ℕ
  pub namespace : Str

pub record Trait : Type 0 where
  pub body : Bytes
  pub object : Option ObjectRef

pub record Artifact : Type 0 where
  pub id : Str
  pub meta : Map Str
  pub produced_by : Str
  pub traits : Map Trait
  pub entity_id : Str
  pub supersedes : Str

pub record ArtifactRef : Type 0 where
  pub id : Str

pub record ArtifactStorePolicy : Type 0 where
  pub max_inline_bytes : ℕ
  pub max_blob_bytes : ℕ
  pub ingest_mode : ℤ
  pub durability : ℤ

pub record PutBlobRequest : Type 0 where
  pub namespace : Str
  pub payload : Bytes

pub record GetBlobRequest : Type 0 where
  pub digest : Str
  pub namespace : Str

pub record BlobData : Type 0 where
  pub digest : Str
  pub byte_count : ℕ
  pub namespace : Str
  pub payload : Bytes

pub record HasBlobResponse : Type 0 where
  pub exists : Bool
  pub byte_count : ℕ

-- An event of the bus names artifacts.
pub record Event : Type 0 where
  pub id : Str
  pub topic : Str
  pub event_type : Str
  pub source : Str
  pub seq : ℕ
  pub run_id : Str
  pub artifacts : List ArtifactRef

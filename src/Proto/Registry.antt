-- ===== src/Proto/Registry.antt =====
-- Modules, contracts, events and ledger entries.
use srcport_substrate.Base.{ℕ, Bool, List, Str, Bytes}
use srcport_substrate.Base.Int.{ℤ}

pub record Port : Type 0 where
  pub name : Str
  pub multiple : Bool
  pub optional : Bool
  pub key : Bool
  pub traits : List Str

pub record Capability : Type 0 where
  pub name : Str
  pub inputs : List Port
  pub outputs : List Port
  pub firing : ℤ

pub record ModuleManifest : Type 0 where
  pub name : Str
  pub version : Str
  pub provides : List Capability
  pub requires : List Str

pub record Contract : Type 0 where
  pub ref : Str
  pub schema : Str
  pub media_type : Str
  pub version : Str
  pub digest : Str
  pub compatible_with : List Str

pub record LedgerEntry : Type 0 where
  pub seq : ℕ
  pub kind : Str
  pub subject : Str
  pub detail : Bytes
  pub prev_hash : Str
  pub hash : Str

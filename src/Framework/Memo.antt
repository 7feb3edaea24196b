-- ===== src/Framework/Memo.antt =====
-- framework/sdk/rust/src/memo.rs: which work may be memoised, the keys, the records and the store
-- in memory. The lock of the store cannot be poisoned, since nothing panics under it.
pub mod Key
pub mod Laws
use srcport_substrate.Base.{
  ℕ, Bool, true, false, not, ◌&&◌, Option, none, some, List, [], ◌∷◌, ◌++◌, map, Str, Bytes, lit,
  is_empty, ◌==◌, length, any, if◌then◌else◌, flat_map,
}
use srcport_substrate.Base.Map
use srcport_substrate.Base.Map.{Map}
use srcport_substrate.Proto.{ArtifactRef, NamedArtifact, WorkItem}
use srcport_substrate.Kernel.Platform.{Platform}
use srcport_substrate.Kernel.Digest.{sep, hex}

pub record MemoRecord : Type 0 where
  pub key : Str
  pub module_name : Str
  pub module_version : Str
  pub module_digest : Str
  pub capability : Str
  pub node_id : Str
  pub inputs : Map Str
  pub outputs : Map Str
  pub source_run_id : Str
  pub source_work_id : Str

pub data MemoNodes : Type 0 where
  all : MemoNodes
  only except : List Str → MemoNodes

unfoldable pub allows : MemoNodes → Str → Bool
allows MemoNodes.all node_id = true
allows (only ids) node_id = any (λ i. i == node_id) ids
allows (except ids) node_id = not (any (λ i. i == node_id) ids)

pub record MemoPlan : Type 0 where
  pub enabled : Bool
  pub require_digest : Bool
  pub nodes : MemoNodes

abbrev pub off : MemoPlan
off = record { enabled = false; require_digest = false; nodes = MemoNodes.all }

abbrev pub on : MemoPlan
on = record { enabled = true; require_digest = true; nodes = MemoNodes.all }

abbrev pub on_optional_digest : MemoPlan
on_optional_digest = record { enabled = true; require_digest = false; nodes = MemoNodes.all }

abbrev pub with_memo_nodes : MemoNodes → MemoPlan → MemoPlan
with_memo_nodes nodes self = record self { nodes = nodes }

abbrev pub with_require_digest : Bool → MemoPlan → MemoPlan
with_require_digest require self = record self { require_digest = require }

-- `MemoryMemo`
abbrev pub Store : Type 0
Store = Map MemoRecord

unfoldable pub get : Str → Store → Option MemoRecord
unfolding Map.lookup
get key store = Map.lookup key store

unfoldable pub put : MemoRecord → Store → Store
unfolding Map.insert
put r store = Map.insert r.key r store

unfoldable pub len : Store → ℕ
len store = length store

abbrev pub clear : Store → Store
clear store = []

abbrev pub port_rows : Map Str → Bytes
port_rows = flat_map (λ e. e.0 ++ (sep ++ (e.1 ++ sep)))

-- The bytes that `memo_key` feeds to the hash.
unfoldable pub key_input : Str → Str → Str → Str → Map Str → Bytes
key_input module_name module_version module_digest capability inputs =
    module_name
    ++ (sep
        ++ (module_version
            ++ (sep ++ (module_digest ++ (sep ++ (capability ++ (sep ++ port_rows inputs)))))))

-- The loop over named artifacts that `input_fingerprint_map` and `build_record` share.
unfoldable pub ids_by_port : List NamedArtifact → Map Str → Map Str
unfolding Map.insert
ids_by_port [] m = m
ids_by_port (na ∷ nas) m = ids_by_port nas (elim na.artifact [
  | none ↦ m
  | some r ↦ if not (is_empty na.name) && not (is_empty r.id) then Map.insert na.name r.id m else m
])

unfoldable pub input_fingerprint_map : WorkItem → Map Str
input_fingerprint_map work = ids_by_port work.inputs []

unfoldable pub record_to_named_outputs : MemoRecord → List NamedArtifact
record_to_named_outputs r =
    map
      (λ e.
        let na : NamedArtifact = record { name = e.0; artifact = some (record { id = e.1 }) } in na)
      r.outputs

unfoldable pub build_record : Str → WorkItem → Str → List NamedArtifact → Str → MemoRecord
unfolding ids_by_port input_fingerprint_map
build_record key work module_digest outputs run_id = record {
  key = key;
  module_name = work.module_name;
  module_version = work.module_version;
  module_digest = module_digest;
  capability = work.capability;
  node_id = work.node_id;
  inputs = input_fingerprint_map work;
  outputs = ids_by_port outputs [];
  source_run_id = run_id;
  source_work_id = work.id;
}

module _ ⦃p : Platform⦄ where
  unfoldable pub memo_key : Str → Str → Str → Str → Map Str → Str
  memo_key module_name module_version module_digest capability inputs =
      lit "sha256:"
      ++ hex (p.sha256 (key_input module_name module_version module_digest capability inputs))

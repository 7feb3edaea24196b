-- ===== src/Kernel/Bag.antt =====
-- Artifacts as trait bags: construction, inclusion, projection and merge.
pub mod Laws
use srcport_substrate.Base.{
  Bool, true, false, Option, none, some, List, [], ◌∷◌, ◌++◌, Str, Bytes, no_bytes, lit, is_empty,
  if◌then◌else◌, all, any, contains,
}
use srcport_substrate.Base.Map
use srcport_substrate.Base.Map.{Map}
use srcport_substrate.Proto.{ObjectRef, Trait, Artifact}
use srcport_substrate.Kernel.Error.{Result, ok, err, invalid, ◌>>=◌}
use srcport_substrate.Kernel.Digest.{trait_has_external}

abbrev inline : Bytes → Trait
inline body = record { body = body; object = none }

-- `Artifact { traits, ..Default::default() }`
abbrev pub unstored : Map Trait → Artifact
unstored traits = record {
  id = no_bytes;
  meta = [];
  produced_by = no_bytes;
  traits = traits;
  entity_id = no_bytes;
  supersedes = no_bytes;
}

unfoldable pub artifact_with_trait : Str → Bytes → Artifact
artifact_with_trait contract body = unstored (Map.insert contract (inline body) [])

unfoldable pub artifact_with_external_trait : Str → ObjectRef → Artifact
artifact_with_external_trait contract object =
    unstored (Map.insert contract (record { body = []; object = some object }) [])

unfoldable pub insert_all : List (Str × Trait) → Map Trait → Map Trait
insert_all [] traits = traits
insert_all ((c, tr) ∷ rest) traits = insert_all rest (Map.insert c tr traits)

inline_all : List (Str × Bytes) → Map Trait → Map Trait
inline_all [] traits = traits
inline_all ((c, body) ∷ rest) traits = inline_all rest (Map.insert c (inline body) traits)

unfoldable pub artifact_with_traits : List (Str × Bytes) → Artifact
unfolding inline_all
artifact_with_traits pairs = unstored (inline_all pairs [])

unfoldable pub has_traits : Artifact → List Str → Bool
has_traits artifact required = all (λ r. Map.contains_key r artifact.traits) required

unfoldable pub trait_set_covers : List Str → List Str → Bool
trait_set_covers have need = all (λ n. contains have n) need

unfoldable pub get_trait : Artifact → Str → Option Trait
get_trait artifact contract = Map.lookup contract artifact.traits

-- The loop of `project_traits`.
unfoldable pub project_loop : Artifact → List Str → Map Trait → Result (Map Trait)
project_loop artifact [] traits = ok traits
project_loop artifact (c ∷ rest) traits = elim (Map.lookup c artifact.traits) [
  | none ↦ err (invalid (lit "artifact missing trait " ++ c))
  | some f ↦ project_loop artifact rest (Map.insert c f traits)
]

unfoldable pub project_traits : Artifact → List Str → Result Artifact
project_traits artifact contracts = do
  traits ← project_loop artifact contracts []
  ok (record artifact { id = no_bytes; traits = traits })

unfoldable pub project_trait : Artifact → Str → Result Artifact
project_trait artifact contract = project_traits artifact (contract ∷ [])

unfoldable pub merge_traits : Artifact → Artifact → Artifact
unfolding insert_all
merge_traits base add = record {
  id = no_bytes;
  meta = add.meta;
  produced_by = add.produced_by;
  traits = insert_all add.traits base.traits;
  entity_id = if is_empty add.entity_id then base.entity_id else add.entity_id;
  supersedes = if is_empty base.id then add.supersedes else base.id;
}

unfoldable pub has_external_object : Artifact → Bool
has_external_object artifact = any trait_has_external (Map.values artifact.traits)

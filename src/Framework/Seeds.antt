-- ===== src/Framework/Seeds.antt =====
-- framework/sdk/rust/src/cut.rs: the inputs that stand for what a cut has dropped.
pub mod Present
use srcport_substrate.Base.{
  ℕ, Bool, true, false, not, ◌&&◌, ◌||◌, Option, none, some, List, [], ◌∷◌, ◌++◌, map, Str, Bytes,
  lit, is_empty, is_nil, ◌==◌, starts_with, str_ltb, contains, dedup, utf8_sort, length, eqb,
  if◌then◌else◌, filter, filter_map,
}
use srcport_substrate.Base.Map
use srcport_substrate.Base.Map.{Map}
use srcport_substrate.Proto.{AssemblyNode, Binding, Assembly, NamedArtifact, Derivation}
use srcport_substrate.Kernel.Assembly.{node_ids}
use srcport_substrate.Framework.Error.{
  FrameworkError, invalid, Result, ok, err, ◌>>=◌, ◌>>◌, refuse_if, ok_or, from_kernel,
}
use srcport_substrate.Kernel.Error
use srcport_substrate.Framework.Policy.{NodePlan}
use srcport_substrate.Framework.Policy
use srcport_substrate.Framework.Reach.{reachable_from, transitive_predecessors}
use srcport_substrate.Framework.Cut.{seed_input_name, SeedSpec, AssemblyCut, ordered_set}

-- The loop that finds the latest derivation of each wanted node.
unfoldable pub latest_of : List Str → List Derivation → Map Derivation → Map Derivation
unfolding Map.insert
latest_of want [] latest = latest
latest_of want (d ∷ ds) latest =
    latest_of want ds (if contains want d.node_id then Map.insert d.node_id d latest else latest)

-- The loop over the outputs of one derivation: the seeds, and the names with those that it has seen.
unfoldable pub seed_outputs :
    Str → List NamedArtifact → List Str → Result (List NamedArtifact × List Str)
seed_outputs node_id [] seen = ok ([], seen)
seed_outputs node_id (o ∷ outputs) seen =
    let name = seed_input_name node_id o.name in
    let skip = seed_outputs node_id outputs seen in
    let add = (do
      art ← ok_or o.artifact (
          invalid (
            lit "seeds_from_run: output "
            ++ (node_id ++ (lit "." ++ (o.name ++ lit " has no artifact ref")))))
      (rest, seen') ← seed_outputs node_id outputs (name ∷ seen)
      ok (record { name = name; artifact = some art } ∷ rest, seen')) in
    if is_empty o.name then skip else if contains seen name then skip else add

-- The loop over the sorted nodes.
unfoldable pub seed_nodes : Str → Map Derivation → List Str → List Str → Result (List NamedArtifact)
unfolding seed_outputs
seed_nodes run_id latest [] seen = ok []
seed_nodes run_id latest (node_id ∷ nodes) seen = do
  d ← ok_or (Map.lookup node_id latest) (
      invalid
        (lit "seeds_from_run: no derivation for node " ++ (node_id ++ (lit " on run " ++ run_id))))
  (seeds, seen') ← seed_outputs node_id d.outputs seen
  rest ← seed_nodes run_id latest nodes seen'
  ok (seeds ++ rest)

-- `listed` is the kernel's reply to `list_derivations`.
unfoldable pub seeds_from_run :
    Error.Result (List Derivation) → Str → List Str → Result (List NamedArtifact)
unfolding latest_of seed_nodes
seeds_from_run listed run_id cut_nodes = do
  ds ← from_kernel listed
  let want = ordered_set cut_nodes
  if is_nil want then ok [] else seed_nodes run_id (latest_of want ds []) want []

-- The loops of `merge_inputs`, and the map of `validate_seeds_present`: a later input replaces an
-- earlier one of its name.
unfoldable pub by_name : List NamedArtifact → Map NamedArtifact → Map NamedArtifact
unfolding Map.insert
by_name [] m = m
by_name (na ∷ nas) m = by_name nas (Map.insert na.name na m)

unfoldable pub merge_inputs : List NamedArtifact → List NamedArtifact → List NamedArtifact
unfolding by_name
merge_inputs base seeds = Map.values (by_name seeds (by_name base []))

-- ` → `, whose arrow is three bytes.
abbrev arrow : Str
arrow = lit " " ++ 226 ∷ 134 ∷ 146 ∷ lit " "

-- What a required seed lacks among the inputs, if anything.
unfoldable pub missing_seed : Map NamedArtifact → SeedSpec → Option Str
missing_seed have s = elim (Map.lookup s.input_name have) [
  | none ↦ some (
      s.input_name
      ++ (lit " (from "
          ++ (s.from_node
              ++ (lit "."
                  ++ (s.from_port
                      ++ (arrow ++ (s.to_node ++ (lit "." ++ (s.to_port ++ lit ")")))))))))
  | some na ↦ elim na.artifact [
    | none ↦ some (s.input_name ++ lit " (present but artifact ref is empty)")
    | some r ↦ none
  ]
]

-- join("; ")
unfoldable pub join_all : List Str → Str
join_all [] = []
join_all (s ∷ []) = s
join_all (s ∷ t ∷ rest) = s ++ (lit "; " ++ join_all (t ∷ rest))

unfoldable pub validate_seeds_present : AssemblyCut → List NamedArtifact → Result (Unit {0})
unfolding by_name missing_seed join_all
validate_seeds_present cut inputs =
    let missing = filter_map (missing_seed (by_name inputs [])) cut.required_seeds in
    if is_nil missing
    then ok tt
    else err (invalid (lit "cut requires seed inputs that were not provided: " ++ join_all missing))

-- ===== src/Framework/Cut.antt =====
-- framework/sdk/rust/src/cut.rs: the nodes that a plan keeps, and the assembly that is left of them. A `BTreeSet` is its elements in ascending order.
pub mod Keep
pub mod Bindings
pub mod Graph
use srcport_substrate.Base.{
  ℕ, Bool, true, false, not, ◌&&◌, ◌||◌, Option, none, some, List, [], ◌∷◌, ◌++◌, map, Str, Bytes,
  lit, is_empty, is_nil, ◌==◌, starts_with, str_ltb, contains, dedup, utf8_sort, length, eqb,
  if◌then◌else◌, filter, filter_map,
}
use srcport_substrate.Base.Map
use srcport_substrate.Base.Map.{Map}
use srcport_substrate.Proto.{AssemblyNode, Binding, Assembly, NamedArtifact, Derivation}
use srcport_substrate.Kernel.Assembly.{node_ids}
use srcport_substrate.Framework.Error.{
  FrameworkError, invalid, Result, ok, err, ◌>>=◌, ◌>>◌, refuse_if, ok_or, from_kernel,
}
use srcport_substrate.Kernel.Error
use srcport_substrate.Framework.Policy.{NodePlan}
use srcport_substrate.Framework.Policy
use srcport_substrate.Framework.Reach.{reachable_from, transitive_predecessors}

abbrev pub seed_input_prefix : Str
unfolding lit
seed_input_prefix = lit "__seed/"

unfoldable pub seed_input_name : Str → Str → Str
seed_input_name from_node from_port = seed_input_prefix ++ (from_node ++ (lit "/" ++ from_port))

unfoldable pub is_seed_input_name : Str → Bool
is_seed_input_name name = starts_with name seed_input_prefix

pub record SeedSpec : Type 0 where
  pub input_name : Str
  pub from_node : Str
  pub from_port : Str
  pub to_node : Str
  pub to_port : Str

pub record SkippedNode : Type 0 where
  pub node_id : Str
  pub module_name : Str
  pub capability : Str
  pub module_version : Str

pub record AssemblyCut : Type 0 where
  pub assembly : Assembly
  pub skipped : List SkippedNode
  pub required_seeds : List SeedSpec
  pub kept_node_ids : List Str

abbrev pub ordered_set : List Str → List Str
ordered_set l = utf8_sort (dedup l)

-- The loop over the ids of `NodePlan::Only`.
unfoldable pub check_only : List Str → List Str → List Str → Result (Unit {0})
check_only known seen [] = ok tt
check_only known seen (id ∷ ids) = do
  refuse_if (contains seen id) (invalid (lit "NodePlan::Only contains duplicate node id " ++ id))
  refuse_if (not (contains known id))
      (invalid (lit "NodePlan::Only references unknown node " ++ id))
  check_only known (id ∷ seen) ids

unfoldable pub kept_only : Assembly → Str → List Str → Result (List Str)
kept_only assembly terminal ids = do
  refuse_if (is_nil ids) (invalid (lit "NodePlan::Only requires at least one node id"))
  check_only (node_ids assembly.nodes) [] ids
  refuse_if (not (contains ids terminal)) (invalid (lit "node plan must retain the terminal node"))
  ok (ordered_set ids)

-- The ids of the nodes that `NodePlan::After` leaves.
unfoldable pub left_after : Assembly → Str → List Str
left_after assembly node_id =
    let dropped = node_id ∷ transitive_predecessors assembly node_id in
    filter (λ id. not (contains dropped id)) (node_ids assembly.nodes)

unfoldable pub kept_after : Assembly → Str → Str → Result (List Str)
kept_after assembly terminal node_id = do
  refuse_if (not (contains (node_ids assembly.nodes) node_id))
      (invalid (lit "NodePlan::After references unknown node " ++ node_id))
  refuse_if (contains (node_id ∷ transitive_predecessors assembly node_id) terminal)
      (invalid (lit "NodePlan::After(" ++ (node_id ++ lit ") would drop the terminal node")))
  refuse_if (is_nil (left_after assembly node_id))
      (invalid (lit "NodePlan::After left no nodes to run"))
  ok (ordered_set (left_after assembly node_id))

unfoldable pub kept_from : Assembly → Str → Str → Result (List Str)
kept_from assembly terminal node_id = do
  refuse_if (not (contains (node_ids assembly.nodes) node_id))
      (invalid (lit "NodePlan::From references unknown node " ++ node_id))
  refuse_if (not (contains (reachable_from assembly node_id) terminal)) (
      invalid (
        lit "NodePlan::From("
        ++ (node_id
            ++ (lit "): terminal " ++ (terminal ++ lit " is not reachable from that node")))))
  ok (ordered_set (reachable_from assembly node_id))

unfoldable pub kept_by : Assembly → Str → NodePlan → Result (List Str)
kept_by assembly terminal NodePlan.all = ok (ordered_set (node_ids assembly.nodes))
kept_by assembly terminal (Policy.only ids) = kept_only assembly terminal ids
kept_by assembly terminal (Policy.after node_id) = kept_after assembly terminal node_id
kept_by assembly terminal (Policy.from node_id) = kept_from assembly terminal node_id

unfoldable pub resolve_kept_nodes : Assembly → NodePlan → Result (List Str)
resolve_kept_nodes assembly plan = do
  refuse_if (is_nil assembly.nodes) (invalid (lit "assembly has no nodes"))
  terminal ← ok_or assembly.terminal (invalid (lit "assembly terminal is required"))
  refuse_if (not (contains (node_ids assembly.nodes) terminal.node))
      (invalid (lit "terminal node " ++ (terminal.node ++ lit " is not in the assembly")))
  kept_by assembly terminal.node plan

abbrev pub skipped_of : AssemblyNode → SkippedNode
skipped_of n = record {
  node_id = n.id;
  module_name = n.module_name;
  capability = n.capability;
  module_version = n.module_version;
}

unfoldable pub seed_of : Binding → SeedSpec
seed_of b = record {
  input_name = seed_input_name b.from_node b.from_port;
  from_node = b.from_node;
  from_port = b.from_port;
  to_node = b.to_node;
  to_port = b.to_port;
}

-- The binding of a cut edge to its synthetic input.
unfoldable pub seeded : Binding → Binding
seeded b = record {
  to_node = b.to_node;
  to_port = b.to_port;
  from_node = [];
  from_port = [];
  input = seed_input_name b.from_node b.from_port;
}

-- The keys of `seed_by_key` are pairs of strings: their order is that of the nodes, then the ports.
unfoldable pub insert_seed : SeedSpec → List SeedSpec → List SeedSpec
insert_seed s [] = s ∷ []
insert_seed s (t ∷ seeds) =
    let rest = insert_seed s seeds in
    if t.from_node == s.from_node && t.from_port == s.from_port
    then t ∷ seeds
    else if str_ltb s.from_node t.from_node
        || (s.from_node == t.from_node && str_ltb s.from_port t.from_port)
    then s ∷ t ∷ seeds
    else t ∷ rest

-- What the loop over the bindings does with one of them.
pub data CutStep : Type 0 where
  drop pass cross reject : CutStep

unfoldable pub cut_step : List Str → Binding → CutStep
cut_step kept b =
    if not (contains kept b.to_node)
    then drop
    else if not (is_empty b.input)
    then pass
    else if is_empty b.from_node
    then reject
    else if contains kept b.from_node
    then pass
    else cross

unfoldable pub cut_bindings :
    List Str → List Binding → List SeedSpec → Result (List Binding × List SeedSpec)
cut_bindings kept [] seeds = ok ([], seeds)
cut_bindings kept (b ∷ bindings) seeds = elim (cut_step kept b) [
  | drop ↦ cut_bindings kept bindings seeds
  | pass ↦ do (rest, seeds') ← cut_bindings kept bindings seeds; ok (b ∷ rest, seeds')
  | cross ↦ do
    (rest, seeds') ← cut_bindings kept bindings (insert_seed (seed_of b) seeds)
    ok (seeded b ∷ rest, seeds')
  | reject ↦ err (
      invalid (
        lit "binding to "
        ++ (b.to_node ++ (lit "." ++ (b.to_port ++ lit " has neither input nor from_node")))))
]

abbrev whole_cut : Assembly → AssemblyCut
whole_cut assembly = record {
  assembly = assembly;
  skipped = [];
  required_seeds = [];
  kept_node_ids = node_ids assembly.nodes;
}

abbrev pub is_all : NodePlan → Bool
is_all NodePlan.all = true
is_all (Policy.only ids) = false
is_all (Policy.after id) = false
is_all (Policy.from id) = false

abbrev pub kept_nodes : List Str → List AssemblyNode → List AssemblyNode
kept_nodes kept = filter (λ n. contains kept n.id)

unfoldable pub partial_cut : Assembly → List Str → Result AssemblyCut
unfolding cut_bindings
partial_cut assembly kept = do
  (bindings, seeds) ← cut_bindings kept assembly.bindings []
  ok (record {
    assembly = record assembly { nodes = kept_nodes kept assembly.nodes; bindings = bindings };
    skipped = map skipped_of (filter (λ n. not (contains kept n.id)) assembly.nodes);
    required_seeds = seeds;
    kept_node_ids = node_ids (kept_nodes kept assembly.nodes);
  })

-- A plan that keeps every node leaves the assembly as it is.
unfoldable pub cut_to : Assembly → NodePlan → List Str → Result AssemblyCut
cut_to assembly plan kept =
    if is_all plan || eqb (length kept) (length assembly.nodes)
    then ok (whole_cut assembly)
    else partial_cut assembly kept

unfoldable pub materialize_cut : Assembly → NodePlan → Result AssemblyCut
unfolding cut_to
materialize_cut assembly plan = do
  kept ← resolve_kept_nodes assembly plan
  cut_to assembly plan kept

-- ===== src/Kernel/Assembly.antt =====
-- Assemblies: the capability of a node, partial graphs, and the checks of `start_run`.
use srcport_substrate.Base.{
  Bool, not, ◌&&◌, ◌||◌, Option, none, some, List, [], ◌∷◌, ◌++◌, map, Str, lit, is_empty, ◌==◌,
  length, eqb, if◌then◌else◌, is_nil, find, filter, any, contains, dedup, flat_map,
}
use srcport_substrate.Base.Map
use srcport_substrate.Base.Map.{Map}
use srcport_substrate.Proto.{
  Port, Capability, NamedArtifact, AssemblyNode, Binding, NodeOutput, Assembly, WorkItem,
}
use srcport_substrate.Kernel.Error.{
  KernelError, not_found, invalid, Result, ok, err, ◌>>=◌, ◌>>◌, refuse_if,
}
use srcport_substrate.Kernel.State.{State, ModuleSlot}

-- ok_or_else
abbrev pub ok_or {ℓ} : {A : Type ℓ} → Option A → KernelError → Result A
ok_or none e = err e
ok_or (some a) e = ok a

-- The capabilities that the modules of a node's name and version provide under its name.
unfoldable pub matching_capabilities : List ModuleSlot → AssemblyNode → List Capability
matching_capabilities modules node =
    flat_map (λ m. filter (λ c. c.name == node.capability) m.manifest.provides)
      (filter
        (λ m. m.manifest.name == node.module_name && m.manifest.version == node.module_version)
        modules)

single_capability : AssemblyNode → List Capability → Result Capability
single_capability node [] = err (
    invalid (
      node.module_name
      ++ (lit "@" ++ (node.module_version ++ (lit " does not provide " ++ node.capability)))))
single_capability node (found ∷ []) = ok found
single_capability node (found ∷ _ ∷ _) = err (
    invalid (
      node.module_name
      ++ (lit "@"
          ++ (node.module_version
              ++ (lit " provides " ++ (node.capability ++ lit " ambiguously"))))))

unfoldable pub capability_for_node : State → AssemblyNode → Result Capability
unfolding single_capability
capability_for_node state node = single_capability node (matching_capabilities state.modules node)

unfoldable pub capability_for_work : State → WorkItem → Result Capability
capability_for_work state work = capability_for_node state (record {
  id = work.node_id;
  module_name = work.module_name;
  module_version = work.module_version;
  capability = work.capability;
})

unfoldable pub port : List Port → Str → Option Port
port ports name = find (λ p. p.name == name) ports

abbrev pub node_ids : List AssemblyNode → List Str
node_ids = map (λ n. n.id)

-- The lookup in the map from ids to nodes, which has one node for each id.
unfoldable pub node_by_id : List AssemblyNode → Str → Option AssemblyNode
node_by_id nodes id = find (λ n. n.id == id) nodes

-- `include_nodes`: a copy of the assembly with the wanted nodes and the bindings between them.
check_known : List Str → List Str → Result (Unit {0})
check_known known [] = ok tt
check_known known (id ∷ want) =
    let rest = check_known known want in
    if contains known id
    then rest
    else err (invalid (lit "include_nodes references unknown node " ++ id))

keeps_binding : List Str → Binding → Bool
keeps_binding want b =
    contains want b.to_node && (not (is_empty b.input) || contains want b.from_node)

unfoldable pub materialize_assembly : Assembly → List Str → Result Assembly
unfolding check_known keeps_binding
materialize_assembly assembly [] = ok assembly
materialize_assembly assembly (i ∷ is) = do
  let want = i ∷ is
  refuse_if (not (eqb (length (dedup want)) (length want)))
      (invalid (lit "include_nodes contains duplicates"))
  check_known (node_ids assembly.nodes) want
  terminal ← ok_or assembly.terminal (invalid (lit "assembly terminal is required"))
  refuse_if (not (contains want terminal.node))
      (invalid (lit "include_nodes must retain the terminal node"))
  ok (record assembly {
    nodes = filter (λ n. contains want n.id) assembly.nodes;
    bindings = filter (keeps_binding want) assembly.bindings;
  })

-- The ports of one direction: named, typed, no name twice.
check_ports : Str → List Port → List Str → Result (Unit {0})
check_ports node [] names = ok tt
check_ports node (p ∷ ports) names = do
  refuse_if (is_empty p.name || (is_nil p.traits || contains names p.name))
      (invalid (node ++ lit " has an empty or duplicate typed port"))
  refuse_if (any is_empty p.traits)
      (invalid (node ++ (lit "." ++ (p.name ++ lit " has an empty trait ref"))))
  check_ports node ports (p.name ∷ names)

unfoldable pub check_nodes : State → List AssemblyNode → List Str → Result (Unit {0})
unfolding check_ports
check_nodes state [] ids = ok tt
check_nodes state (node ∷ nodes) ids = do
  refuse_if (is_empty node.id || contains ids node.id)
      (invalid (lit "duplicate or empty node id: " ++ node.id))
  cap ← capability_for_node state node
  check_ports node.id cap.inputs []
  check_ports node.id cap.outputs []
  check_nodes state nodes (node.id ∷ ids)

unfoldable pub check_terminal : State → Assembly → NodeOutput → Result (Unit {0})
check_terminal state assembly terminal = do
  node ←
      ok_or (node_by_id assembly.nodes terminal.node) (invalid (lit "terminal node does not exist"))
  cap ← capability_for_node state node
  p ← ok_or (port cap.outputs terminal.port) (invalid (lit "terminal output port does not exist"))
  refuse_if p.multiple (invalid (lit "terminal output must be scalar"))

unfoldable pub check_inputs : State → List NamedArtifact → List Str → Result (Unit {0})
check_inputs state [] names = ok tt
check_inputs state (input ∷ inputs) names = do
  refuse_if (is_empty input.name || contains names input.name)
      (invalid (lit "duplicate or empty run input: " ++ input.name))
  r ← ok_or input.artifact (invalid (lit "input " ++ (input.name ++ lit " has no artifact")))
  refuse_if (not (Map.contains_key r.id state.artifacts)) (not_found r.id)
  check_inputs state inputs (input.name ∷ names)

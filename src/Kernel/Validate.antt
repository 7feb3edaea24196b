-- ===== src/Kernel/Validate.antt =====
-- `validate_assembly` and `validate_outputs`.
pub mod Acyclic
use srcport_substrate.Base.{
  ℕ, ◌+◌, Bool, true, false, not, ◌&&◌, ◌||◌, Option, none, some, List, [], ◌∷◌, ◌++◌, map, Str,
  lit, is_empty, ◌==◌, length, ltb, eqb, if◌then◌else◌, is_nil, find, filter,
}
use srcport_substrate.Base.Map
use srcport_substrate.Base.Map.{Map}
use srcport_substrate.Proto.{
  Port, Capability, NamedArtifact, ArtifactRef, Artifact, AssemblyNode, Binding, NodeOutput,
  Assembly,
}
use srcport_substrate.Kernel.Platform.{Platform}
use srcport_substrate.Kernel.Error.{
  KernelError, not_found, invalid, Result, ok, err, panic, ◌>>=◌, ◌>>◌, refuse_if,
}
use srcport_substrate.Kernel.Bag.{has_traits, trait_set_covers}
use srcport_substrate.Kernel.State.{State}
use srcport_substrate.Kernel.Assembly.{
  ok_or, capability_for_node, port, node_ids, node_by_id, check_nodes, check_terminal, check_inputs,
}
use srcport_substrate.Kernel.Cycle.{Edge, search_order}

-- unwrap()
abbrev unwrap {ℓ} : {A : Type ℓ} → Option A → Result A
unwrap none = panic
unwrap (some a) = ok a

abbrev pub dotted : Str → Str → Str
dotted node port = node ++ (lit "." ++ port)

-- The entry of `counts` for an input port.
unfoldable pub bound_count : List Binding → Str → Str → ℕ
bound_count bindings node port =
    length (filter (λ b. b.to_node == node && b.to_port == port) bindings)

abbrev pub is_upstream : Binding → Bool
is_upstream b = not (is_empty b.from_node) || not (is_empty b.from_port)

-- `edges`: the bindings between nodes.
unfoldable pub edges_of : List Binding → List Edge
edges_of [] = []
edges_of (b ∷ bindings) =
    let rest = edges_of bindings in
    if is_empty b.input then (b.from_node, b.to_node) ∷ rest else rest

unfoldable pub check_arity : List Binding → Str → List Port → Result (Unit {0})
unfolding bound_count
check_arity bindings node [] = ok tt
check_arity bindings node (input ∷ inputs) = do
  let n = bound_count bindings node input.name
  refuse_if (eqb n 0 && not input.optional)
      (invalid (lit "required input " ++ (dotted node input.name ++ lit " is unbound")))
  refuse_if (ltb 1 n && not input.multiple)
      (invalid (lit "input " ++ (dotted node input.name ++ lit " is not multiple")))
  check_arity bindings node inputs

unfoldable pub check_arities : State → List Binding → List AssemblyNode → Result (Unit {0})
check_arities state bindings [] = ok tt
check_arities state bindings (node ∷ nodes) = do
  cap ← capability_for_node state node
  check_arity bindings node.id cap.inputs
  check_arities state bindings nodes

module _ ⦃p : Platform⦄ where
  -- A binding of a run input.
  check_external : State → List NamedArtifact → Binding → Port → Result (Unit {0})
  check_external state inputs b target = do
    input ←
        ok_or (find (λ i. i.name == b.input) inputs)
          (invalid (lit "run input " ++ (b.input ++ lit " is unknown")))
    r ← unwrap input.artifact
    art ← unwrap (Map.lookup r.id state.artifacts)
    refuse_if (not (has_traits art target.traits)) (
        invalid (
          lit "trait set mismatch at "
          ++ (dotted b.to_node b.to_port
              ++ (lit ": input artifact missing required traits " ++ p.debug_strs target.traits))))

  -- A binding of another node's output.
  check_upstream : State → List AssemblyNode → Binding → Port → Result (Unit {0})
  check_upstream state nodes b target = do
    node ←
        ok_or (node_by_id nodes b.from_node)
          (invalid (lit "binding source " ++ (b.from_node ++ lit " is unknown")))
    cap ← capability_for_node state node
    source ←
        ok_or (port cap.outputs b.from_port)
          (invalid (lit "output port " ++ (dotted b.from_node b.from_port ++ lit " is unknown")))
    refuse_if (not (trait_set_covers source.traits target.traits)) (
        invalid (
          lit "trait set mismatch at "
          ++ (dotted b.to_node b.to_port
              ++ (lit ": source guarantees "
                  ++ (p.debug_strs source.traits
                      ++ (lit " does not cover " ++ p.debug_strs target.traits))))))

  -- The target port of a binding.
  unfoldable pub binding_target : State → List AssemblyNode → Binding → Result Port
  binding_target state nodes b = do
    node ←
        ok_or (node_by_id nodes b.to_node)
          (invalid (lit "binding target " ++ (b.to_node ++ lit " is unknown")))
    cap ← capability_for_node state node
    ok_or (port cap.inputs b.to_port)
        (invalid (lit "input port " ++ (dotted b.to_node b.to_port ++ lit " is unknown")))

  unfoldable pub check_binding :
      State → List AssemblyNode → List NamedArtifact → Binding → Result (Unit {0})
  unfolding check_external check_upstream
  check_binding state nodes inputs b = do
    target ← binding_target state nodes b
    let external = not (is_empty b.input)
    refuse_if (if external then is_upstream b else not (is_upstream b))
        (invalid (lit "binding must have exactly one source"))
    if external then check_external state inputs b target else check_upstream state nodes b target

  unfoldable pub check_bindings :
      State → List AssemblyNode → List NamedArtifact → List Binding → Result (Unit {0})
  check_bindings state nodes inputs [] = ok tt
  check_bindings state nodes inputs (b ∷ bindings) = do
    check_binding state nodes inputs b
    check_bindings state nodes inputs bindings

  unfoldable pub validate_assembly : State → Assembly → List NamedArtifact → Result (Unit {0})
  validate_assembly state assembly inputs = do
    refuse_if (is_empty assembly.id) (invalid (lit "assembly id is required"))
    refuse_if (is_nil assembly.nodes) (invalid (lit "assembly has no nodes"))
    terminal ← ok_or assembly.terminal (invalid (lit "assembly terminal is required"))
    check_nodes state assembly.nodes []
    check_terminal state assembly terminal
    check_inputs state inputs []
    check_bindings state assembly.nodes inputs assembly.bindings
    check_arities state assembly.bindings assembly.nodes
    order ←
        ok_or (search_order (node_ids assembly.nodes) (edges_of assembly.bindings))
          (invalid (lit "assembly contains a cycle"))
    ok tt

  -- The second loop of `validate_outputs`: each output is declared, stored and has the traits.
  check_outputs : State → List Port → List NamedArtifact → Result (Unit {0})
  check_outputs state ports [] = ok tt
  check_outputs state ports (output ∷ outputs) = do
    expected ← ok_or (port ports output.name) (invalid (lit "undeclared output " ++ output.name))
    r ← ok_or output.artifact (invalid (lit "output " ++ (output.name ++ lit " has no artifact")))
    a ← ok_or (Map.lookup r.id state.artifacts) (not_found r.id)
    refuse_if (not (has_traits a expected.traits)) (
        invalid (
          lit "output "
          ++ (output.name
              ++ (lit " missing required traits "
                  ++ (p.debug_strs expected.traits
                      ++ (lit "; have " ++ p.debug_strs (Map.keys a.traits)))))))
    check_outputs state ports outputs

  -- The first loop: required outputs are there, and scalar ones once.
  check_declared : List Port → List NamedArtifact → Result (Unit {0})
  check_declared [] outputs = ok tt
  check_declared (expected ∷ ports) outputs = do
    let matching = length (filter (λ o. o.name == expected.name) outputs)
    refuse_if (eqb matching 0 && not expected.optional)
        (invalid (lit "required output " ++ (expected.name ++ lit " is absent")))
    refuse_if (ltb 1 matching && not expected.multiple)
        (invalid (lit "output " ++ (expected.name ++ lit " is not multiple")))
    check_declared ports outputs

  unfoldable pub validate_outputs : State → Capability → List NamedArtifact → Result (Unit {0})
  unfolding check_declared check_outputs
  validate_outputs state cap outputs = do
    check_declared cap.outputs outputs
    check_outputs state cap.outputs outputs

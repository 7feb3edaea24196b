-- ===== src/Kernel/Ready.antt =====
-- Readiness of work: inputs, firing modes and work-unit keys of a node in a run.
use srcport_substrate.Base.{
  ℕ, ◌-◌, ◌^◌, Bool, true, false, not, ◌&&◌, ◌||◌, Option, none, some, List, [], ◌∷◌, ◌++◌, map,
  Str, Bytes, lit, is_empty, ◌==◌, length, eqb, if◌then◌else◌, is_nil, find, filter, filter_map,
  traverse, any, contains, flat_map, bytes_of_u64, str_ltb, unwrap_or,
}
use srcport_substrate.Base.Int.{ℤ, pos, eqb_ℤ}
use srcport_substrate.Base.Map
use srcport_substrate.Base.Map.{Map}
use srcport_substrate.Proto.{
  Firing, firing_of, Closure, closure_of, Capability, NamedArtifact, ArtifactRef, AssemblyNode,
  Binding, Assembly, ExecutionPolicy, ClaimRequest,
}
use srcport_substrate.Kernel.Platform.{Platform}
use srcport_substrate.Kernel.Error.{ok, err, panic}
use srcport_substrate.Kernel.Digest.{hex, sep}
use srcport_substrate.Kernel.State.{State, RunSlot}
use srcport_substrate.Kernel.Assembly.{capability_for_node}

and_then {ℓ} : {A B : Type ℓ} → Option A → (A → Option B) → Option B
and_then none f = none
and_then (some a) f = f a

-- The artifact that a binding delivers, if it is there.
unfoldable pub delivered : RunSlot → Binding → Option ArtifactRef
unfolding and_then
delivered slot b =
    if not (is_empty b.input)
    then and_then (find (λ i. i.name == b.input) slot.run.inputs) (λ i. i.artifact)
    else and_then (Map.lookup b.from_node slot.latest)
        (λ d. and_then (find (λ o. o.name == b.from_port) d.outputs) (λ o. o.artifact))

resolve_binding : RunSlot → Binding → Option NamedArtifact
resolve_binding slot b = elim (delivered slot b) [
  | none ↦ none
  | some a ↦ some (record { name = b.to_port; artifact = some a })
]

abbrev pub bindings_to : Assembly → Str → List Binding
bindings_to assembly node = filter (λ b. b.to_node == node) assembly.bindings

unfoldable pub resolve_inputs : RunSlot → AssemblyNode → Option (List NamedArtifact)
unfolding resolve_binding
resolve_inputs slot node = elim slot.run.assembly [
  | none ↦ none
  | some assembly ↦ traverse (resolve_binding slot) (bindings_to assembly node.id)
]

unfoldable pub is_open : Option Closure → Bool
is_open (some Closure.open_closure) = true
is_open _ = false

unfoldable pub is_open_closure : RunSlot → Bool
unfolding is_open
is_open_closure slot = elim slot.run.policy [
  | none ↦ false
  | some p ↦ is_open (closure_of p.closure)
]

-- The accessor of an enum field: an unknown number reads as `Unspecified`.
abbrev firing : ℤ → Firing
firing n = unwrap_or (firing_of n) Firing.unspecified

-- The firing of the run's policy for a node: an unknown number reads as `Once`.
unfoldable pub override : ExecutionPolicy → Str → Option Firing
override policy node = elim (Map.lookup node policy.by_node) [
  | none ↦ none
  | some f ↦ if eqb_ℤ f (pos 0) then none else some (unwrap_or (firing_of f) Firing.once)
]

unfoldable pub or_else : Firing → Firing → Firing
or_else Firing.unspecified next = next
or_else f next = f

unfoldable pub effective_firing : RunSlot → AssemblyNode → Capability → Firing
unfolding override or_else
effective_firing slot node cap = elim slot.run.policy [
  | none ↦ or_else (firing cap.firing) Firing.once
  | some policy ↦
      unwrap_or (override policy node.id)
        (or_else (firing cap.firing) (or_else (firing policy.default) Firing.once))
]

-- A stable sort of rows by their name.
insert_row {ℓ} : {A : Type ℓ} → Str × A → List (Str × A) → List (Str × A)
insert_row r [] = r ∷ []
insert_row r (q ∷ rows) =
    let rest = insert_row r rows in if str_ltb q.0 r.0 then q ∷ rest else r ∷ q ∷ rows

unfoldable pub sort_by_name {ℓ} : {A : Type ℓ} → List (Str × A) → List (Str × A)
unfolding insert_row
sort_by_name [] = []
sort_by_name (r ∷ rows) = insert_row r (sort_by_name rows)

marked : Capability → List Str
marked cap = map (λ q. q.name) (filter (λ q. q.key) cap.inputs)

key_pair : List Str → NamedArtifact → Option (Str × Str)
key_pair names i = elim i.artifact [
  | none ↦ none
  | some r ↦ if is_nil names || contains names i.name then some (i.name, r.id) else none
]

delivery_row : RunSlot → List NamedArtifact → Binding → Option (Str × (Str × ℕ))
unfolding and_then
delivery_row slot inputs b = and_then (find (λ i. i.name == b.to_port) inputs) λ art.
    and_then art.artifact λ r. some (
      b.to_port,
      (
        r.id,
        (if not (is_empty b.input)
            then Map.get_or b.input 0 slot.input_epochs
            else Map.get_or b.from_node 0 slot.node_commits),
      ),
    )

abbrev key_bytes : Str × Str → Bytes
key_bytes (name, id) = name ++ (sep ++ (id ++ sep))

abbrev delivery_bytes : Str × (Str × ℕ) → Bytes
delivery_bytes (name, (id, epoch)) = name ++ (sep ++ (id ++ (sep ++ (bytes_of_u64 epoch ++ sep))))

-- A ready node with its inputs and its unit key.
pub record Candidate : Type 0 where
  pub node : AssemblyNode
  pub inputs : List NamedArtifact
  pub unit_key : Str

unfoldable pub unit_is_claimed : RunSlot → Str → Bool
unit_is_claimed slot unit_key = any (λ c. c.unit_key == unit_key) (Map.values slot.claimed)

unfoldable pub in_flight_capacity : RunSlot → ℕ
in_flight_capacity slot =
    if eqb slot.max_in_flight 0 then 2 ^ 64 - 1 else slot.max_in_flight - length slot.claimed

unfoldable pub node_matches_claim_filter : ClaimRequest → AssemblyNode → Bool
node_matches_claim_filter req node =
    (is_empty req.module_name || node.module_name == req.module_name)
    && ((is_nil req.modules || contains req.modules node.module_name)
        && (is_nil req.node_ids || contains req.node_ids node.id))

module _ ⦃p : Platform⦄ where
  unfoldable pub input_key : Capability → List NamedArtifact → Str
  unfolding marked key_pair
  input_key cap inputs =
      hex (p.sha256 (flat_map key_bytes (sort_by_name (filter_map (key_pair (marked cap)) inputs))))

  unfoldable pub delivery_fingerprint : RunSlot → AssemblyNode → List NamedArtifact → Option Str
  unfolding and_then delivery_row
  delivery_fingerprint slot node inputs = and_then slot.run.assembly λ assembly.
      and_then (traverse (delivery_row slot inputs) (bindings_to assembly node.id))
        λ rows. some (hex (p.sha256 (flat_map delivery_bytes (sort_by_name rows))))

  once_key : AssemblyNode → Str
  once_key node = lit "once:" ++ node.id

  always_key : AssemblyNode → Option Str → Option Str
  always_key node none = none
  always_key node (some fp) = some (lit "always:" ++ (node.id ++ (lit ":" ++ fp)))

  unfoldable pub work_unit_key :
      RunSlot → AssemblyNode → Capability → Firing → List NamedArtifact → Option Str
  unfolding once_key always_key
  work_unit_key slot node cap Firing.always inputs =
      always_key node (delivery_fingerprint slot node inputs)
  work_unit_key slot node cap Firing.once_per_key inputs =
      some (lit "key:" ++ (node.id ++ (lit ":" ++ input_key cap inputs)))
  work_unit_key slot node cap Firing.once inputs = some (once_key node)
  work_unit_key slot node cap Firing.unspecified inputs = some (once_key node)

  open_unit : RunSlot → AssemblyNode → List NamedArtifact → Option Str → Option Candidate
  open_unit slot node inputs none = none
  open_unit slot node inputs (some unit_key) =
      if contains slot.done_units unit_key
      then none
      else if unit_is_claimed slot unit_key
      then none
      else some (record { node = node; inputs = inputs; unit_key = unit_key })

  -- The body of the loops over the nodes, where `none` is a `continue`.
  unfoldable pub candidate : State → RunSlot → AssemblyNode → Option Candidate
  unfolding open_unit
  candidate state slot node = elim (resolve_inputs slot node) [
    | none ↦ none
    | some inputs ↦ elim (capability_for_node state node) [
      | ok cap ↦
          open_unit slot node inputs
            (work_unit_key slot node cap (effective_firing slot node cap) inputs)
      | err e ↦ none
      | panic ↦ none
    ]
  ]

  unfoldable pub any_candidate : State → RunSlot → List AssemblyNode → Bool
  any_candidate state slot [] = false
  any_candidate state slot (node ∷ nodes) = elim (candidate state slot node) [
    | some c ↦ true
    | none ↦ any_candidate state slot nodes
  ]

  unfoldable pub assembly_any_ready : State → RunSlot → Bool
  unfolding any_candidate
  assembly_any_ready state slot = elim slot.run.assembly [
    | none ↦ false
    | some assembly ↦ any_candidate state slot assembly.nodes
  ]

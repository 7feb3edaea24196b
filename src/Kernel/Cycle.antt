-- ===== src/Kernel/Cycle.antt =====
-- The depth-first search of `validate_assembly` for a cycle.
pub mod Order
pub mod Complete
use srcport_substrate.Base.{
  ℕ, zero, suc, ◌+◌, Bool, true, false, Option, none, some, List, [], ◌∷◌, map, Str, ◌==◌, length,
  if◌then◌else◌, filter, contains,
}

abbrev pub Edge : Type 0
Edge = Str × Str

-- The `edges` entry of a node.
unfoldable pub targets : List Edge → Str → List Str
targets edges node = map (λ e. e.1) (filter (λ e. e.0 == node) edges)

-- The loop over the targets.
unfoldable pub visit_list :
    (Str → List Str → Option (List Str)) → List Str → List Str → Option (List Str)
visit_list visit_one [] done = some done
visit_list visit_one (next ∷ rest) done = elim (visit_one next done) [
  | none ↦ none
  | some done' ↦ visit_list visit_one rest done'
]

-- `visit`: `none` is its `false`, and otherwise the new `done`. On success the code takes the node
-- out of `visiting` again, so the set is an argument. A path longer than the number of nodes meets
-- a node that it is visiting, so the fuel is one more than that number.
unfoldable pub visit : ℕ → List Edge → List Str → Str → List Str → Option (List Str)
visit zero edges visiting node done = none
visit (suc fuel) edges visiting node done =
    let below = visit_list (visit fuel edges (node ∷ visiting)) (targets edges node) done in
    let finished : Option (List Str) = elim below [
      | none ↦ none
      | some done' ↦ some (node ∷ done')
    ] in
    if contains done node then some done else if contains visiting node then none else finished

unfoldable pub search_order : List Str → List Edge → Option (List Str)
search_order nodes edges = visit_list (visit (suc (length nodes)) edges []) nodes []

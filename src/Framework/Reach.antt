-- ===== src/Framework/Reach.antt =====
-- `reachable_from` and `transitive_predecessors` of framework/sdk/rust/src/cut.rs: two breadth-first
-- searches. The edges of a node stand in the order of the bindings.
pub mod Walk
pub mod Loop
pub mod Preds
use srcport_substrate.Base.{
  ℕ, zero, suc, ◌+◌, Bool, true, false, not, ◌||◌, List, [], ◌∷◌, ◌++◌, Str, is_empty, contains,
  length, if◌then◌else◌, filter, map,
}
use srcport_substrate.Proto.{Binding, Assembly}
use srcport_substrate.Kernel.Cycle.{Edge, targets}

abbrev pub joins_nodes : Binding → Bool
joins_nodes b = not (is_empty b.from_node || is_empty b.to_node)

-- `outgoing`
abbrev pub outgoing : List Binding → List Edge
outgoing bindings = map (λ b. (b.from_node, b.to_node)) (filter joins_nodes bindings)

-- `incoming`: each edge turned round.
abbrev pub incoming : List Binding → List Edge
incoming bindings = map (λ b. (b.to_node, b.from_node)) (filter joins_nodes bindings)

-- The set `out` and the queue of `reachable_from`.
pub record Reached : Type 0 where
  pub out : List Str
  pub queue : List Str

-- What is new is marked and goes to the end of the queue.
pub offer : Str → Reached → Reached
offer n s = if contains s.out n then s else record { out = n ∷ s.out; queue = s.queue ++ n ∷ [] }

-- The inner loop.
pub offer_all : List Str → Reached → Reached
offer_all [] s = s
offer_all (n ∷ ns) s = offer_all ns (offer n s)

-- The `while` loop. A round takes one node from the queue and each edge's end enters it once, so
-- the fuel of `reachable_from` is one more than the number of edges.
pub reach_loop : ℕ → List Edge → Reached → List Str
reach_loop zero edges s = s.out
reach_loop (suc fuel) edges s = elim s.queue [
  | [] ↦ s.out
  | cur ∷ rest ↦ reach_loop fuel edges (offer_all (targets edges cur) (record s { queue = rest }))
]

unfoldable pub reachable_from : Assembly → Str → List Str
unfolding reach_loop offer_all offer
reachable_from assembly node_id =
    let edges = outgoing assembly.bindings in
    reach_loop (suc (length edges)) edges (record { out = node_id ∷ []; queue = node_id ∷ [] })

-- `out`, `visited` and the queue of `transitive_predecessors`.
pub record Preceding : Type 0 where
  pub out : List Str
  pub visited : List Str
  pub queue : List Str

-- `out.insert(p) && visited.insert(p)`, and the push.
pub insert_pred : Str → Preceding → Preceding
insert_pred p s =
    if contains s.out p
    then s
    else if contains s.visited p
    then record s { out = p ∷ s.out }
    else record { out = p ∷ s.out; visited = p ∷ s.visited; queue = s.queue ++ p ∷ [] }

pub insert_preds : List Str → Preceding → Preceding
insert_preds [] s = s
insert_preds (p ∷ ps) s = insert_preds ps (insert_pred p s)

pub preds_loop : ℕ → List Edge → Preceding → List Str
preds_loop zero edges s = s.out
preds_loop (suc fuel) edges s = elim s.queue [
  | [] ↦ s.out
  | cur ∷ rest ↦
      preds_loop fuel edges (insert_preds (targets edges cur) (record s { queue = rest }))
]

unfoldable pub transitive_predecessors : Assembly → Str → List Str
unfolding preds_loop insert_preds insert_pred
transitive_predecessors assembly node_id =
    let edges = incoming assembly.bindings in
    preds_loop (suc (length edges)) edges
      (record { out = []; visited = node_id ∷ []; queue = node_id ∷ [] })

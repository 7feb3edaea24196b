-- ===== src/Framework/Reach/Preds.antt =====
-- `transitive_predecessors` follows `reachable_from` on the edges turned round.
use srcport_substrate.Base.{
  ℕ, zero, suc, ◌≡◌, refl, ap, ◌∙◌, ◌↔◌, inl, inr, true, false, ◌||◌, List, [], ◌∷◌, Str, ◌==◌,
  eq_iff, contains, length, arith, Bool-cases,
}
use srcport_substrate.Proto.{Assembly}
use srcport_substrate.Kernel.Cycle.{Edge, targets}
use srcport_substrate.Framework.Reach.{
  Reached, offer, offer_all, reach_loop, outgoing, reachable_from, Preceding, insert_pred,
  insert_preds, preds_loop, incoming, transitive_predecessors,
}
use srcport_substrate.Framework.Reach.Walk.{Walk}
use srcport_substrate.Framework.Reach.Loop.{search_iff, List-cases}

-- `visited` is `out` and the node that the search starts from.
IsLinked : Str → Preceding → Type 0
IsLinked source s = (k : Str) → contains s.visited k ≡ (source == k || contains s.out k)

abbrev seen : Preceding → Reached
seen s = record { out = s.visited; queue = s.queue }

seen-insert_pred :
    (source p : Str) (s : Preceding) → IsLinked source s → seen (insert_pred p s) ≡ offer p (seen s)
unfolding insert_pred offer IsLinked
seen-insert_pred source p s h = elim (Bool-cases (contains s.visited p)) [
  | inl old ↦ elim (Bool-cases (contains s.out p)) [
    | inl both ↦ rw (both, old) refl
    | inr one ↦ rw (one, old) refl
  ]
  | inr new ↦
      (let absent : contains s.out p ≡ false = ground (arith, h p, new) in rw (absent, new) refl)
]

insert_pred-IsLinked :
    (source p : Str) (s : Preceding) → IsLinked source s → IsLinked source (insert_pred p s)
unfolding insert_pred IsLinked
insert_pred-IsLinked source p s h k = elim (Bool-cases (contains s.out p)) [
  | inl old ↦ rw old (h k)
  | inr new ↦ elim (Bool-cases (contains s.visited p)) [
    | inl seen_before ↦
        rw (new, seen_before)
          (ground (arith, h k, h p, eq_iff p k, eq_iff source p, eq_iff source k))
    | inr unseen ↦ rw (new, unseen) (ground (arith, h k))
  ]
]

insert_preds_lem :
    (source : Str) (ps : List Str) (s : Preceding)
    → IsLinked source s
    → (seen (insert_preds ps s) ≡ offer_all ps (seen s)) × IsLinked source (insert_preds ps s)
unfolding insert_preds offer_all
insert_preds_lem source [] s h = (refl, h)
insert_preds_lem source (p ∷ ps) s h =
    let rest = insert_preds_lem source ps (insert_pred p s) (insert_pred-IsLinked source p s h) in
    (rest.0 ∙ ap (offer_all ps) (seen-insert_pred source p s h), rest.1)

preds_loop_lem :
    (edges : List Edge) (source k : Str) (fuel : ℕ) (s : Preceding)
    → IsLinked source s
    → contains (reach_loop fuel edges (seen s)) k
      ≡ (source == k || contains (preds_loop fuel edges s) k)
unfolding reach_loop preds_loop IsLinked
preds_loop_lem edges source k zero s h = h k
preds_loop_lem edges source k (suc fuel) s h = elim (List-cases s.queue) [
  | inl empty ↦ rw (empty, reach_loop, preds_loop) (h k)
  | inr (cur, rest, e) ↦
      (let s' : Preceding = record s { queue = rest } in
        let (same, linked) = insert_preds_lem source (targets edges cur) s' h in
        let ih = preds_loop_lem edges source k fuel (insert_preds (targets edges cur) s') linked in
        rw (e, reach_loop, preds_loop) (rw (← same) ih))
]

-- `reachable_from` returns exactly the nodes to which the bindings lead from the given one, and
-- `transitive_predecessors` with the given node added exactly those from which they lead to it:
-- both loops have enough fuel.
pub searches_iff :
    (a : Assembly) (node k : Str)
    → ((contains (reachable_from a node) k ≡ true) ↔ Walk (outgoing a.bindings) node k)
      × ((contains (node ∷ transitive_predecessors a node) k ≡ true)
          ↔ Walk (incoming a.bindings) node k)
unfolding reachable_from transitive_predecessors IsLinked
searches_iff a node k =
    let edges = incoming a.bindings in
    let linked =
      preds_loop_lem edges node k (suc (length edges))
        (record { out = []; visited = node ∷ []; queue = node ∷ [] }) (λ j. refl) in
    (search_iff (outgoing a.bindings) node k, rw linked at (search_iff edges node k))

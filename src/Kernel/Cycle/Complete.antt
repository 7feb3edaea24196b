-- ===== src/Kernel/Cycle/Complete.antt =====
-- When the search of `validate_assembly` succeeds, and its fuel.
use srcport_substrate.Base.{
  ℕ, zero, suc, ◌≤◌, ◌≡◌, refl, true, false, Option, some, List, [], ◌∷◌, Str, ◌==◌, eq_iff, All,
  Bool-cases, inl, inr, length, contains, arith,
}
use srcport_substrate.Kernel.Cycle.{Edge, targets, visit_list, visit, search_order}
use srcport_substrate.Kernel.Cycle.Order.{IsOrdered}

abbrev Succeeds : (Str → List Str → Option (List Str)) → Str → Type 0
Succeeds one n = (done : List Str) → (found : List Str) × (one n done ≡ some found)

-- None of the nodes of the order is on the path.
abbrev IsApart : List Str → List Str → Type 0
IsApart order visiting = (k : Str) → contains order k ≡ true → contains visiting k ≡ false

visit_list_finds :
    (one : Str → List Str → Option (List Str)) (ns done : List Str)
    → All (Succeeds one) ns
    → (found : List Str) × (visit_list one ns done ≡ some found)
unfolding visit_list
visit_list_finds one [] done h = (done, refl)
visit_list_finds one (n ∷ ns) done h =
    let first = h.0 done in
    let rest = visit_list_finds one ns first.0 h.1 in (rest.0, rw (first.1, visit_list) rest.1)

All-weaken : {P Q : Str → Type 0} (l : List Str) → ((n : Str) → P n → Q n) → All P l → All Q l
All-weaken [] f h = tt
All-weaken (n ∷ l) f h = (f n h.0, All-weaken l f h.1)

module _ (edges : List Edge) where
  visit_above :
      (fuel : ℕ) (visiting done below : List Str) (node : Str)
      → contains visiting node ≡ false
      → visit_list (visit fuel edges (node ∷ visiting)) (targets edges node) done ≡ some below
      → (found : List Str) × (visit (suc fuel) edges visiting node done ≡ some found)
  unfolding visit
  visit_above fuel visiting done below node free h = elim (Bool-cases (contains done node)) [
    | inl old ↦ (done, rw old refl)
    | inr new ↦ (node ∷ below, rw (new, free, h) refl)
  ]

  visit-Succeeds :
      (order visiting : List Str) (fuel : ℕ) (node : Str)
      → IsOrdered edges order
      → IsApart order visiting
      → contains order node ≡ true
      → length order ≤ fuel
      → Succeeds (visit fuel edges visiting) node
  visit-Succeeds [] visiting fuel node h apart c n done = absurd (ground arith)
  visit-Succeeds (x ∷ rest) visiting zero node h apart c n done = absurd (omega arith)
  visit-Succeeds (x ∷ rest) visiting (suc fuel) node h apart c n done =
      elim (Bool-cases (x == node)) [
        | inl e ↦
            (let p = (eq_iff x node).0 e in
              let below =
                visit_list_finds (visit fuel edges (node ∷ visiting)) (targets edges node) done (
                  All-weaken (targets edges node)
                    (λ m inside.
                      visit-Succeeds rest (node ∷ visiting) fuel m h.2
                        (λ k q. ground (arith, apart k, eq_iff node k, h.1, p)) inside
                        (omega arith))
                    (rw (← p) h.0)) in
              visit_above fuel visiting done below.0 node (apart node c) below.1)
        | inr ne ↦
            visit-Succeeds rest visiting (suc fuel) node h.2 (λ k q. apart k (ground arith))
              (ground arith) (omega arith) done
      ]

-- If some order that is no longer than the list of nodes holds every node, each once and before
-- all the nodes that its edges lead to, the search succeeds: its fuel is enough, and it reports a
-- cycle for no such graph.
pub search_order_finds :
    (nodes order : List Str) (edges : List Edge)
    → IsOrdered edges order
    → All (λ n. contains order n ≡ true) nodes
    → length order ≤ length nodes
    → (found : List Str) × (search_order nodes edges ≡ some found)
unfolding search_order
search_order_finds nodes order edges h all n =
    visit_list_finds (visit (suc (length nodes)) edges []) nodes [] (
      All-weaken nodes
        (λ m inside.
          visit-Succeeds edges order [] (suc (length nodes)) m h (λ k q. refl) inside (omega arith))
        all)

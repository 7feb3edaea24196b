-- ===== src/Kernel/Cycle/Order.antt =====
-- The order in which the search of `validate_assembly` finishes the nodes.
use srcport_substrate.Base.{
  ℕ, zero, suc, ◌≡◌, refl, subst, true, false, Option, none, some, List, [], ◌∷◌, Str, eq_iff,
  eq_refl, All, Bool-cases, Option-cases, inl, inr, length, contains, arith,
}
use srcport_substrate.Kernel.Cycle.{Edge, targets, visit_list, visit, search_order}

some_eq : {l m : List Str} → some l ≡ some m → l ≡ m
some_eq h = cc

none-ne-some : {l : List Str} → none ≡ some l → ⊥
none-ne-some h = cc

abbrev AllIn : List Str → List Str → Type 0
AllIn ks l = All (λ k. contains l k ≡ true) ks

-- Each node stands once, before all the targets of its edges.
abbrev pub IsOrdered : List Edge → List Str → Type 0
IsOrdered edges [] = Unit
IsOrdered edges (x ∷ rest) =
    AllIn (targets edges x) rest × (contains rest x ≡ false) × IsOrdered edges rest

module _ (edges : List Edge) where
  -- What a search from nodes that are not on the path `visiting` does to the finished nodes.
  record Extends (visiting done done' : List Str) : Type 0 where
    ordered : IsOrdered edges done → IsOrdered edges done'
    kept : (k : Str) → contains done k ≡ true → contains done' k ≡ true
    untouched :
        (k : Str) → contains visiting k ≡ true → contains done k ≡ false → contains done' k ≡ false

  Extends-refl : (visiting done : List Str) → Extends visiting done done
  Extends-refl visiting done = record { ordered = λ h. h; kept = λ k h. h; untouched = λ k v h. h }

  Extends-trans :
      (visiting a b c : List Str)
      → Extends visiting a b
      → Extends visiting b c
      → Extends visiting a c
  Extends-trans visiting a b c f g = record {
    ordered = λ h. g.ordered (f.ordered h);
    kept = λ k h. g.kept k (f.kept k h);
    untouched = λ k v h. g.untouched k v (f.untouched k v h);
  }

  module _ (visiting : List Str) (one : Str → List Str → Option (List Str))
      (one_lem : (n : Str) (d e : List Str)
        → one n d ≡ some e
        → Extends visiting d e × (contains e n ≡ true)) where
    visit_list_lem :
        (ns d e : List Str) → visit_list one ns d ≡ some e → Extends visiting d e × AllIn ns e
    unfolding visit_list
    visit_list_lem [] d e h =
        (subst (λ x. Extends visiting d x) (some_eq h) (Extends-refl visiting d), tt)
    visit_list_lem (n ∷ ns) d e h = elim (Option-cases (one n d)) [
      | inl stop ↦ absurd (none-ne-some (rw (stop, visit_list) at h))
      | inr (d1, go) ↦
          (let first = one_lem n d d1 go in
            let rest = visit_list_lem ns d1 e (rw (go, visit_list) at h) in
            (Extends-trans visiting d d1 e first.0 rest.0, (rest.0.kept n first.1, rest.1)))
    ]

  -- The node itself goes in front of what the search below it has finished.
  finish_lem :
      (node : Str) (visiting done below : List Str)
      → contains done node ≡ false
      → contains visiting node ≡ false
      → Extends (node ∷ visiting) done below × AllIn (targets edges node) below
      → Extends visiting done (node ∷ below)
  finish_lem node visiting done below d v h = record {
    ordered = λ o. (h.1, h.0.untouched node (rw eq_refl refl) d, h.0.ordered o);
    kept = λ k e. ground (arith, h.0.kept k e);
    untouched = λ k e f. ground (arith, h.0.untouched k, eq_iff node k);
  }

  visit_lem :
      (fuel : ℕ) (visiting : List Str) (node : Str) (done done' : List Str)
      → visit fuel edges visiting node done ≡ some done'
      → Extends visiting done done' × (contains done' node ≡ true)
  unfolding visit
  visit_lem zero visiting node done done' h = cc
  visit_lem (suc fuel) visiting node done done' h = elim (Bool-cases (contains done node)) [
    | inl old ↦
        (let e : done ≡ done' = ground arith in
          (subst (λ x. Extends visiting done x) e (Extends-refl visiting done), rw (← e) old))
    | inr new ↦ elim (Bool-cases (contains visiting node)) [
      | inl cycle ↦ absurd (ground arith)
      | inr free ↦
          elim (Option-cases
            (visit_list (visit fuel edges (node ∷ visiting)) (targets edges node) done)) [
              | inl stop ↦ absurd (ground arith)
              | inr (below, go) ↦
                  (let e : node ∷ below ≡ done' = ground arith in
                    let spec =
                      visit_list_lem (node ∷ visiting) (visit fuel edges (node ∷ visiting))
                        (λ n d d'. visit_lem fuel (node ∷ visiting) n d d') (targets edges node)
                        done below go in
                    (
                      subst (λ x. Extends visiting done x) e
                          (finish_lem node visiting done below new free spec),
                      rw (← e) (rw eq_refl),
                    ))
            ]
    ]
  ]

-- When the search of an assembly's nodes succeeds, what it returns holds every node, each once,
-- and each before all the nodes that its edges lead to: the graph has no cycle.
pub search_order-IsOrdered :
    (nodes : List Str) (edges : List Edge) (order : List Str)
    → search_order nodes edges ≡ some order
    → IsOrdered edges order × All (λ n. contains order n ≡ true) nodes
unfolding search_order
search_order-IsOrdered nodes edges order h =
    let spec =
      visit_list_lem edges [] (visit (suc (length nodes)) edges [])
        (λ n d e. visit_lem edges (suc (length nodes)) [] n d e) nodes [] order h in
    (spec.0.ordered tt, spec.1)

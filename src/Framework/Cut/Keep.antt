-- ===== src/Framework/Cut/Keep.antt =====
-- The nodes that a plan keeps.
use srcport_substrate.Base.{
  ◌≡◌, refl, sym, ap, ◌∙◌, ◌↔◌, Bool, true, false, not, ◌&&◌, Option, none, some, List, [], ◌∷◌,
  Str, eq_iff, contains, contains-utf8_sort, contains-dedup, filter, arith,
}
use srcport_substrate.Proto.{NodeOutput, Assembly}
use srcport_substrate.Kernel.Assembly.{node_ids}
use srcport_substrate.Framework.Error.{FrameworkError, ok, ok_or, ok_of_bind, refuse_if-ok, ok_inj}
use srcport_substrate.Framework.Policy.{NodePlan}
use srcport_substrate.Framework.Policy
use srcport_substrate.Framework.Reach.{outgoing, incoming, reachable_from, transitive_predecessors}
use srcport_substrate.Framework.Reach.Walk.{Walk}
use srcport_substrate.Framework.Reach.Preds.{searches_iff}
use srcport_substrate.Framework.Cut.{
  ordered_set, kept_only, left_after, kept_after, kept_from, kept_by, resolve_kept_nodes,
}

-- What a plan says of a node.
abbrev pub IsPlanned : Assembly → NodePlan → Str → Type 0
IsPlanned a NodePlan.all k = contains (node_ids a.nodes) k ≡ true
IsPlanned a (Policy.only ids) k = contains ids k ≡ true
IsPlanned a (Policy.after n) k =
    (contains (node_ids a.nodes) k ≡ true) × (¬ Walk (incoming a.bindings) n k)
IsPlanned a (Policy.from n) k = Walk (outgoing a.bindings) n k

contains-ordered_set : (l : List Str) (k : Str) → contains (ordered_set l) k ≡ contains l k
contains-ordered_set l k = contains-utf8_sort _ k ∙ contains-dedup l k

contains-filter :
    (p : Str → Bool) (l : List Str) (k : Str) → contains (filter p l) k ≡ (p k && contains l k)
contains-filter p [] k = ground arith
contains-filter p (x ∷ l) k = ground (arith, contains-filter p l k, eq_iff x k)

ok_or-ok : {A : Type 0} (o : Option A) (e : FrameworkError) (x : A) → ok_or o e ≡ ok x → o ≡ some x
unfolding ok_or
ok_or-ok none e x h = cc
ok_or-ok (some y) e x h = ap some (ok_inj h)

-- What is kept when a set is dropped.
except_lem :
    {W : Type 0} (kept dropped known : Bool)
    → kept ≡ (not dropped && known)
    → ((dropped ≡ true) ↔ W)
    → (kept ≡ true) ↔ ((known ≡ true) × (¬ W))
except_lem kept true known e iff = (λ h. ground (arith, e), λ h. absurd (h.1 (iff.0 refl)))
except_lem kept false known e iff =
    (λ h. (ground (arith, e), λ w. ground (arith, iff.1 w)), λ h. ground (arith, e))

abbrev Keeps : Assembly → Str → NodePlan → List Str → Type 0
Keeps a t plan kept =
    (contains kept t ≡ true) × ((k : Str) → (contains kept k ≡ true) ↔ IsPlanned a plan k)

module _ (a : Assembly) (t : Str) where
  kept_only_lem :
      (ids kept : List Str) → kept_only a t ids ≡ ok kept → Keeps a t (Policy.only ids) kept
  unfolding kept_only
  kept_only_lem ids kept h =
      let h1 = ok_of_bind _ _ h in
      let h2 = ok_of_bind _ _ h1.2 in
      let h3 = ok_of_bind _ _ h2.2 in
      let e : ordered_set ids ≡ kept = ok_inj h3.2 in
      let inside = refuse_if-ok _ _ h3.1 in
      let same = λ (k : Str). ap (λ l. contains l k) (sym e) ∙ contains-ordered_set ids k in
      (ground (arith, same t), λ k. ground (arith, same k))

  kept_after_lem :
      (n : Str) (kept : List Str)
      → kept_after a t n ≡ ok kept
      → contains (node_ids a.nodes) t ≡ true
      → Keeps a t (Policy.after n) kept
  unfolding kept_after left_after
  kept_after_lem n kept h there =
      let h1 = ok_of_bind _ _ h in
      let h2 = ok_of_bind _ _ h1.2 in
      let h3 = ok_of_bind _ _ h2.2 in
      let e : ordered_set (left_after a n) ≡ kept = ok_inj h3.2 in
      let dropped = n ∷ transitive_predecessors a n in
      let stays = refuse_if-ok _ _ h2.1 in
      let same = λ (k : Str).
        ap (λ l. contains l k) (sym e)
        ∙ contains-ordered_set (left_after a n) k
        ∙ contains-filter (λ id. not (contains dropped id)) (node_ids a.nodes) k in
      (ground (arith, same t), λ k. except_lem _ _ _ (same k) (searches_iff a n k).1)

  kept_from_lem :
      (n : Str) (kept : List Str) → kept_from a t n ≡ ok kept → Keeps a t (Policy.from n) kept
  unfolding kept_from
  kept_from_lem n kept h =
      let h1 = ok_of_bind _ _ h in
      let h2 = ok_of_bind _ _ h1.2 in
      let e : ordered_set (reachable_from a n) ≡ kept = ok_inj h2.2 in
      let reached = refuse_if-ok _ _ h2.1 in
      let same =
        λ (k : Str). ap (λ l. contains l k) (sym e) ∙ contains-ordered_set (reachable_from a n) k in
      (
        ground (arith, same t),
        λ k. (
          λ w. (searches_iff a n k).0.0 (sym (same k) ∙ w),
          λ w. same k ∙ (searches_iff a n k).0.1 w,
        ),
      )

kept_by_lem :
    (a : Assembly) (t : Str) (plan : NodePlan) (kept : List Str)
    → contains (node_ids a.nodes) t ≡ true
    → kept_by a t plan ≡ ok kept
    → Keeps a t plan kept
unfolding kept_by
kept_by_lem a t NodePlan.all kept there h =
    let same = λ (k : Str).
      ap (λ l. contains l k) (sym (ok_inj h)) ∙ contains-ordered_set (node_ids a.nodes) k in
    (ground (arith, same t), λ k. ground (arith, same k))
kept_by_lem a t (Policy.only ids) kept there h = kept_only_lem a t ids kept h
kept_by_lem a t (Policy.after n) kept there h = kept_after_lem a t n kept h there
kept_by_lem a t (Policy.from n) kept there h = kept_from_lem a t n kept h

-- A plan is resolved only when the assembly has a terminal; its node is kept, and the nodes kept
-- are exactly those of the plan: all of the assembly's, the listed ones, those that do not lead to
-- the node of `After`, or those that the node of `From` leads to.
pub resolve_kept_nodes_lem :
    (a : Assembly) (plan : NodePlan) (kept : List Str) (k : Str)
    → resolve_kept_nodes a plan ≡ ok kept
    → (t : NodeOutput) × (a.terminal ≡ some t)
      × (contains kept t.node ≡ true)
      × ((contains kept k ≡ true) ↔ IsPlanned a plan k)
unfolding resolve_kept_nodes kept_by
resolve_kept_nodes_lem a plan kept k h =
    let h1 = ok_of_bind _ _ h in
    let h2 = ok_of_bind _ _ h1.2 in
    let h3 = ok_of_bind _ _ h2.2 in
    let t = h2.0 in
    let there : contains (node_ids a.nodes) t.node ≡ true =
      (let known = refuse_if-ok _ _ h3.1 in ground arith) in
    let e : kept_by a t.node plan ≡ ok kept = h3.2 in
    let kept_lem = kept_by_lem a t.node plan kept there e in
    (t, ok_or-ok a.terminal _ t h2.1, kept_lem.0, kept_lem.1 k)

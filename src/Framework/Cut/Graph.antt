-- ===== src/Framework/Cut/Graph.antt =====
-- The graph of a cut.
use srcport_substrate.Base.{
  subst, lit, ◌≡◌, refl, ap, Bool, true, false, ◌&&◌, ◌||◌, inl, inr, List, [], ◌∷◌, Str, ◌==◌,
  eq_iff, eq_refl, contains, is_empty, any, All, arith, Bool-cases, length, eqb,
}
use srcport_substrate.Proto.{AssemblyNode, Binding, Assembly}
use srcport_substrate.Kernel.Assembly.{node_ids}
use srcport_substrate.Kernel.Cycle.{targets}
use srcport_substrate.Kernel.Cycle.Order.{IsOrdered}
use srcport_substrate.Kernel.Validate.{edges_of}
use srcport_substrate.Framework.Error.{ok, ok_of_bind, ok_inj}
use srcport_substrate.Framework.Policy.{NodePlan}
use srcport_substrate.Framework.Cut.{
  seed_input_name, AssemblyCut, seeded, kept_nodes, partial_cut, cut_to, materialize_cut, is_all,
}
use srcport_substrate.Framework.Cut.Bindings.{crosses, is_unbound, rebind, rebound, partial_cut_lem}

leads : Binding → Str → Str → Bool
leads b node k = is_empty b.input && (b.from_node == node && b.to_node == k)

targets-cons :
    (b : Binding) (bs : List Binding) (node k : Str)
    → contains (targets (edges_of (b ∷ bs)) node) k
      ≡ (leads b node k || contains (targets (edges_of bs) node) k)
unfolding targets edges_of leads
targets-cons b bs node k = ground arith

leads-rebind :
    (kept : List Str) (b : Binding) (node k : Str)
    → contains kept b.to_node ≡ true
    → is_unbound kept b ≡ false
    → leads (rebind kept b) node k ≡ (leads b node k && contains kept node)
unfolding leads seeded seed_input_name lit
leads-rebind kept b node k there u = elim (Bool-cases (crosses kept b)) [
  | inl c ↦ rw c (ground (arith, eq_iff b.from_node node))
  | inr c ↦ rw c (ground (arith, eq_iff b.from_node node))
]

leads-gone :
    (kept : List Str) (b : Binding) (node k : Str)
    → contains kept b.to_node ≡ false
    → leads b node k && contains kept k ≡ false
unfolding leads
leads-gone kept b node k gone = ground (arith, eq_iff b.to_node k)

leads-there :
    (kept : List Str) (b : Binding) (node k : Str)
    → contains kept b.to_node ≡ true
    → leads b node k && contains kept k ≡ leads b node k
unfolding leads
leads-there kept b node k there = ground (arith, eq_iff b.to_node k)

-- The edges of a cut are those of the assembly with both ends kept.
targets-rebound :
    (kept : List Str) (node k : Str) (bs : List Binding)
    → any (is_unbound kept) bs ≡ false
    → contains (targets (edges_of (rebound kept bs)) node) k
      ≡ (contains (targets (edges_of bs) node) k && (contains kept node && contains kept k))
unfolding targets edges_of
targets-rebound kept node k [] u = refl
targets-rebound kept node k (b ∷ bs) u = elim (Bool-cases (contains kept b.to_node)) [
  | inr gone ↦ rw gone (
      ground (
        arith,
        targets-cons b bs node k,
        leads-gone kept b node k gone,
        targets-rebound kept node k bs,
      ))
  | inl there ↦ rw there (
      ground (
        arith,
        targets-cons b bs node k,
        targets-cons (rebind kept b) (rebound kept bs) node k,
        leads-rebind kept b node k,
        leads-there kept b node k there,
        targets-rebound kept node k bs,
      ))
]

contains-kept_nodes :
    (kept : List Str) (nodes : List AssemblyNode) (k : Str)
    → contains (node_ids (kept_nodes kept nodes)) k
      ≡ (contains kept k && contains (node_ids nodes) k)
contains-kept_nodes kept [] k = ground arith
contains-kept_nodes kept (n ∷ nodes) k =
    ground (arith, contains-kept_nodes kept nodes k, eq_iff n.id k)

All-elim : (P : Str → Type 0) (m : List Str) (k : Str) → contains m k ≡ true → All P m → P k
All-elim P [] k h a = absurd (cc)
All-elim P (x ∷ m) k h a = elim (Bool-cases (x == k)) [
  | inl e ↦ subst P ((eq_iff x k).0 e) a.0
  | inr e ↦ All-elim P m k (ground arith) a.1
]

All-sublist :
    (P : Str → Type 0) (l m : List Str)
    → ((k : Str) → contains l k ≡ true → contains m k ≡ true)
    → All P m
    → All P l
All-sublist P [] m sub a = tt
All-sublist P (x ∷ l) m sub a =
    (All-elim P m x (sub x (rw eq_refl refl)) a, All-sublist P l m (λ k h. sub k (ground arith)) a)

IsOrdered-rebound :
    (kept : List Str) (bs : List Binding) (order : List Str)
    → any (is_unbound kept) bs ≡ false
    → IsOrdered (edges_of bs) order
    → IsOrdered (edges_of (rebound kept bs)) order
IsOrdered-rebound kept bs [] u h = tt
IsOrdered-rebound kept bs (x ∷ order) u h = (
  All-sublist _ _ _ (λ k there. ground (arith, targets-rebound kept x k bs u, there)) h.0,
  h.1,
  IsOrdered-rebound kept bs order u h.2,
)

-- Both ends of an edge are nodes.
abbrev pub HasEnds : Assembly → Type 0
HasEnds a =
    (n m : Str)
    → contains (targets (edges_of a.bindings) n) m ≡ true
    → (contains (node_ids a.nodes) n ≡ true) × (contains (node_ids a.nodes) m ≡ true)

abbrev pub leads_to : Assembly → Str → Str → Bool
leads_to a n m = contains (targets (edges_of a.bindings) n) m

abbrev pub has_node : Assembly → Str → Bool
has_node a n = contains (node_ids a.nodes) n

-- What a cut leaves of the graph.
IsGraphOf : Assembly → List Str → Str → Str → Assembly → Type 0
IsGraphOf a order node k b =
    (leads_to b node k ≡ (leads_to a node k && (has_node b node && has_node b k)))
    × IsOrdered (edges_of b.bindings) order
    × All (λ n. contains order n ≡ true) (node_ids b.nodes)

whole_graph :
    (a : Assembly) (order : List Str) (node k : Str)
    → HasEnds a
    → IsOrdered (edges_of a.bindings) order
    → All (λ n. contains order n ≡ true) (node_ids a.nodes)
    → IsGraphOf a order node k a
unfolding IsGraphOf
whole_graph a order node k ends o there = (
  elim (Bool-cases (leads_to a node k)) [
    | inl e ↦ ground (arith, ends node k e)
    | inr e ↦ ground (arith, e)
  ],
  o,
  there,
)

partial_graph :
    (a : Assembly) (kept : List Str) (cut : AssemblyCut) (order : List Str) (node k : Str)
    → partial_cut a kept ≡ ok cut
    → HasEnds a
    → IsOrdered (edges_of a.bindings) order
    → All (λ n. contains order n ≡ true) (node_ids a.nodes)
    → IsGraphOf a order node k cut.assembly
unfolding IsGraphOf partial_cut
partial_graph a kept cut order node k h ends o there =
    let (e, u, s) = partial_cut_lem a kept cut [] [] h in
    let nodes : kept_nodes kept a.nodes ≡ cut.assembly.nodes =
      ap (λ c. c.assembly.nodes) (ok_inj (ok_of_bind _ _ h).2) in
    let first = contains-kept_nodes kept a.nodes node in
    let second = contains-kept_nodes kept a.nodes k in
    let edges = targets-rebound kept node k a.bindings u in
    (
      rw e (
          rw (← nodes) (elim (Bool-cases (leads_to a node k)) [
            | inl l ↦ ground (arith, first, second, edges, ends node k l)
            | inr l ↦ ground (arith, edges, l)
          ])),
      rw e (IsOrdered-rebound kept a.bindings order u o),
      rw (← nodes) (
          All-sublist _ _ (node_ids a.nodes)
            (λ n l. ground (arith, contains-kept_nodes kept a.nodes n, l)) there),
    )

-- Where the ends of an assembly's edges are among its nodes, an edge leads from one node to another
-- in a cut exactly when it does in the assembly and the cut has both nodes; and an order of all
-- nodes in which no edge of the assembly leads back is one for the cut.
pub materialize_cut_lem :
    (a : Assembly) (plan : NodePlan) (cut : AssemblyCut) (order : List Str) (node k : Str)
    → materialize_cut a plan ≡ ok cut
    → HasEnds a
    → IsOrdered (edges_of a.bindings) order
    → All (λ n. contains order n ≡ true) (node_ids a.nodes)
    → (leads_to cut.assembly node k
        ≡ (leads_to a node k && (has_node cut.assembly node && has_node cut.assembly k)))
      × IsOrdered (edges_of cut.assembly.bindings) order
      × All (λ n. contains order n ≡ true) (node_ids cut.assembly.nodes)
unfolding materialize_cut cut_to IsGraphOf
materialize_cut_lem a plan cut order node k h ends o there =
    let made = ok_of_bind _ _ h in
    elim (Bool-cases (is_all plan || eqb (length made.0) (length a.nodes))) [
      | inl whole ↦
          rw (← ap (λ c. c.assembly) (ok_inj (rw whole at made.2)))
            (whole_graph a order node k ends o there)
      | inr part ↦ partial_graph a made.0 cut order node k (rw part at made.2) ends o there
    ]

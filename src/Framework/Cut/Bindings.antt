-- ===== src/Framework/Cut/Bindings.antt =====
-- The bindings and seeds of a cut.
use srcport_substrate.Base.{
  ◌≡◌, refl, sym, ap, ◌∙◌, Bool, true, false, not, ◌&&◌, ◌||◌, ◌⊎◌, inl, inr, List, [], ◌∷◌, map,
  Str, ◌==◌, eq_iff, contains, filter, is_empty, any, arith, if◌then◌else◌,
}
use srcport_substrate.Proto.{Binding, Assembly}
use srcport_substrate.Framework.Error.{Result, ok, ok_of_bind, ok_inj}
use srcport_substrate.Framework.Cut.{
  SeedSpec, AssemblyCut, seed_of, seeded, insert_seed, drop, pass, cross, reject, cut_step,
  cut_bindings, partial_cut,
}

-- An edge from a node that the cut drops to one that it keeps.
abbrev pub crosses : List Str → Binding → Bool
crosses kept b =
    contains kept b.to_node
    && (is_empty b.input && (not (is_empty b.from_node) && not (contains kept b.from_node)))

-- A kept node's binding without a source.
abbrev pub is_unbound : List Str → Binding → Bool
is_unbound kept b = contains kept b.to_node && (is_empty b.input && is_empty b.from_node)

abbrev pub rebind : List Str → Binding → Binding
rebind kept b = if crosses kept b then seeded b else b

abbrev pub rebound : List Str → List Binding → List Binding
rebound kept bs = map (rebind kept) (filter (λ b. contains kept b.to_node) bs)

abbrev pub has_seed : Str → Str → List SeedSpec → Bool
has_seed node port = any (λ s. s.from_node == node && s.from_port == port)

abbrev pub has_crossing : List Str → Str → Str → List Binding → Bool
has_crossing kept node port =
    any (λ b. crosses kept b && (b.from_node == node && b.from_port == port))

has_seed-insert_seed :
    (node port : Str) (s : SeedSpec) (seeds : List SeedSpec)
    → has_seed node port (insert_seed s seeds)
      ≡ (has_seed node port (s ∷ []) || has_seed node port seeds)
unfolding insert_seed
has_seed-insert_seed node port s [] = ground arith
has_seed-insert_seed node port s (t ∷ seeds) = ground (
  arith,
  has_seed-insert_seed node port s seeds,
  eq_iff t.from_node s.from_node,
  eq_iff t.from_port s.from_port,
)

pair_inj :
    {A B : Type 0} {a a' : A} {b b' : B}
    → ◌≡◌ {A = Result (A × B)} (ok (a, b)) (ok (a', b'))
    → (a ≡ a') × (b ≡ b')
pair_inj h = (cc, cc)

-- Which of the four steps a binding takes.
cut_step-cases :
    (kept : List Str) (b : Binding)
    → ((cut_step kept b ≡ drop) × (contains kept b.to_node ≡ false))
      ⊎ ((cut_step kept b ≡ pass)
          × (contains kept b.to_node ≡ true)
          × (crosses kept b ≡ false)
          × (is_unbound kept b ≡ false))
      ⊎ ((cut_step kept b ≡ cross)
          × (contains kept b.to_node ≡ true)
          × (crosses kept b ≡ true)
          × (is_unbound kept b ≡ false))
      ⊎ ((cut_step kept b ≡ reject) × (is_unbound kept b ≡ true))
unfolding cut_step
cut_step-cases kept b = ground arith

IsCutOf : List Str → List Binding → List SeedSpec → List Binding × List SeedSpec → Type 0
IsCutOf kept bs seeds r =
    (r.0 ≡ rebound kept bs)
    × ((n p : Str) → has_seed n p r.1 ≡ (has_seed n p seeds || has_crossing kept n p bs))
    × (any (is_unbound kept) bs ≡ false)

-- The rest of the bindings is cut, and the first one stays or gets a seed.
pass_lem :
    (kept : List Str) (b : Binding) (bs : List Binding) (seeds : List SeedSpec)
    (mid r : List Binding × List SeedSpec)
    → contains kept b.to_node ≡ true
    → crosses kept b ≡ false
    → is_unbound kept b ≡ false
    → IsCutOf kept bs seeds mid
    → ◌≡◌ {A = Result (List Binding × List SeedSpec)} (ok (b ∷ mid.0, mid.1)) (ok r)
    → IsCutOf kept (b ∷ bs) seeds r
unfolding IsCutOf
pass_lem kept b bs seeds (out, found) r there c u ih h =
    let (a, q) = pair_inj h in
    (
      sym a ∙ rw there (rw c (rw ih.0 refl)),
      λ n p. ap (has_seed n p) (sym q) ∙ rw c (ih.1 n p),
      rw u ih.2,
    )

cross_lem :
    (kept : List Str) (b : Binding) (bs : List Binding) (seeds : List SeedSpec)
    (mid r : List Binding × List SeedSpec)
    → contains kept b.to_node ≡ true
    → crosses kept b ≡ true
    → is_unbound kept b ≡ false
    → IsCutOf kept bs (insert_seed (seed_of b) seeds) mid
    → ◌≡◌ {A = Result (List Binding × List SeedSpec)} (ok (seeded b ∷ mid.0, mid.1)) (ok r)
    → IsCutOf kept (b ∷ bs) seeds r
unfolding IsCutOf seed_of
cross_lem kept b bs seeds (out, found) r there c u ih h =
    let (a, q) = pair_inj h in
    (
      sym a ∙ rw there (rw c (rw ih.0 refl)),
      λ n p.
          ap (has_seed n p) (sym q)
          ∙ ih.1 n p
          ∙ rw (c, has_seed-insert_seed n p (seed_of b) seeds) (ground arith),
      rw u ih.2,
    )

cut_bindings_lem :
    (kept : List Str) (bs : List Binding) (seeds : List SeedSpec) (r : List Binding × List SeedSpec)
    → cut_bindings kept bs seeds ≡ ok r
    → IsCutOf kept bs seeds r
unfolding cut_bindings IsCutOf
cut_bindings_lem kept [] seeds r h =
    (let (a, q) = pair_inj h in (sym a, λ n p. ground (arith, q), refl))
cut_bindings_lem kept (b ∷ bs) seeds r h = elim (cut_step-cases kept b) [
  | inl (e, gone) ↦
      (let ih = cut_bindings_lem kept bs seeds r (rw (e, cut_bindings) at h) in
        (ih.0 ∙ rw gone refl, λ n p. ground (arith, ih.1 n p), ground (arith, ih.2)))
  | inr (inl (e, there, c, u)) ↦
      (let rest = ok_of_bind _ _ (rw (e, cut_bindings) at h) in
        pass_lem kept b bs seeds rest.0 r there c u (cut_bindings_lem kept bs seeds rest.0 rest.1)
          rest.2)
  | inr (inr (inl (e, there, c, u))) ↦
      (let rest = ok_of_bind _ _ (rw (e, cut_bindings) at h) in
        cross_lem kept b bs seeds rest.0 r there c u
          (cut_bindings_lem kept bs (insert_seed (seed_of b) seeds) rest.0 rest.1) rest.2)
  | inr (inr (inr (e, u))) ↦ (let stop = (rw (e, cut_bindings) at h) in absurd (cc))
]

-- The cut of a list of kept nodes is rejected when a binding to a kept node has no source.
-- Otherwise its bindings are those to kept nodes, in their order, each edge from a dropped node
-- turned into an input; and a seed is required for an output exactly when there is such an edge
-- from it.
pub partial_cut_lem :
    (a : Assembly) (kept : List Str) (cut : AssemblyCut) (node port : Str)
    → partial_cut a kept ≡ ok cut
    → (cut.assembly.bindings ≡ rebound kept a.bindings)
      × (any (is_unbound kept) a.bindings ≡ false)
      × (has_seed node port cut.required_seeds ≡ has_crossing kept node port a.bindings)
unfolding partial_cut IsCutOf
partial_cut_lem a kept cut node port h =
    let made = ok_of_bind _ _ h in
    let (b, s, u) = cut_bindings_lem kept a.bindings [] made.0 made.1 in
    let e = ok_inj made.2 in
    (
      ap (λ c. c.assembly.bindings) (sym e) ∙ b,
      u,
      ap (λ c. has_seed node port c.required_seeds) (sym e) ∙ s node port,
    )

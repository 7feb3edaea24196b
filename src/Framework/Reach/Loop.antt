-- ===== src/Framework/Reach/Loop.antt =====
-- What `reach_loop` computes.
use srcport_substrate.Base.{
  ℕ, zero, suc, ◌+◌, ◌≤◌, ◌≡◌, refl, ap, subst, ◌↔◌, ◌⊎◌, inl, inr, true, false, not, ◌||◌, ◌&&◌,
  List, [], ◌∷◌, ◌++◌, Str, ◌==◌, eq_iff, eq_refl, contains, length, length-append, if◌then◌else◌,
  map, arith, Bool-cases,
}
use srcport_substrate.Kernel.Cycle.{Edge, targets}
use srcport_substrate.Framework.Reach.{Reached, offer_all, offer, reach_loop}
use srcport_substrate.Framework.Reach.Walk.{Walk, here, step}

pub contains-append :
    (l m : List Str) (k : Str) → contains (l ++ m) k ≡ (contains l k || contains m k)
contains-append [] m k = refl
contains-append (x ∷ l) m k = ground (arith, contains-append l m k)

offer_lem :
    (n : Str) (s : Reached) (k : Str)
    → (contains (offer n s).out k ≡ (contains s.out k || n == k))
      × (contains (offer n s).queue k ≡ (contains s.queue k || (not (contains s.out k) && n == k)))
unfolding offer
offer_lem n s k = ground (arith, eq_iff n k, contains-append s.queue (n ∷ []) k)

-- What the inner loop marks and queues.
offer_all_lem :
    (ns : List Str) (s : Reached) (k : Str)
    → (contains (offer_all ns s).out k ≡ (contains s.out k || contains ns k))
      × (contains (offer_all ns s).queue k
          ≡ (contains s.queue k || (not (contains s.out k) && contains ns k)))
unfolding offer_all
offer_all_lem [] s k = (ground arith, ground arith)
offer_all_lem (n ∷ ns) s k = ground (arith, offer_all_lem ns (offer n s) k, offer_lem n s k)

-- The edges that lead to what is not marked yet.
abbrev pub ahead : List Edge → List Str → ℕ
ahead [] out = 0
ahead (e ∷ edges) out = (if contains out e.1 then 0 else 1) + ahead edges out

ahead-cons-le :
    (edges : List Edge) (n : Str) (out : List Str) → ahead edges (n ∷ out) ≤ ahead edges out
ahead-cons-le [] n out = omega arith
ahead-cons-le (e ∷ edges) n out = ground (arith, ahead-cons-le edges n out)

ahead-cons-lt :
    (edges : List Edge) (n : Str) (out : List Str)
    → contains (map (λ e. e.1) edges) n ≡ true
    → contains out n ≡ false
    → ahead edges (n ∷ out) + 1 ≤ ahead edges out
ahead-cons-lt [] n out inside new = cc
ahead-cons-lt (e ∷ edges) n out inside new =
    ground (arith, ahead-cons-le edges n out, ahead-cons-lt edges n out, eq_iff e.1 n, eq_iff n e.1)

pub ahead-le : (edges : List Edge) (out : List Str) → ahead edges out ≤ length edges
ahead-le [] out = omega arith
ahead-le (e ∷ edges) out = ground (arith, ahead-le edges out)

abbrev pub work : List Edge → Reached → ℕ
work edges s = ahead edges s.out + length s.queue

-- Each new node that is queued was the end of such an edge.
offer_work :
    (edges : List Edge) (n : Str) (s : Reached)
    → contains (map (λ e. e.1) edges) n ≡ true
    → work edges (offer n s) ≤ work edges s
unfolding offer
offer_work edges n s inside = elim (Bool-cases (contains s.out n)) [
  | inl old ↦ rw old (omega arith)
  | inr new ↦
      rw new (omega (arith, ahead-cons-lt edges n s.out inside new, length-append s.queue (n ∷ [])))
]

offer_all_work :
    (edges : List Edge) (ns : List Str) (s : Reached)
    → ((n : Str) → contains ns n ≡ true → contains (map (λ e. e.1) edges) n ≡ true)
    → work edges (offer_all ns s) ≤ work edges s
unfolding offer_all
offer_all_work edges [] s inside = omega arith
offer_all_work edges (n ∷ ns) s inside = omega (
  arith,
  offer_all_work edges ns (offer n s) (λ k q. inside k (ground (arith, q))),
  offer_work edges n s (inside n (rw eq_refl refl)),
)

targets_inside :
    (edges : List Edge) (cur n : Str)
    → contains (targets edges cur) n ≡ true
    → contains (map (λ e. e.1) edges) n ≡ true
unfolding targets
targets_inside [] cur n h = cc
targets_inside (e ∷ edges) cur n h = ground (arith, targets_inside edges cur n)

pub List-cases : (l : List Str) → (l ≡ []) ⊎ ((x : Str) × (rest : List Str) × (l ≡ x ∷ rest))
List-cases [] = inl refl
List-cases (x ∷ l) = inr (x, l, refl)

nil_of_length : (l : List Str) → length l ≤ 0 → l ≡ []
nil_of_length [] h = refl
nil_of_length (x ∷ l) h = absurd (omega arith)

pub record IsReaching (edges : List Edge) (source : Str) (s : Reached) : Type 0 where
  start : contains s.out source ≡ true
  queued : (k : Str) → contains s.queue k ≡ true → contains s.out k ≡ true
  sound : (k : Str) → contains s.out k ≡ true → Walk edges source k
  closed :
      (u v : Str)
      → contains s.out u ≡ true
      → contains (targets edges u) v ≡ true
      → (contains s.queue u ≡ true) ⊎ (contains s.out v ≡ true)

offer_all-IsReaching :
    (edges : List Edge) (source cur : Str) (rest : List Str) (s : Reached)
    → s.queue ≡ cur ∷ rest
    → IsReaching edges source s
    → IsReaching edges source (offer_all (targets edges cur) (record s { queue = rest }))
offer_all-IsReaching edges source cur rest s e h =
    let s' : Reached = record s { queue = rest } in
    let after = λ (k : Str). offer_all_lem (targets edges cur) s' k in
    let marked : contains s.out cur ≡ true = h.queued cur (rw e (rw eq_refl refl)) in
    record {
      start = ground (arith, after source, h.start);
      queued = λ k q. ground (arith, after k, h.queued k, e);
      sound = λ k m. elim (Bool-cases (contains s.out k)) [
        | inl old ↦ h.sound k old
        | inr new ↦ step (h.sound cur marked) (ground (arith, after k))
      ];
      closed = λ u v m t. ground (arith, after u, after v, h.closed u v, e, eq_iff cur u);
    }

-- The set holds exactly the nodes that the source has walks to, given fuel for the work.
pub reach_loop_lem :
    (edges : List Edge) (source : Str) (fuel : ℕ) (s : Reached)
    → IsReaching edges source s
    → work edges s ≤ fuel
    → (t : Reached) × (reach_loop fuel edges s ≡ t.out) × (t.queue ≡ []) × IsReaching edges source t
unfolding reach_loop
reach_loop_lem edges source zero s h n = (s, refl, nil_of_length s.queue (omega arith), h)
reach_loop_lem edges source (suc fuel) s h n = elim (List-cases s.queue) [
  | inl empty ↦ (s, rw (empty, reach_loop) refl, empty, h)
  | inr (cur, rest, e) ↦
      (let s' : Reached = record s { queue = rest } in
        let next = offer_all (targets edges cur) s' in
        let (t, ends, done, inv) =
          reach_loop_lem edges source fuel next (offer_all-IsReaching edges source cur rest s e h) (
            omega (
              arith,
              offer_all_work edges (targets edges cur) s' (targets_inside edges cur),
              ap (λ (l : List Str). length l) e,
            )) in
        (t, rw (e, reach_loop) ends, done, inv))
]

reached_all :
    (edges : List Edge) (source : Str) (t : Reached)
    → IsReaching edges source t
    → t.queue ≡ []
    → {k : Str} → Walk edges source k
    → contains t.out k ≡ true
reached_all edges source t h e here = h.start
reached_all edges source t h e (step {u} {v} w edge) =
    elim (h.closed u v (reached_all edges source t h e w) edge) [
      | inl waiting ↦ absurd (ground (arith, e))
      | inr m ↦ m
    ]

pub search_iff :
    (edges : List Edge) (source : Str) (k : Str)
    → (contains
          (reach_loop
            (suc (length edges))
            edges
            (record { out = source ∷ []; queue = source ∷ [] }))
          k
        ≡ true)
      ↔ Walk edges source k
search_iff edges source k =
    let s : Reached = record { out = source ∷ []; queue = source ∷ [] } in
    let (t, ends, done, inv) =
      reach_loop_lem edges source (suc (length edges)) s
        (record {
          start = rw eq_refl refl;
          queued = λ j q. q;
          sound = λ j m. subst (λ x. Walk edges source x) ((eq_iff source j).0 (ground arith)) here;
          closed = λ u v m edge. inl m;
        })
        (omega (arith, ahead-le edges (source ∷ []))) in
    (λ m. inv.sound k (rw ends at m), λ w. rw ends (reached_all edges source t inv done w))

-- ===== src/Kernel/Bag/Laws.antt =====
-- Projection and merge, trait by trait.
use srcport_substrate.Base.{
  ◌≡◌, refl, true, false, ◌⊎◌, inl, inr, Option, none, some, List, [], ◌∷◌, ◌++◌, Str, lit, eq_iff,
  eq_refl, contains, arith, if◌then◌else◌, Option-cases,
}
use srcport_substrate.Base.Map
use srcport_substrate.Base.Map.{Map, HasUniqueKeys, lookup-insert}
use srcport_substrate.Proto.{Trait, Artifact}
use srcport_substrate.Kernel.Error.{Result, ok, err, invalid, ◌>>=◌}
use srcport_substrate.Kernel.Bag.{
  has_traits, get_trait, insert_all, project_loop, project_traits, merge_traits,
}

abbrev pub or_else : Option Trait → Option Trait → Option Trait
or_else (some t) d = some t
or_else none d = d

lookup-insert_all :
    (add base : Map Trait) (k : Str)
    → HasUniqueKeys add
    → Map.lookup k (insert_all add base) ≡ or_else (Map.lookup k add) (Map.lookup k base)
unfolding insert_all Map.lookup
lookup-insert_all [] base k u = refl
lookup-insert_all ((j, v) ∷ add) base k u =
    ground (
      arith,
      lookup-insert_all add (Map.insert j v base) k u.1,
      lookup-insert j k v base,
      eq_iff j k,
    )

-- The merge of two bags has each trait of the added bag, and of the base those that the added bag
-- lacks.
pub get_trait-merge_traits :
    (base add : Artifact) (k : Str)
    → HasUniqueKeys add.traits
    → get_trait (merge_traits base add) k ≡ or_else (get_trait add k) (get_trait base k)
unfolding get_trait merge_traits
get_trait-merge_traits base add k u = lookup-insert_all add.traits base.traits k u

abbrev Projected : Artifact → List Str → Map Trait → Result (Map Trait) → Type 0
Projected a cs acc r =
    ((has_traits a cs ≡ true)
      × (m : Map Trait) × (r ≡ ok m)
      × ((k : Str)
          → Map.lookup k m ≡ (if contains cs k then Map.lookup k a.traits else Map.lookup k acc)))
    ⊎ ((has_traits a cs ≡ false)
        × (c : Str) × (r ≡ err (invalid (lit "artifact missing trait " ++ c)))
        × (contains cs c ≡ true)
        × (Map.lookup c a.traits ≡ none))

project_loop_lem :
    (a : Artifact) (cs : List Str) (acc : Map Trait) → Projected a cs acc (project_loop a cs acc)
unfolding project_loop has_traits Map.contains_key
project_loop_lem a [] acc = inl (refl, acc, refl, λ k. refl)
project_loop_lem a (c ∷ cs) acc = elim (Option-cases (Map.lookup c a.traits)) [
  | inl absent ↦ inr (ground arith, c, rw (absent, project_loop), rw eq_refl refl, absent)
  | inr (f, found) ↦ elim (project_loop_lem a cs (Map.insert c f acc)) [
    | inl (h, m, e, q) ↦ inl (
      ground arith,
      m,
      rw (found, project_loop) e,
      λ k. ground (arith, q k, lookup-insert c k f acc, eq_iff c k),
    )
    | inr (h, d, e, q, r) ↦ inr (ground arith, d, rw (found, project_loop) e, ground arith, r)
  ]
]

-- A projection succeeds exactly if the artifact has every listed trait. It then has the listed
-- traits, with their contents, and no other, and all fields but the id are the source's; otherwise
-- it is Invalid and names a listed trait that the artifact lacks.
pub project_traits_lem :
    (a : Artifact) (cs : List Str)
    → ((has_traits a cs ≡ true)
        × (m : Map Trait) × (project_traits a cs ≡ ok (record a { id = []; traits = m }))
        × ((k : Str) → Map.lookup k m ≡ (if contains cs k then get_trait a k else none)))
      ⊎ ((has_traits a cs ≡ false)
          × (c : Str) × (project_traits a cs ≡ err (invalid (lit "artifact missing trait " ++ c)))
          × (contains cs c ≡ true)
          × (get_trait a c ≡ none))
unfolding project_traits get_trait Map.lookup ◌>>=◌
project_traits_lem a cs = elim (project_loop_lem a cs []) [
  | inl (h, m, e, q) ↦ inl (h, m, rw e, q)
  | inr (h, c, e, q, r) ↦ inr (h, c, rw e, q, r)
]

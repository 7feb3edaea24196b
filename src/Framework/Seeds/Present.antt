-- ===== src/Framework/Seeds/Present.antt =====
-- What the merged inputs hold, and when a cut has all its seeds.
use srcport_substrate.Base.{
  ◌≡◌, refl, ap, ◌∙◌, ◌↔◌, Bool, true, false, Option, none, some, List, [], ◌∷◌, Str, ◌==◌, all,
  filter_map, is_nil, arith, if◌then◌else◌,
}
use srcport_substrate.Base.Map
use srcport_substrate.Base.Map.{Map}
use srcport_substrate.Proto.{NamedArtifact}
use srcport_substrate.Framework.Error.{ok}
use srcport_substrate.Framework.Cut.{SeedSpec, AssemblyCut}
use srcport_substrate.Framework.Seeds.{by_name, merge_inputs, missing_seed, validate_seeds_present}

abbrev pub or_else : Option NamedArtifact → Option NamedArtifact → Option NamedArtifact
or_else none o = o
or_else (some a) o = some a

abbrev pub last_named : Str → List NamedArtifact → Option NamedArtifact
last_named name [] = none
last_named name (na ∷ nas) =
    or_else (last_named name nas) (if na.name == name then some na else none)

abbrev pub first_named : Str → List NamedArtifact → Option NamedArtifact
first_named name [] = none
first_named name (na ∷ nas) = if na.name == name then some na else first_named name nas

abbrev pub has_artifact : NamedArtifact → Bool
has_artifact na = elim na.artifact [ none ↦ false | some r ↦ true ]

-- The inputs hold the seed, with an artifact.
abbrev pub is_provided : List NamedArtifact → SeedSpec → Bool
is_provided inputs s = elim (last_named s.input_name inputs) [
  | none ↦ false
  | some na ↦ has_artifact na
]

or_else_assoc : (a b c : Option NamedArtifact) → or_else a (or_else b c) ≡ or_else (or_else a b) c
or_else_assoc none b c = refl
or_else_assoc (some x) b c = refl

or_else-none : (a : Option NamedArtifact) → or_else a none ≡ a
or_else-none none = refl
or_else-none (some x) = refl

lookup-by_name :
    (name : Str) (l : List NamedArtifact) (m : Map NamedArtifact)
    → Map.lookup name (by_name l m) ≡ or_else (last_named name l) (Map.lookup name m)
unfolding by_name
lookup-by_name name [] m = refl
lookup-by_name name (na ∷ l) m =
    lookup-by_name name l _
    ∙ ap (or_else (last_named name l)) (Map.lookup-insert na.name name na m ∙ ground arith)
    ∙ or_else_assoc (last_named name l) (if na.name == name then some na else none)
        (Map.lookup name m)

-- Every entry stands under its own name.
IsNamed : Map NamedArtifact → Type 0
IsNamed [] = Unit
IsNamed ((q, v) ∷ m) = (q ≡ v.name) × IsNamed m

insert-IsNamed :
    (na : NamedArtifact) (m : Map NamedArtifact) → IsNamed m → IsNamed (Map.insert na.name na m)
unfolding Map.insert IsNamed
insert-IsNamed na [] h = (refl, tt)
insert-IsNamed na ((q, v) ∷ m) h = ground (arith, insert-IsNamed na m)

by_name-IsNamed :
    (l : List NamedArtifact) (m : Map NamedArtifact) → IsNamed m → IsNamed (by_name l m)
unfolding by_name
by_name-IsNamed [] m h = h
by_name-IsNamed (na ∷ l) m h = by_name-IsNamed l (Map.insert na.name na m) (insert-IsNamed na m h)

first_named-values :
    (name : Str) (m : Map NamedArtifact)
    → IsNamed m
    → first_named name (Map.values m) ≡ Map.lookup name m
unfolding IsNamed Map.lookup
first_named-values name [] h = refl
first_named-values name ((q, v) ∷ m) h = rw h.0 (ground (arith, first_named-values name m))

-- Among the merged inputs a name stands for the last seed of that name, or without one for the
-- last input of that name.
pub first_named-merge_inputs :
    (inputs seeds : List NamedArtifact) (name : Str)
    → first_named name (merge_inputs inputs seeds)
      ≡ or_else (last_named name seeds) (last_named name inputs)
unfolding merge_inputs IsNamed Map.lookup
first_named-merge_inputs inputs seeds name =
    first_named-values name _ (by_name-IsNamed seeds _ (by_name-IsNamed inputs [] tt))
    ∙ lookup-by_name name seeds _
    ∙ ap (or_else (last_named name seeds))
        (lookup-by_name name inputs [] ∙ or_else-none (last_named name inputs))

filter_map-missing :
    (have : Map NamedArtifact) (seeds : List SeedSpec) (inputs : List NamedArtifact)
    → ((name : Str) → Map.lookup name have ≡ last_named name inputs)
    → is_nil (filter_map (missing_seed have) seeds) ≡ all (is_provided inputs) seeds
unfolding missing_seed
filter_map-missing have [] inputs h = refl
filter_map-missing have (s ∷ seeds) inputs h =
    ground (arith, h s.input_name, filter_map-missing have seeds inputs h)

-- The check of the seeds succeeds exactly when each required seed is among the inputs, the last
-- one of its name having an artifact.
pub validate_seeds_present_iff :
    (cut : AssemblyCut) (inputs : List NamedArtifact)
    → (validate_seeds_present cut inputs ≡ ok tt)
      ↔ (all (is_provided inputs) cut.required_seeds ≡ true)
unfolding validate_seeds_present Map.lookup
validate_seeds_present_iff cut inputs =
    let same =
      filter_map-missing (by_name inputs []) cut.required_seeds inputs
        (λ name. lookup-by_name name inputs [] ∙ or_else-none (last_named name inputs)) in
    ground (arith, same)

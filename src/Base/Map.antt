-- ===== src/Base/Map.antt =====
-- Maps with string keys, `BTreeMap` and `HashMap`: the entries by ascending key, each key once. A
-- `BTreeMap` iterates in this order, and a `HashMap` in an order that its documentation leaves
-- open, of which this is one.
pub mod Sorted
use Prim.Native.Nat.{◌+◌, ◌≤◌}
use mathlib.Core.Path.{◌≡◌, refl}
use mathlib.Core.Bool.{Bool, true, false}
use mathlib.Core.Option.{Option, none, some}
use mathlib.Core.List.{List, [], ◌∷◌, map}
use native.Mathlib.Omega.{arith}
use srcport_substrate.Base.Tests.{if◌then◌else◌}
use srcport_substrate.Base.Lists.{length}
use srcport_substrate.Base.Text.{Str, ◌==◌, str_ltb, eq_iff}

abbrev pub Map {ℓ} : Type ℓ → Type ℓ
Map V = List (Str × V)

module _ {ℓ} {V : Type ℓ} where
  -- get(k).cloned()
  unfoldable pub lookup : Str → Map V → Option V
  lookup key [] = none
  lookup key ((q, v) ∷ entries) = if q == key then some v else lookup key entries

  -- insert(k, v)
  unfoldable pub insert : Str → V → Map V → Map V
  insert key v [] = (key, v) ∷ []
  insert key v ((q, w) ∷ entries) =
      let rest = insert key v entries in
      if q == key
      then (key, v) ∷ entries
      else if str_ltb key q
      then (key, v) ∷ (q, w) ∷ entries
      else (q, w) ∷ rest

  -- remove(k)
  unfoldable pub remove : Str → Map V → Map V
  remove key [] = []
  remove key ((q, v) ∷ entries) =
      let rest = remove key entries in if q == key then rest else (q, v) ∷ rest

  -- contains_key(k)
  unfoldable pub contains_key : Str → Map V → Bool
  unfolding lookup
  contains_key key entries = elim (lookup key entries) [ none ↦ false | some v ↦ true ]

  -- get_or_default(k)
  abbrev pub get_or : Str → V → Map V → V
  get_or key d entries = elim (lookup key entries) [ none ↦ d | some v ↦ v ]

  -- keys()
  abbrev pub keys : Map V → List Str
  keys = map (λ e. e.0)

  -- values()
  abbrev pub values : Map V → List V
  values = map (λ e. e.1)

  -- No key stands twice.
  abbrev pub HasUniqueKeys : Map V → Type ℓ
  HasUniqueKeys [] = Unit
  HasUniqueKeys ((key, v) ∷ entries) = (lookup key entries ≡ none) × HasUniqueKeys entries

  pub lookup-insert :
      (key q : Str) (v : V) (entries : Map V)
      → lookup q (insert key v entries) ≡ (if key == q then some v else lookup q entries)
  unfolding lookup insert
  lookup-insert key q v [] = refl
  lookup-insert key q v ((i, w) ∷ entries) =
      ground (arith, eq_iff key q, eq_iff i key, eq_iff i q, lookup-insert key q v entries)

  pub lookup-remove :
      (key q : Str) (entries : Map V)
      → lookup q (remove key entries) ≡ (if key == q then none else lookup q entries)
  unfolding lookup remove
  lookup-remove key q [] = ground arith
  lookup-remove key q ((i, w) ∷ entries) =
      ground (arith, lookup-remove key q entries, eq_iff i key, eq_iff i q, eq_iff key q)

  pub contains_key-none :
      (key : Str) (entries : Map V) → contains_key key entries ≡ false → lookup key entries ≡ none
  unfolding contains_key
  contains_key-none key entries h = ground arith

  pub contains_key-some :
      (key : Str) (entries : Map V)
      → contains_key key entries ≡ true
      → (v : V) × (lookup key entries ≡ some v)
  unfolding contains_key
  contains_key-some key entries h = ground arith

  pub length-remove-le :
      (key : Str) (entries : Map V) → length (remove key entries) ≤ length entries
  unfolding remove
  length-remove-le key [] = omega arith
  length-remove-le key ((q, v) ∷ entries) = ground (arith, length-remove-le key entries)

  pub length-insert-le :
      (key : Str) (v : V) (entries : Map V) → length (insert key v entries) ≤ length entries + 1
  unfolding insert
  length-insert-le key v [] = omega arith
  length-insert-le key v ((q, w) ∷ entries) = ground (arith, length-insert-le key v entries)

-- entry(k).or_insert(v)
unfoldable pub or_insert {ℓ} : {V : Type ℓ} → Str → V → Map V → Map V
unfolding contains_key
or_insert key v entries = if contains_key key entries then entries else insert key v entries

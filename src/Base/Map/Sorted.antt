-- ===== src/Base/Map/Sorted.antt =====
-- The order of a map's entries.
use mathlib.Core.Path.{◌≡◌, refl, ap, subst}
use mathlib.Core.Logic.{inl, inr}
use mathlib.Core.Bool.{true, false}
use mathlib.Core.List.{[], ◌∷◌, ◌++◌}
use native.Mathlib.Omega.{arith}
use srcport_substrate.Base.Tests.{Bool-cases}
use srcport_substrate.Base.Text.{Str, ◌==◌, str_ltb, eq_iff}
use srcport_substrate.Base.Map.{Map, insert}

str_ltb_trans : (a b c : Str) → str_ltb a b ≡ true → str_ltb b c ≡ true → str_ltb a c ≡ true
unfolding str_ltb
str_ltb_trans [] [] c h i = absurd (cc)
str_ltb_trans [] (y ∷ b) [] h i = i
str_ltb_trans [] (y ∷ b) (z ∷ c) h i = refl
str_ltb_trans (x ∷ a) [] c h i = absurd (cc)
str_ltb_trans (x ∷ a) (y ∷ b) [] h i = i
str_ltb_trans (x ∷ a) (y ∷ b) (z ∷ c) h i = ground (arith, str_ltb_trans a b c)

str_ltb_asym : (a b : Str) → str_ltb a b ≡ true → (str_ltb b a ≡ false) × (a == b ≡ false)
unfolding str_ltb ◌==◌
str_ltb_asym [] [] h = absurd (cc)
str_ltb_asym [] (y ∷ b) h = (refl, refl)
str_ltb_asym (x ∷ a) [] h = absurd (cc)
str_ltb_asym (x ∷ a) (y ∷ b) h = ground (arith, str_ltb_asym a b)

str_ltb_total : (a b : Str) → str_ltb a b ≡ false → a == b ≡ false → str_ltb b a ≡ true
unfolding str_ltb ◌==◌
str_ltb_total [] [] h i = absurd (cc)
str_ltb_total [] (y ∷ b) h i = absurd (cc)
str_ltb_total (x ∷ a) [] h i = refl
str_ltb_total (x ∷ a) (y ∷ b) h i = ground (arith, str_ltb_total a b)

module _ {ℓ} {V : Type ℓ} where
  abbrev pub IsBelow : Str → Map V → Type 0
  IsBelow key [] = Unit
  IsBelow key ((q, v) ∷ m) = (str_ltb key q ≡ true) × IsBelow key m

  -- The keys ascend.
  abbrev pub IsSorted : Map V → Type 0
  IsSorted [] = Unit
  IsSorted ((key, v) ∷ m) = IsBelow key m × IsSorted m

  IsBelow-trans : (a b : Str) (m : Map V) → str_ltb a b ≡ true → IsBelow b m → IsBelow a m
  IsBelow-trans a b [] h i = tt
  IsBelow-trans a b ((q, v) ∷ m) h i = (str_ltb_trans a b q h i.0, IsBelow-trans a b m h i.1)

  insert-IsBelow :
      (j key : Str) (v : V) (m : Map V)
      → str_ltb j key ≡ true
      → IsBelow j m
      → IsBelow j (insert key v m)
  unfolding insert
  insert-IsBelow j key v [] h i = (h, tt)
  insert-IsBelow j key v ((q, w) ∷ m) h i = ground (arith, insert-IsBelow j key v m)

  pub insert-IsSorted : (key : Str) (v : V) (m : Map V) → IsSorted m → IsSorted (insert key v m)
  unfolding insert
  insert-IsSorted key v [] h = (tt, tt)
  insert-IsSorted key v ((q, w) ∷ m) h = elim (Bool-cases (q == key)) [
    | inl e ↦ rw e (subst (λ k. IsBelow k m) ((eq_iff q key).0 e) h.0, h.1)
    | inr d ↦ elim (Bool-cases (str_ltb key q)) [
      | inl less ↦ rw d (rw less ((less, IsBelow-trans key q m less h.0), h))
      | inr more ↦ rw d (
          rw more (
            insert-IsBelow q key v m
                (str_ltb_total key q more (ground (arith, eq_iff key q, eq_iff q key))) h.0,
            insert-IsSorted key v m h.1,
          ))
    ]
  ]

  IsBelow-append :
      (q key : Str) (v : V) (front back : Map V)
      → IsBelow q (front ++ (key, v) ∷ back)
      → str_ltb q key ≡ true
  IsBelow-append q key v [] back h = h.0
  IsBelow-append q key v (e ∷ front) back h = IsBelow-append q key v front back h.1

  -- A key above all the others enters at the end.
  pub insert_last :
      (key : Str) (v : V) (front back : Map V)
      → IsSorted (front ++ (key, v) ∷ back)
      → insert key v front ≡ front ++ (key, v) ∷ []
  unfolding insert
  insert_last key v [] back h = refl
  insert_last key v ((q, w) ∷ front) back h =
      let less = str_ltb_asym q key (IsBelow-append q key v front back h.0) in
      rw less.1 (rw less.0 (ap (λ m. (q, w) ∷ m) (insert_last key v front back h.1)))

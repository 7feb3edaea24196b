-- ===== src/Base/Text.antt =====
-- Rust's `String` and `Vec<u8>`: both are lists of bytes, a `String` those of its UTF-8. So
-- `as_bytes` is the identity, and the order of strings is the order of their bytes.
use Prim.Native.Nat.{ℕ, zero, suc, ◌/◌, ◌%◌}
use Prim.Native.Char.{code}
use Prim.Native.String.{String}
use mathlib.Core.Path.{◌≡◌, refl}
use mathlib.Core.Logic.{◌↔◌}
use mathlib.Core.Bool.{Bool, true, false, ◌&&◌, ◌||◌}
use mathlib.Core.List.{List, [], ◌∷◌}
use native.Mathlib.Omega.{arith}
use srcport_substrate.Base.Tests.{ltb, eqb, if◌then◌else◌}

abbrev pub Bytes : Type 0
Bytes = List ℕ

abbrev pub Str : Type 0
Str = List ℕ

-- A literal of the source, all of which are ASCII.
unfoldable pub lit : String → Str
lit String.[] = []
lit (String.◌∷◌ c s) = code c ∷ lit s

abbrev pub no_bytes : Str
no_bytes = []

infix 50 ◌==◌
unfoldable pub ◌==◌ : Str → Str → Bool
[] == [] = true
(a ∷ s) == (b ∷ t) = eqb a b && s == t
_ == _ = false

-- is_empty()
abbrev pub is_empty : Str → Bool
is_empty [] = true
is_empty (c ∷ s) = false

-- starts_with(p)
unfoldable pub starts_with : Str → Str → Bool
starts_with s [] = true
starts_with [] (c ∷ p) = false
starts_with (d ∷ s) (c ∷ p) = eqb d c && starts_with s p

-- The order of `sort()` on strings.
unfoldable pub str_ltb : Str → Str → Bool
str_ltb [] [] = false
str_ltb [] (b ∷ t) = true
str_ltb (a ∷ s) [] = false
str_ltb (a ∷ s) (b ∷ t) = ltb a b || (eqb a b && str_ltb s t)

insert_sorted : Str → List Str → List Str
insert_sorted k [] = k ∷ []
insert_sorted k (j ∷ l) = if str_ltb j k then j ∷ insert_sorted k l else k ∷ j ∷ l

-- sort()
unfoldable pub utf8_sort : List Str → List Str
unfolding insert_sorted str_ltb
utf8_sort [] = []
utf8_sort (k ∷ l) = insert_sorted k (utf8_sort l)

-- contains() of a set, or iter().any(|x| x == k)
abbrev pub contains : List Str → Str → Bool
contains [] k = false
contains (j ∷ l) k = j == k || contains l k

-- The set of the strings of a list.
unfoldable pub dedup : List Str → List Str
dedup [] = []
dedup (k ∷ l) = let rest = dedup l in if contains rest k then rest else k ∷ rest

be_bytes : ℕ → ℕ → Bytes → Bytes
be_bytes zero n acc = acc
be_bytes (suc k) n acc = be_bytes k (n / 256) ((n % 256) ∷ acc)

-- u64::to_be_bytes
unfoldable pub bytes_of_u64 : ℕ → Bytes
unfolding be_bytes
bytes_of_u64 n = be_bytes 8 n []

pub eq_iff : (s t : Str) → (s == t ≡ true) ↔ (s ≡ t)
unfolding ◌==◌
eq_iff [] [] = ground arith
eq_iff [] (b ∷ t) = ground arith
eq_iff (a ∷ s) [] = ground arith
eq_iff (a ∷ s) (b ∷ t) = ground (arith, eq_iff s t)

pub eq_refl : (s : Str) → s == s ≡ true
eq_refl s = (eq_iff s s).1 refl

contains-insert_sorted :
    (k : Str) (l : List Str) (x : Str) → contains (insert_sorted k l) x ≡ (k == x || contains l x)
unfolding insert_sorted
contains-insert_sorted k [] x = refl
contains-insert_sorted k (j ∷ l) x = ground (arith, contains-insert_sorted k l x)

pub contains-utf8_sort : (l : List Str) (x : Str) → contains (utf8_sort l) x ≡ contains l x
unfolding utf8_sort
contains-utf8_sort [] x = refl
contains-utf8_sort (k ∷ l) x =
    ground (arith, contains-insert_sorted k (utf8_sort l) x, contains-utf8_sort l x)

pub contains-dedup : (l : List Str) (x : Str) → contains (dedup l) x ≡ contains l x
unfolding dedup
contains-dedup [] x = refl
contains-dedup (k ∷ l) x = ground (arith, contains-dedup l x, contains-dedup l k, eq_iff k x)

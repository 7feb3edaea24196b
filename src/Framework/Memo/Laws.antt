-- ===== src/Framework/Memo/Laws.antt =====
-- What a memo record gives back.
use srcport_substrate.Base.{
  ◌≡◌, refl, sym, ap, true, none, Option, ◌==◌, eq_iff, if◌then◌else◌, ◌∙◌, false, some, List, [],
  ◌∷◌, ◌++◌, map, Str, is_empty, arith, append_assoc, append-nil, subst, Bool-cases, Option-cases,
  inl, inr,
}
use srcport_substrate.Base.Map
use srcport_substrate.Base.Map.{Map}
use srcport_substrate.Base.Map.Sorted.{IsSorted, insert-IsSorted, insert_last}
use srcport_substrate.Proto.{NamedArtifact, WorkItem}
use srcport_substrate.Framework.Memo.{ids_by_port, record_to_named_outputs, build_record}

-- No empty port or id.
IsFilled : Map Str → Type 0
IsFilled [] = Unit
IsFilled ((port, id) ∷ m) = (is_empty port ≡ false) × (is_empty id ≡ false) × IsFilled m

insert-IsFilled :
    (port id : Str) (m : Map Str)
    → is_empty port ≡ false
    → is_empty id ≡ false
    → IsFilled m
    → IsFilled (Map.insert port id m)
unfolding Map.insert IsFilled
insert-IsFilled port id [] h i f = (h, i, tt)
insert-IsFilled port id ((q, j) ∷ m) h i f = ground (arith, insert-IsFilled port id m)

IsIndex : Map Str → Type 0
IsIndex m = IsSorted m × IsFilled m

ids_by_port-IsIndex :
    (nas : List NamedArtifact) (m : Map Str) → IsIndex m → IsIndex (ids_by_port nas m)
unfolding ids_by_port IsIndex
ids_by_port-IsIndex [] m h = h
ids_by_port-IsIndex (na ∷ nas) m h = elim (Option-cases na.artifact) [
  | inl e ↦ rw e (ids_by_port-IsIndex nas m h)
  | inr (r, e) ↦ elim (Bool-cases (is_empty na.name)) [
    | inl a ↦ rw e (rw a (ids_by_port-IsIndex nas m h))
    | inr a ↦ elim (Bool-cases (is_empty r.id)) [
      | inl b ↦ rw e (rw a (rw b (ids_by_port-IsIndex nas m h)))
      | inr b ↦ rw e (
          rw a (
            rw b (
              ids_by_port-IsIndex nas (Map.insert na.name r.id m)
                (insert-IsSorted na.name r.id m h.0, insert-IsFilled na.name r.id m a b h.1))))
    ]
  ]
]

named : Map Str → List NamedArtifact
named m =
    map
      (λ e.
        let na : NamedArtifact = record { name = e.0; artifact = some (record { id = e.1 }) } in na)
      m

ids_by_port-named :
    (m front : Map Str)
    → IsSorted (front ++ m)
    → IsFilled m
    → ids_by_port (named m) front ≡ front ++ m
unfolding ids_by_port named IsFilled
ids_by_port-named [] front h f = sym (append-nil front)
ids_by_port-named ((port, id) ∷ m) front h f =
    let assoc = append_assoc front ((port, id) ∷ []) m in
    rw (f.0, ids_by_port)
      (rw f.1 (
        ap (ids_by_port (named m)) (insert_last port id front m h)
        ∙ ids_by_port-named m (front ++ (port, id) ∷ []) (subst IsSorted (sym assoc) h) f.2
        ∙ assoc))

-- The id that an output has, where it is there and not empty.
abbrev pub given_id : NamedArtifact → Option Str
given_id na = elim na.artifact [ none ↦ none | some r ↦ if is_empty r.id then none else some r.id ]

abbrev pub or_else : Option Str → Option Str → Option Str
or_else none o = o
or_else (some a) o = some a

-- The id of the last output of the name that has one.
abbrev pub last_id : Str → List NamedArtifact → Option Str
last_id port [] = none
last_id port (na ∷ nas) = or_else (last_id port nas) (if na.name == port then given_id na else none)

or_else_assoc : (a b c : Option Str) → or_else a (or_else b c) ≡ or_else (or_else a b) c
or_else_assoc none b c = refl
or_else_assoc (some x) b c = refl

or_else-none : (a : Option Str) → or_else a none ≡ a
or_else-none none = refl
or_else-none (some x) = refl

step_lem :
    (port : Str) (na : NamedArtifact) (m : Map Str)
    → is_empty port ≡ false
    → Map.lookup port (ids_by_port (na ∷ []) m)
      ≡ or_else (if na.name == port then given_id na else none) (Map.lookup port m)
unfolding ids_by_port
step_lem port na m h = elim (Option-cases na.artifact) [
  | inl e ↦ rw e (ground arith)
  | inr (r, e) ↦ rw e (ground (arith, Map.lookup-insert na.name port r.id m, eq_iff na.name port))
]

lookup-ids_by_port :
    (port : Str) (nas : List NamedArtifact) (m : Map Str)
    → is_empty port ≡ false
    → Map.lookup port (ids_by_port nas m) ≡ or_else (last_id port nas) (Map.lookup port m)
unfolding ids_by_port
lookup-ids_by_port port [] m h = refl
lookup-ids_by_port port (na ∷ nas) m h =
    lookup-ids_by_port port nas (ids_by_port (na ∷ []) m) h
    ∙ ap (or_else (last_id port nas)) (step_lem port na m h)
    ∙ or_else_assoc (last_id port nas) (if na.name == port then given_id na else none)
        (Map.lookup port m)

last_id-ids_by_port :
    (port : Str) (nas : List NamedArtifact)
    → is_empty port ≡ false
    → Map.lookup port (ids_by_port nas []) ≡ last_id port nas
unfolding Map.lookup
last_id-ids_by_port port nas h = lookup-ids_by_port port nas [] h ∙ or_else-none (last_id port nas)

last_id-unnamed :
    (port : Str) (m : Map Str) → IsFilled m → is_empty port ≡ true → last_id port (named m) ≡ none
unfolding named IsFilled
last_id-unnamed port [] f h = refl
last_id-unnamed port ((q, id) ∷ m) f h =
    ground (arith, last_id-unnamed port m f.2, f.0, eq_iff q port)

-- Under each port name that is not empty, the last artifact id among the outputs that a record gives
-- back is the last one among the outputs it was built from, where an empty id is none; under the
-- empty name there is none.
pub build_record_lem :
    (key : Str) (work : WorkItem) (digest : Str) (outputs : List NamedArtifact) (run port : Str)
    → last_id port (record_to_named_outputs (build_record key work digest outputs run))
      ≡ (if is_empty port then none else last_id port outputs)
unfolding build_record record_to_named_outputs IsIndex named IsFilled
build_record_lem key work digest outputs run port =
    let index = ids_by_port-IsIndex outputs [] (tt, tt) in
    elim (Bool-cases (is_empty port)) [
      | inl e ↦ rw e (last_id-unnamed port (ids_by_port outputs []) index.1 e)
      | inr e ↦ rw e (
          sym (last_id-ids_by_port port (named (ids_by_port outputs [])) e)
          ∙ ap (Map.lookup port) (ids_by_port-named (ids_by_port outputs []) [] index.0 index.1)
          ∙ last_id-ids_by_port port outputs e)
    ]

-- ===== src/Framework/Tables/Rows.antt =====
-- What a write leaves in the tables.
use srcport_substrate.Base.{
  ℕ, ◌≡◌, refl, ap, ◌∙◌, Bool, true, false, not, inl, inr, Option, none, some, List, [], ◌∷◌, ◌++◌,
  Str, ◌==◌, eq_iff, eq_refl, length, eqb, find, filter, arith, if◌then◌else◌, Option-cases, lit,
}
use srcport_substrate.Base.Map
use srcport_substrate.Base.Map.{Map}
use srcport_substrate.Framework.Error.{ok, ◌>>=◌}
use srcport_substrate.Framework.Storage.{shared, replace}
use srcport_substrate.Framework.Foreign.{Foreign}
use srcport_substrate.Framework.Tables.{
  StoreValue, Value, StoreRow, run_of_row, names_run, is_of_run, kept_rows, same_key, upsert_row,
  MemTable, Tables, rows_after, put_rows, write_rows, get_rows,
}

filter-append :
    {A : Type 0} (p : A → Bool) (l m : List A) → filter p (l ++ m) ≡ filter p l ++ filter p m
filter-append p [] m = refl
filter-append p (x ∷ l) m = ground (arith, filter-append p l m)

filter-filter :
    {A : Type 0} (p q : A → Bool) (l : List A)
    → ((x : A) → p x ≡ true → q x ≡ true)
    → filter p (filter q l) ≡ filter p l
filter-filter p q [] h = refl
filter-filter p q (x ∷ l) h = ground (arith, h x, filter-filter p q l h)

filter-same :
    {A : Type 0} (p q : A → Bool) (l : List A) → ((x : A) → p x ≡ q x) → filter p l ≡ filter q l
filter-same p q [] h = refl
filter-same p q (x ∷ l) h = rw (h x) (ground (arith, filter-same p q l h))

filter-none : {A : Type 0} (p : A → Bool) (l : List A) → filter p (filter (λ x. not (p x)) l) ≡ []
filter-none p [] = refl
filter-none p (x ∷ l) = ground (arith, filter-none p l)

module _ ⦃f : Foreign⦄ where
  -- The text of a cell.
  abbrev pub text_of : Option Value → Option Str
  text_of (some (StoreValue.text id)) = some id
  text_of _ = none

  -- The run that a row names: the text under `_run_id` or, without that column, under `run_id`.
  abbrev pub named_run : StoreRow → Option Str
  named_run r =
      if Map.contains_key (lit "_run_id") r
      then text_of (Map.lookup (lit "_run_id") r)
      else text_of (Map.lookup (lit "run_id") r)

  abbrev pub is_named : Str → Option Str → Bool
  is_named run none = false
  is_named run (some id) = id == run

  abbrev pub names : Str → StoreRow → Bool
  names run r = is_named run (named_run r)

  abbrev pub is_missing : Option Str → Bool
  is_missing none = true
  is_missing (some id) = false

  names_run_lem : (run : Str) (v : Option Value) → names_run run v ≡ is_named run (text_of v)
  unfolding names_run
  names_run_lem run none = refl
  names_run_lem run (some StoreValue.null) = refl
  names_run_lem run (some (StoreValue.boolean b)) = refl
  names_run_lem run (some (StoreValue.integer n)) = refl
  names_run_lem run (some (StoreValue.real x)) = refl
  names_run_lem run (some (StoreValue.text id)) = refl
  names_run_lem run (some (StoreValue.json j)) = refl
  names_run_lem run (some (StoreValue.bytes b)) = refl

  named_run-run_of_row : (r : StoreRow) → text_of (run_of_row r) ≡ named_run r
  unfolding run_of_row Map.contains_key
  named_run-run_of_row r = elim (Option-cases (Map.lookup (lit "_run_id") r)) [
    | inl e ↦ ground (arith, e)
    | inr (v, e) ↦ ground (arith, e)
  ]

  is_of_run_lem : (run : Str) (r : StoreRow) → is_of_run run r ≡ names run r
  unfolding is_of_run
  is_of_run_lem run r =
      names_run_lem run (run_of_row r) ∙ ap (is_named run) (named_run-run_of_row r)

  is_named-other :
      (run other : Str) (o : Option Str)
      → run == other ≡ false
      → is_named other o ≡ true
      → not (is_named run o) ≡ true
  is_named-other run other none d h = refl
  is_named-other run other (some id) d h =
      ground (arith, eq_iff id run, eq_iff id other, eq_iff run other)

  is_named-missing :
      (run : Str) (o : Option Str) → is_missing o ≡ true → not (is_named run o) ≡ true
  is_named-missing run none h = refl
  is_named-missing run (some id) h = absurd (cc)

  kept_rows-names :
      (run : Str) (rows : List StoreRow)
      → kept_rows shared run rows ≡ filter (λ r. not (names run r)) rows
  unfolding kept_rows
  kept_rows-names run rows = filter-same _ _ rows (λ r. ap not (is_of_run_lem run r))

  kept_rows_lem :
      (run : Str) (p : StoreRow → Bool) (rows new : List StoreRow)
      → ((r : StoreRow) → p r ≡ true → not (names run r) ≡ true)
      → filter p (kept_rows shared run rows ++ new) ≡ filter p rows ++ filter p new
  kept_rows_lem run p rows new h =
      filter-append p _ new
      ∙ ap (λ l. l ++ filter p new)
          (ap (filter p) (kept_rows-names run rows) ∙ filter-filter p _ rows h)

  own_rows_lem :
      (run : Str) (rows new : List StoreRow)
      → filter (names run) (kept_rows shared run rows ++ new) ≡ filter (names run) new
  own_rows_lem run rows new =
      filter-append (names run) _ new
      ∙ ap (λ l. l ++ filter (names run) new)
          (ap (filter (names run)) (kept_rows-names run rows) ∙ filter-none (names run) rows)

  -- A replace by one run on a shared table that is there succeeds. It leaves the rows that name any
  -- other run, followed by the new ones that do, likewise those that name no run, and of the rows
  -- that name this run only the new ones. The run that a row names is the text under its column
  -- `_run_id`, or under `run_id` where it has no column `_run_id`.
  pub write_rows_replace :
      (table : Str) (t : MemTable) (tables : Tables) (key : List Str) (run other : Str)
      (new : List StoreRow)
      → Map.lookup table tables ≡ some t
      → t.mode ≡ shared
      → run == other ≡ false
      → (after : Tables) × (rows : List StoreRow) × (write_rows table replace new key run tables
          ≡ ok after)
        × (get_rows table after ≡ some rows)
        × (filter (names other) rows ≡ filter (names other) t.rows ++ filter (names other) new)
        × (filter (λ r. is_missing (named_run r)) rows
            ≡ filter (λ r. is_missing (named_run r)) t.rows
              ++ filter (λ r. is_missing (named_run r)) new)
        × (filter (names run) rows ≡ filter (names run) new)
  unfolding write_rows rows_after put_rows get_rows ◌>>=◌
  write_rows_replace table t tables key run other new e m d =
      let rows = kept_rows shared run t.rows ++ new in
      let after = Map.insert table (record t { rows = rows }) tables in
      (
        after,
        rows,
        rw (e, write_rows) (rw m refl),
        rw (Map.lookup-insert table table (record t { rows = rows }) tables, get_rows)
            (rw eq_refl refl),
        kept_rows_lem run (names other) t.rows new
            (λ r h. is_named-other run other (named_run r) d h),
        kept_rows_lem run (λ r. is_missing (named_run r)) t.rows new
            (λ r h. is_named-missing run (named_run r) h),
        own_rows_lem run t.rows new,
      )

  unfoldable pub matches : List Str → StoreRow → List StoreRow → ℕ
  matches key row rows = length (filter (λ r. same_key key r row) rows)

  -- After an upsert of a row whose key equals itself, the first row of that key is the new one, and
  -- there are as many rows of that key as before, or one where there was none.
  pub matches-upsert_row :
      (key : List Str) (row : StoreRow) (rows : List StoreRow)
      → same_key key row row ≡ true
      → (find (λ r. same_key key r row) (upsert_row key row rows) ≡ some row)
        × (matches key row (upsert_row key row rows)
            ≡ (if eqb (matches key row rows) 0 then 1 else matches key row rows))
  unfolding upsert_row matches
  matches-upsert_row key row [] h = (rw h refl, rw h refl)
  matches-upsert_row key row (r ∷ rows) h = (
    ground (arith, (matches-upsert_row key row rows h).0),
    ground (arith, (matches-upsert_row key row rows h).1),
  )

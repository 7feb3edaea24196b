-- ===== src/Framework/Host/SideTables/Finish.antt =====
-- What the end of a run leaves in the host.
use srcport_substrate.Base.{
  ◌≡◌, refl, ap, ◌∙◌, Bool, true, false, Option, Bool-cases, inl, inr, ◌&&◌, none, some, List, [],
  ◌∷◌, Str, ◌==◌, contains, unwrap_or, arith, if◌then◌else◌,
}
use srcport_substrate.Base.Map
use srcport_substrate.Framework.Foreign.{Foreign}
use srcport_substrate.Framework.Outside.{Outside}
use srcport_substrate.Framework.Policy.{FrameworkPolicy}
use srcport_substrate.Framework.Storage.{
  StorageMode, off, per_run, shared, StorageRetention, drop_on_end, keep,
}
use srcport_substrate.Framework.Tables
use srcport_substrate.Framework.Tables.{MemTable, drop_table}
use srcport_substrate.Framework.Host.{Host}
use srcport_substrate.Framework.Host.SideTables.{
  is_drop, is_per_run, drop_all, drops_tables, storage_after, finish_run_storage,
}

module _ ⦃f : Foreign⦄ ⦃o : Outside⦄ where
  lookup-drop_all :
      (names : List Str) (tables : Tables.Tables) (t : Str)
      → Map.lookup t (drop_all names tables)
        ≡ (if contains names t then none else Map.lookup t tables)
  unfolding drop_all drop_table
  lookup-drop_all [] tables t = refl
  lookup-drop_all (n ∷ names) tables t =
      ground (arith, lookup-drop_all names (drop_table n tables) t, Map.lookup-remove n t tables)

  -- Whether a run with tables of this mode and retention loses them when it ends.
  abbrev pub ends_with_run : StorageMode → StorageRetention → Bool
  ends_with_run per_run drop_on_end = true
  ends_with_run per_run keep = false
  ends_with_run shared retention = false
  ends_with_run off retention = false

  -- The tables that go when the run ends.
  abbrev pub run_only_tables : Option FrameworkPolicy → Option (List Str) → List Str
  run_only_tables none names = []
  run_only_tables (some plan) none = []
  run_only_tables (some plan) (some names) =
      if ends_with_run plan.storage.mode plan.storage.retention then names else []

  ends_with_run_lem :
      (m : StorageMode) (r : StorageRetention) → is_drop r && is_per_run m ≡ ends_with_run m r
  ends_with_run_lem off drop_on_end = refl
  ends_with_run_lem off keep = refl
  ends_with_run_lem per_run drop_on_end = refl
  ends_with_run_lem per_run keep = refl
  ends_with_run_lem shared drop_on_end = refl
  ends_with_run_lem shared keep = refl

  run_only_tables_lem :
      (plan : Option FrameworkPolicy) (names : Option (List Str)) (t : Str)
      → drops_tables plan && contains (unwrap_or names []) t
        ≡ contains (run_only_tables plan names) t
  run_only_tables_lem none names t = refl
  run_only_tables_lem (some plan) none t = ground arith
  run_only_tables_lem (some plan) (some names) t =
      rw (ends_with_run_lem plan.storage.mode plan.storage.retention) (ground arith)

  storage_after_lem :
      (h : Host) (tables : Tables.Tables) (run t : Str)
      → h.storage ≡ some tables
      → (left : Tables.Tables) × (storage_after run h ≡ some left)
        × (Map.lookup t left ≡ (
            if drops_tables (Map.lookup run h.run_policies)
              && contains (unwrap_or (Map.lookup run h.run_tables) []) t
            then none
            else Map.lookup t tables))
  storage_after_lem h tables run t e =
      elim (Bool-cases (drops_tables (Map.lookup run h.run_policies))) [
        | inl drops ↦
            (let names = unwrap_or (Map.lookup run h.run_tables) [] in
              (
                drop_all names tables,
                rw drops (rw e refl),
                rw drops (lookup-drop_all names tables t),
              ))
        | inr stays ↦ (tables, rw stays e, rw stays refl)
      ]

  -- The end of a run on a host with a backend forgets the run's policy and tables and no other
  -- run's; of the backend's tables it drops exactly those that the host lists for the run, and only
  -- where the host holds a policy of the run with tables per run that are dropped on its end.
  pub finish_run_storage_lem :
      (h : Host) (tables : Tables.Tables) (run other t : Str)
      → h.storage ≡ some tables
      → (Map.lookup other (finish_run_storage run h).run_policies
          ≡ (if run == other then none else Map.lookup other h.run_policies))
        × (Map.lookup other (finish_run_storage run h).run_tables
            ≡ (if run == other then none else Map.lookup other h.run_tables))
        × (left : Tables.Tables) × ((finish_run_storage run h).storage ≡ some left)
        × (Map.lookup t left ≡ (
            if contains
              (run_only_tables (Map.lookup run h.run_policies) (Map.lookup run h.run_tables))
              t
            then none
            else Map.lookup t tables))
  unfolding finish_run_storage
  finish_run_storage_lem h tables run other t e =
      let left = storage_after_lem h tables run t e in
      (
        Map.lookup-remove run other h.run_policies,
        Map.lookup-remove run other h.run_tables,
        left.0,
        left.1,
        left.2
            ∙ ap (λ b. if b then none else Map.lookup t tables)
                (run_only_tables_lem (Map.lookup run h.run_policies) (Map.lookup run h.run_tables)
                  t),
      )

-- ===== src/Kernel/Registry/Contracts.antt =====
-- `put_contract` and the contracts that are registered.
use srcport_substrate.Base.{◌≡◌, refl, false, Option, none, some, Str, eq_iff, arith}
use srcport_substrate.Base.Map
use srcport_substrate.Base.Map.{lookup-insert}
use srcport_substrate.Proto.{Contract}
use srcport_substrate.Kernel.Platform.{Platform}
use srcport_substrate.Kernel.Digest.{is_contract_placeholder}
use srcport_substrate.Kernel.State.{State, ◌>>=◌, append_locked}
use srcport_substrate.Kernel.Registry.{store_contract, put_over, normalized_contract, put_contract}

module _ ⦃p : Platform⦄ where
  put_over_kept :
      (c : Contract) (o : Option Contract) (s : State) (ref : Str) (old : Contract)
      → Map.lookup c.ref s.contracts ≡ o
      → Map.lookup ref s.contracts ≡ some old
      → is_contract_placeholder old ≡ false
      → Map.lookup ref (put_over c o s).1.contracts ≡ some old
  unfolding put_over store_contract append_locked ◌>>=◌
  put_over_kept c none s ref old e h k =
      ground (arith, lookup-insert c.ref ref c s.contracts, eq_iff c.ref ref)
  put_over_kept c (some x) s ref old e h k =
      ground (arith, lookup-insert c.ref ref c s.contracts, eq_iff c.ref ref)

  -- A contract that is registered with content stays as it is, whatever put_contract is given,
  -- under its ref or another.
  pub contracts-put_contract :
      (c : Contract) (s : State) (ref : Str) (old : Contract)
      → Map.lookup ref s.contracts ≡ some old
      → is_contract_placeholder old ≡ false
      → Map.lookup ref (put_contract c s).1.contracts ≡ some old
  unfolding put_contract ◌>>=◌
  contracts-put_contract c s ref old h k = ground (
    arith,
    put_over_kept (normalized_contract c) (Map.lookup (normalized_contract c).ref s.contracts) s ref
        old refl h k,
  )

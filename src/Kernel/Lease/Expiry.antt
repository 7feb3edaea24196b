-- ===== src/Kernel/Lease/Expiry.antt =====
-- Reaping, and how long leases last.
use srcport_substrate.Base.{
  ℕ, ◌+◌, ◌^◌, ◌≤◌, ◌<◌, ◌≡◌, refl, true, false, none, some, [], ◌∷◌, Str, ◌==◌, eq_iff, contains,
  leb, if◌then◌else◌, arith, Bool-cases, inl, inr, ◌⊎◌, ap, ◌∙◌,
}
use srcport_substrate.Base.Int.{ℤ, pos, i64_max, saturating_add_i64, u64_as_i64}
use srcport_substrate.Base.Map
use srcport_substrate.Base.Map.{Map, HasUniqueKeys, lookup-remove}
use srcport_substrate.Kernel.Platform.{Platform}
use srcport_substrate.Kernel.State.{State, RunSlot, ClaimedSlot}
use srcport_substrate.Kernel.Runs.{set_slot}
use srcport_substrate.Kernel.Lease.{
  insert_unit, is_expired, expired, expire_all, reap_found, reap_expired_locked,
}
use srcport_substrate.Kernel.Sound.Rules.{runs-log_expired, lookup-set_slot}

claimed-expire_all :
    (es : Map ClaimedSlot) (slot : RunSlot) (w : Str)
    → Map.lookup w (expire_all es slot).claimed
      ≡ (if contains (Map.keys es) w then none else Map.lookup w slot.claimed)
unfolding expire_all
claimed-expire_all [] slot w = refl
claimed-expire_all ((j, c) ∷ es) slot w = ground (
  arith,
  claimed-expire_all es
      (record slot {
        claimed = Map.remove j slot.claimed;
        done_units =
            if leb slot.max_attempts c.attempt
            then insert_unit c.unit_key slot.done_units
            else slot.done_units;
      })
      w,
  lookup-remove j w slot.claimed,
  eq_iff j w,
)

expired-absent :
    (now : ℤ) (m : Map ClaimedSlot) (w : Str)
    → Map.lookup w m ≡ none
    → contains (Map.keys (expired now m)) w ≡ false
unfolding Map.lookup
expired-absent now [] w h = refl
expired-absent now ((j, d) ∷ m) w h = ground (arith, expired-absent now m w)

expired-keys :
    (now : ℤ) (m : Map ClaimedSlot) (w : Str) (c : ClaimedSlot)
    → HasUniqueKeys m
    → Map.lookup w m ≡ some c
    → contains (Map.keys (expired now m)) w ≡ is_expired now c
unfolding Map.lookup
expired-keys now [] w c u h = cc
expired-keys now ((j, d) ∷ m) w c u h = elim (Bool-cases (j == w)) [
  | inl e ↦ ground (arith, expired-absent now m w (rw (← (eq_iff j w).0 e) u.0))
  | inr e ↦ ground (arith, expired-keys now m w c u.1)
]

expired_cases :
    (n l : ℕ) (c : ClaimedSlot)
    → c.lease_until_ms ≡ pos l
    → ((is_expired (pos n) c ≡ true) × (0 < l) × (l ≤ n))
      ⊎ ((is_expired (pos n) c ≡ false) × ((l ≡ 0) ⊎ (n < l)))
unfolding is_expired
expired_cases n l c e = rw e (ground arith)

module _ ⦃p : Platform⦄ where
  -- The slot that reaping leaves.
  pub lookup-reaped :
      (id : Str) (now : ℤ) (s : State) (slot : RunSlot)
      → Map.lookup id s.runs ≡ some slot
      → Map.lookup id (reap_expired_locked id now s).runs
        ≡ some (expire_all (expired now slot.claimed) slot)
  unfolding reap_expired_locked reap_found
  lookup-reaped id now s slot e = rw e (
      ap (Map.lookup id) (
        runs-log_expired id slot.max_attempts (expired now slot.claimed)
          (set_slot id (expire_all (expired now slot.claimed) slot) s))
      ∙ lookup-set_slot id (expire_all (expired now slot.claimed) slot) s)

  -- Reaping a run whose claims have distinct ids, at `now` milliseconds, leaves a slot of it in which
  -- a claim with a lease until `until` is gone where `until` is not 0 and not after `now`, and as it
  -- was where `until` is 0 or after `now`; neither time is negative.
  pub reap_claim :
      (id w : Str) (now until : ℕ) (s : State) (slot : RunSlot) (c : ClaimedSlot)
      → Map.lookup id s.runs ≡ some slot
      → HasUniqueKeys slot.claimed
      → Map.lookup w slot.claimed ≡ some c
      → c.lease_until_ms ≡ pos until
      → (after : RunSlot) × (Map.lookup id (reap_expired_locked id (pos now) s).runs ≡ some after)
        × (((Map.lookup w after.claimed ≡ none) × (0 < until) × (until ≤ now))
            ⊎ ((Map.lookup w after.claimed ≡ some c) × ((until ≡ 0) ⊎ (now < until))))
  reap_claim id w now until s slot c found u there lease =
      let left =
        claimed-expire_all (expired (pos now) slot.claimed) slot w
        ∙ ap (λ b. if b then none else Map.lookup w slot.claimed)
            (expired-keys (pos now) slot.claimed w c u there) in
      (
        expire_all (expired (pos now) slot.claimed) slot,
        lookup-reaped id (pos now) s slot found,
        elim (expired_cases now until c lease) [
          | inl (over, given, late) ↦ inl (rw over at left, given, late)
          | inr (valid, early) ↦ inr ((rw valid at left) ∙ there, early)
        ],
      )

lease_fits :
    (n extend : ℕ)
    → n + extend ≤ i64_max
    → saturating_add_i64 (pos n) (u64_as_i64 extend) ≡ pos (n + extend)
unfolding saturating_add_i64 u64_as_i64
lease_fits n extend h = ground arith

-- An extension of a lease by more than 2^64 - now milliseconds, which fits a u64, at a time that
-- fits an i64, gives a lease that has expired when it is given.
pub huge_lease_expires :
    (n extend : ℕ) (c : ClaimedSlot)
    → n ≤ i64_max
    → 2 ^ 64 < n + extend
    → extend < 2 ^ 64
    → is_expired
        (pos n)
        (record c { lease_until_ms = saturating_add_i64 (pos n) (u64_as_i64 extend) })
      ≡ true
unfolding saturating_add_i64 u64_as_i64 is_expired
huge_lease_expires n extend c h k l = ground arith

-- ===== src/Kernel/Sound/Rules.antt =====
-- What an action leaves of sound runs, at one state, with a rule for each way to go on from it.
use srcport_substrate.Base.{
  ℕ, ◌≡◌, eq_refl, refl, sym, ap, subst, ◌∙◌, Bool, true, false, Option, none, some, List, [], ◌∷◌,
  Str, ◌==◌, eq_iff, Bool-cases, Option-cases, inl, inr, arith, if◌then◌else◌,
}
use srcport_substrate.Base.Int.{ℤ}
use srcport_substrate.Base.Map
use srcport_substrate.Base.Map.{Map, lookup-insert}
use srcport_substrate.Proto.{WorkItem}
use srcport_substrate.Kernel.Platform.{Platform}
use srcport_substrate.Kernel.Error.{KernelError, Result, ok, err, panic}
use srcport_substrate.Kernel.State.{
  State, RunSlot, ClaimedSlot, M, ◌>>=◌, pure, lift, gets, modify, ok_or, unwrap, refuse_if,
  append_locked,
}
use srcport_substrate.Kernel.Runs.{is_running, running_slot, set_slot, log_run}
use srcport_substrate.Kernel.Lease.{
  expired, expire_all, log_exhausted, log_expired, reap_found, reap_expired_locked, log_claims,
  stall, stalled_slot,
}
use srcport_substrate.Kernel.Sound.Slots.{
  IsSound, expire_all-run, expire_all-IsSound, stalled_slot-IsSound,
}

pub record IsAllSound (s : State) : Type 0 where
  pub sound : (id : Str) (slot : RunSlot) → Map.lookup id s.runs ≡ some slot → IsSound id slot

-- What sound runs in an earlier state say of a later one.
pub record Safe (s t : State) : Type 0 where
  pub keeps_sound : IsAllSound s → IsAllSound t
  pub frozen :
      IsAllSound s
      → (id : Str) (slot : RunSlot) → Map.lookup id s.runs ≡ some slot
      → is_running slot.run.state ≡ false
      → Map.lookup id t.runs ≡ some slot

pub Safe-refl : (s : State) → Safe s s
Safe-refl s = record { keeps_sound = λ h. h; frozen = λ h id slot e k. e }

pub Safe-trans : (s t u : State) → Safe s t → Safe t u → Safe s u
Safe-trans s t u h k = record {
  keeps_sound = λ a. k.keeps_sound (h.keeps_sound a);
  frozen = λ a id slot e r. k.frozen (h.keeps_sound a) id slot (h.frozen a id slot e r) r;
}

pub if-Safe : (b : Bool) (s t u : State) → Safe s t → Safe s u → Safe s (if b then t else u)
if-Safe true s t u h k = h
if-Safe false s t u h k = k

-- Nothing is written to the runs.
pub Safe-same : (s t : State) → t.runs ≡ s.runs → Safe s t
Safe-same s t e = record {
  keeps_sound =
      λ a. record { sound = λ id slot l. a.sound id slot (ap (Map.lookup id) (sym e) ∙ l) };
  frozen = λ a id slot l r. ap (Map.lookup id) e ∙ l;
}

pub Safe-assume : (s t : State) → (IsAllSound s → Safe s t) → Safe s t
Safe-assume s t h = record { keeps_sound = λ a. (h a).keeps_sound a; frozen = λ a. (h a).frozen a }

-- A slot is written where there is none, or one that is RUNNING.
pub Safe-slot :
    (id : Str) (slot : RunSlot) (s : State)
    → (IsAllSound s → IsSound id slot)
    → ((old : RunSlot) → Map.lookup id s.runs ≡ some old → is_running old.run.state ≡ true)
    → Safe s (set_slot id slot s)
unfolding set_slot
Safe-slot id slot s h running = record {
  keeps_sound = λ a. record {
    sound = λ j new l. elim (Bool-cases (id == j)) [
      | inl here ↦
          (let found : slot ≡ new = ground (arith, lookup-insert id j slot s.runs, here, l) in
            subst (λ x. IsSound x new) ((eq_iff id j).0 here) (subst (IsSound id) found (h a)))
      | inr other ↦ a.sound j new (ground (arith, lookup-insert id j slot s.runs))
    ];
  };
  frozen =
      λ a j old l r. ground (arith, lookup-insert id j slot s.runs, running old, eq_iff id j, l, r);
}

-- What the action leaves of one state.
pub record From {A : Type 0} (m : M A) (s : State) : Type 0 where
  pub at : Safe s (m s).1

pub at-pure : {A : Type 0} (a : A) (s : State) → From (pure a) s
unfolding pure
at-pure a s = record { at = Safe-refl s }

module _ {A B : Type 0} (next : A → M B) (s : State) where
  pub at-lift : (r : Result A) → ((a : A) → r ≡ ok a → From (next a) s) → From (lift r >>= next) s
  unfolding ◌>>=◌
  at-lift (ok a) k = record { at = (k a refl).at }
  at-lift (err e) k = record { at = Safe-refl s }
  at-lift panic k = record { at = Safe-refl s }

  pub at-ok_or :
      (o : Option A) (e : KernelError)
      → ((a : A) → o ≡ some a → From (next a) s)
      → From (ok_or o e >>= next) s
  unfolding ◌>>=◌
  at-ok_or none e k = record { at = Safe-refl s }
  at-ok_or (some a) e k = record { at = (k a refl).at }

  pub at-unwrap :
      (o : Option A) → ((a : A) → o ≡ some a → From (next a) s) → From (unwrap o >>= next) s
  unfolding ◌>>=◌
  at-unwrap none k = record { at = Safe-refl s }
  at-unwrap (some a) k = record { at = (k a refl).at }

  pub at-gets : (read : State → A) → From (next (read s)) s → From (gets read >>= next) s
  unfolding ◌>>=◌
  at-gets read k = record { at = k.at }

module _ {B : Type 0} (s : State) where
  pub at-refuse_if :
      (next : Unit {0} → M B) (b : Bool) (e : KernelError)
      → (b ≡ false → From (next tt) s)
      → From (refuse_if b e >>= next) s
  unfolding ◌>>=◌
  at-refuse_if next true e k = record { at = Safe-refl s }
  at-refuse_if next false e k = record { at = (k refl).at }

  -- What follows a write.
  pub at-modify :
      (next : Unit {0} → M B) (change : State → State)
      → Safe s (change s)
      → From (next tt) (change s)
      → From (modify change >>= next) s
  unfolding ◌>>=◌
  at-modify next change h k = record { at = Safe-trans s (change s) _ h k.at }

  -- The slot that an action asks for is there and RUNNING.
  pub at-running :
      (id : Str) (next : RunSlot → M B)
      → ((slot : RunSlot)
          → Map.lookup id s.runs ≡ some slot
          → is_running slot.run.state ≡ true
          → From (next slot) s)
      → From (running_slot id >>= next) s
  unfolding running_slot ◌>>=◌
  at-running id next k = record {
    at = elim (Option-cases (Map.lookup id s.runs)) [
      | inl absent ↦ rw absent (Safe-refl s)
      | inr (slot, e) ↦ elim (Bool-cases (is_running slot.run.state)) [
        | inl running ↦ rw e (rw running (k slot e running).at)
        | inr stopped ↦ rw e (rw stopped (Safe-refl s))
      ]
    ];
  }

-- Writes to the slot of a run that is RUNNING.
pub Safe-write :
    (id : Str) (old slot : RunSlot) (s : State)
    → Map.lookup id s.runs ≡ some old
    → is_running old.run.state ≡ true
    → (IsSound id old → IsSound id slot)
    → Safe s (set_slot id slot s)
Safe-write id old slot s e running h =
    Safe-slot id slot s (λ a. h (a.sound id old e)) (λ other l. ground (arith, e, l, running))

pub lookup-set_slot :
    (id : Str) (slot : RunSlot) (s : State) → Map.lookup id (set_slot id slot s).runs ≡ some slot
unfolding set_slot
lookup-set_slot id slot s = ground (arith, lookup-insert id id slot s.runs, eq_refl id)

module _ ⦃p : Platform⦄ where
  pub runs-log_expired :
      (id : Str) (n : ℕ) (cs : Map ClaimedSlot) (s : State) → (log_expired id n cs s).runs ≡ s.runs
  unfolding log_expired log_exhausted append_locked
  runs-log_expired id n [] s = refl
  runs-log_expired id n ((w, c) ∷ cs) s = runs-log_expired id n cs _ ∙ ground arith

  pub runs-log_claims : (items : List WorkItem) (s : State) → (log_claims items s).runs ≡ s.runs
  unfolding log_claims append_locked
  runs-log_claims [] s = refl
  runs-log_claims (w ∷ items) s = runs-log_claims items _

  -- The reaping of a run that is RUNNING leaves its run and a sound slot.
  pub reap-lem :
      (id : Str) (now : ℤ) (slot : RunSlot) (s : State)
      → Map.lookup id s.runs ≡ some slot
      → is_running slot.run.state ≡ true
      → Safe s (reap_expired_locked id now s)
        × (Map.lookup id (reap_expired_locked id now s).runs
            ≡ some (expire_all (expired now slot.claimed) slot))
  unfolding reap_expired_locked reap_found
  reap-lem id now slot s e running =
      let slot' = expire_all (expired now slot.claimed) slot in
      let written = Safe-write id slot slot' s e running (expire_all-IsSound id _ slot) in
      let logged =
        runs-log_expired id slot.max_attempts (expired now slot.claimed) (set_slot id slot' s) in
      rw e (
        Safe-trans s _ _ written (Safe-same _ _ logged),
        ap (Map.lookup id) logged ∙ lookup-set_slot id slot' s,
      )

  pub reap-running :
      (id : Str) (now : ℤ) (old slot : RunSlot) (s : State)
      → Map.lookup id s.runs ≡ some old
      → is_running old.run.state ≡ true
      → Map.lookup id (reap_expired_locked id now s).runs ≡ some slot
      → is_running slot.run.state ≡ true
  reap-running id now old slot s e running f =
      let found : expire_all (expired now old.claimed) old ≡ slot =
        ground (arith, (reap-lem id now old s e running).1, f) in
      subst (λ (x : RunSlot). is_running x.run.state ≡ true) found
        (rw (expire_all-run (expired now old.claimed) old) running)

  pub stall-Safe :
      (id : Str) (slot : RunSlot) (s : State)
      → Map.lookup id s.runs ≡ some slot
      → is_running slot.run.state ≡ true
      → Safe s (stall id slot s)
  unfolding stall log_run append_locked
  stall-Safe id slot s e running =
      let written =
        Safe-write id slot (stalled_slot slot) s e running (stalled_slot-IsSound id slot) in
      Safe-trans s _ _ written (Safe-same _ _ refl)

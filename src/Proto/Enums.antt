-- ===== src/Proto/Enums.antt =====
-- The enums. `x_of` is the generated `X::try_from`, which fails on an unknown number, and
-- `x_number` is `x as i32`.
use srcport_substrate.Base.{ℕ, zero, suc, Option, none, some}
use srcport_substrate.Base.Int.{ℤ, pos, negsuc}

pub data Lifecycle : Type 0 where
  unspecified registered loaded active deactivated : Lifecycle

pub data Firing : Type 0 where
  unspecified once always once_per_key : Firing

pub data BlobIngestMode : Type 0 where
  unspecified copy_verify : BlobIngestMode

pub data StoreDurability : Type 0 where
  unspecified ephemeral durable : StoreDurability

pub data Closure : Type 0 where
  unspecified first_terminal open_closure : Closure

pub data RunState : Type 0 where
  unspecified running completed stalled failed cancelled : RunState

pub data ErrorCode : Type 0 where
  unspecified not_found invalid conflict failed_precondition resource_exhausted blob_integrity :
      ErrorCode

abbrev pub lifecycle_number : Lifecycle → ℕ
lifecycle_number Lifecycle.unspecified = 0
lifecycle_number Lifecycle.registered = 1
lifecycle_number Lifecycle.loaded = 2
lifecycle_number Lifecycle.active = 3
lifecycle_number Lifecycle.deactivated = 4

abbrev pub error_code_number : ErrorCode → ℕ
error_code_number ErrorCode.unspecified = 0
error_code_number ErrorCode.not_found = 1
error_code_number ErrorCode.invalid = 2
error_code_number ErrorCode.conflict = 3
error_code_number ErrorCode.failed_precondition = 4
error_code_number ErrorCode.resource_exhausted = 5
error_code_number ErrorCode.blob_integrity = 6

lifecycle_at : ℕ → Option Lifecycle
lifecycle_at zero = some Lifecycle.unspecified
lifecycle_at (suc zero) = some Lifecycle.registered
lifecycle_at (suc (suc zero)) = some Lifecycle.loaded
lifecycle_at (suc (suc (suc zero))) = some Lifecycle.active
lifecycle_at (suc (suc (suc (suc zero)))) = some Lifecycle.deactivated
lifecycle_at _ = none

unfoldable pub lifecycle_of : ℤ → Option Lifecycle
unfolding lifecycle_at
lifecycle_of (pos n) = lifecycle_at n
lifecycle_of (negsuc n) = none

firing_at : ℕ → Option Firing
firing_at zero = some Firing.unspecified
firing_at (suc zero) = some Firing.once
firing_at (suc (suc zero)) = some Firing.always
firing_at (suc (suc (suc zero))) = some Firing.once_per_key
firing_at _ = none

unfoldable pub firing_of : ℤ → Option Firing
unfolding firing_at
firing_of (pos n) = firing_at n
firing_of (negsuc n) = none

ingest_mode_at : ℕ → Option BlobIngestMode
ingest_mode_at zero = some BlobIngestMode.unspecified
ingest_mode_at (suc zero) = some BlobIngestMode.copy_verify
ingest_mode_at _ = none

unfoldable pub ingest_mode_of : ℤ → Option BlobIngestMode
unfolding ingest_mode_at
ingest_mode_of (pos n) = ingest_mode_at n
ingest_mode_of (negsuc n) = none

durability_at : ℕ → Option StoreDurability
durability_at zero = some StoreDurability.unspecified
durability_at (suc zero) = some StoreDurability.ephemeral
durability_at (suc (suc zero)) = some StoreDurability.durable
durability_at _ = none

unfoldable pub durability_of : ℤ → Option StoreDurability
unfolding durability_at
durability_of (pos n) = durability_at n
durability_of (negsuc n) = none

closure_at : ℕ → Option Closure
closure_at zero = some Closure.unspecified
closure_at (suc zero) = some Closure.first_terminal
closure_at (suc (suc zero)) = some Closure.open_closure
closure_at _ = none

unfoldable pub closure_of : ℤ → Option Closure
unfolding closure_at
closure_of (pos n) = closure_at n
closure_of (negsuc n) = none

abbrev pub firing_number : Firing → ℕ
firing_number Firing.unspecified = 0
firing_number Firing.once = 1
firing_number Firing.always = 2
firing_number Firing.once_per_key = 3

abbrev pub closure_number : Closure → ℕ
closure_number Closure.unspecified = 0
closure_number Closure.first_terminal = 1
closure_number Closure.open_closure = 2

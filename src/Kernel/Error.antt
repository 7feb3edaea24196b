-- ===== src/Kernel/Error.antt =====
-- `KernelError`, its portable code and its wire message, and the results of calls.
use srcport_substrate.Base.{◌≡◌, refl, Bool, false, ◌++◌, Str, no_bytes, lit, if◌then◌else◌}
use srcport_substrate.Proto.{RunState, ErrorCode, error_code_number, ErrorMessage}

pub data KernelError : Type 0 where
  not_found invalid conflict : Str → KernelError
  run_closed : RunState → KernelError
  failed_precondition blob_integrity resource_exhausted : Str → KernelError

-- `{:?}` of the generated enum
unfoldable pub debug_run_state : RunState → Str
unfolding lit
debug_run_state RunState.unspecified = lit "Unspecified"
debug_run_state RunState.running = lit "Running"
debug_run_state RunState.completed = lit "Completed"
debug_run_state RunState.stalled = lit "Stalled"
debug_run_state RunState.failed = lit "Failed"
debug_run_state RunState.cancelled = lit "Cancelled"

unfoldable pub to_string : KernelError → Str
unfolding debug_run_state
to_string (not_found id) = lit "not found: " ++ id
to_string (invalid reason) = lit "invalid: " ++ reason
to_string (conflict reason) = lit "conflict: " ++ reason
to_string (run_closed state) = lit "run is closed: " ++ debug_run_state state
to_string (failed_precondition reason) = lit "failed precondition: " ++ reason
to_string (blob_integrity reason) = lit "blob integrity: " ++ reason
to_string (resource_exhausted reason) = lit "resource exhausted: " ++ reason

unfoldable pub code : KernelError → ErrorCode
code (not_found _) = ErrorCode.not_found
code (invalid _) = ErrorCode.invalid
code (conflict _) = ErrorCode.conflict
code (run_closed _) = ErrorCode.failed_precondition
code (failed_precondition _) = ErrorCode.failed_precondition
code (blob_integrity _) = ErrorCode.blob_integrity
code (resource_exhausted _) = ErrorCode.resource_exhausted

unfoldable pub retryable : KernelError → Bool
retryable _ = false

with_subject : KernelError → ErrorMessage → ErrorMessage
with_subject (conflict subject) e = record e { conflict_subject = subject }
with_subject (run_closed state) e = record e {
  failed_precondition = lit "run closed: " ++ debug_run_state state;
}
with_subject (failed_precondition reason) e = record e { failed_precondition = reason }
with_subject (blob_integrity reason) e = record e { failed_precondition = reason }
with_subject _ e = e

unfoldable pub to_proto : KernelError → ErrorMessage
unfolding with_subject code retryable to_string
to_proto self = with_subject self (record {
  code = error_code_number (code self);
  message = to_string self;
  retryable = retryable self;
  conflict_subject = no_bytes;
  failed_precondition = no_bytes;
})

-- `panic` is an `unwrap` of `None`.
pub data Result {ℓ} (A : Type ℓ) : Type ℓ where
  ok : A → Result A
  err : KernelError → Result A
  panic : Result A

-- A chain of fallible pure steps.
infixl 5 ◌>>=◌ ◌>>◌
unfoldable pub ◌>>=◌ {ℓ κ} : {A : Type ℓ} {B : Type κ} → Result A → (A → Result B) → Result B
panic >>= step = panic
err e >>= step = err e
ok a >>= step = step a

abbrev pub ◌>>◌ {ℓ} : {B : Type ℓ} → Result (Unit {0}) → Result B → Result B
check >> rest = check >>= λ u. rest

-- `if test { return Err(e) }`
abbrev pub refuse_if : Bool → KernelError → Result (Unit {0})
refuse_if test e = if test then err e else ok tt

-- Inversion of a chain that succeeds.
pub ok_of_bind {ℓ κ} :
    {A : Type ℓ} {B : Type κ} (first : Result A) (step : A → Result B) {b : B}
    → (first >>= step) ≡ ok b
    → (a : A) × (first ≡ ok a) × (step a ≡ ok b)
unfolding ◌>>=◌
ok_of_bind panic step h = cc
ok_of_bind (err e) step h = cc
ok_of_bind (ok a) step h = (a, refl, h)

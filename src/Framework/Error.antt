-- ===== src/Framework/Error.antt =====
-- `FrameworkError` of framework/sdk/rust/src/lib.rs, and the results of the framework's functions.
use srcport_substrate.Base.{
  ◌≡◌, refl, Bool, false, ◌++◌, Str, lit, if◌then◌else◌, Option, none, some, arith,
}
use srcport_substrate.Kernel.Error.{KernelError, to_string}
use srcport_substrate.Kernel.Error

pub data FrameworkError : Type 0 where
  kernel : KernelError → FrameworkError
  no_plugin invalid step_failed : Str → FrameworkError

unfoldable pub display : FrameworkError → Str
unfolding lit
display (kernel e) = lit "kernel: " ++ to_string e
display (no_plugin m) = lit "no plugin registered for module " ++ m
display (invalid r) = lit "invalid: " ++ r
display (step_failed r) = lit "step failed: " ++ r

-- `panic` stands for a panic inside the kernel.
pub data Result {ℓ} (A : Type ℓ) : Type ℓ where
  ok : A → Result A
  err : FrameworkError → Result A
  panic : Result A

infixl 5 ◌>>=◌ ◌>>◌
unfoldable pub ◌>>=◌ {ℓ κ} : {A : Type ℓ} {B : Type κ} → Result A → (A → Result B) → Result B
panic >>= next = panic
err e >>= next = err e
ok a >>= next = next a

abbrev pub ◌>>◌ {ℓ} : {B : Type ℓ} → Result (Unit {0}) → Result B → Result B
test >> next = test >>= λ u. next

abbrev pub refuse_if : Bool → FrameworkError → Result (Unit {0})
refuse_if test e = if test then err e else ok tt

unfoldable pub ok_or {ℓ} : {A : Type ℓ} → Option A → FrameworkError → Result A
ok_or none e = err e
ok_or (some a) e = ok a

-- `?` on a result of the kernel.
unfoldable pub from_kernel {ℓ} : {A : Type ℓ} → Error.Result A → Result A
from_kernel (Error.ok a) = ok a
from_kernel (Error.err e) = err (kernel e)
from_kernel Error.panic = panic

-- Inversion of a chain that succeeds.
pub ok_of_bind {ℓ κ} :
    {A : Type ℓ} {B : Type κ} (m : Result A) (next : A → Result B) {b : B}
    → (m >>= next) ≡ ok b
    → (a : A) × (m ≡ ok a) × (next a ≡ ok b)
unfolding ◌>>=◌
ok_of_bind panic next h = cc
ok_of_bind (err e) next h = cc
ok_of_bind (ok a) next h = (a, refl, h)

pub refuse_if-ok : (test : Bool) (e : FrameworkError) → refuse_if test e ≡ ok tt → test ≡ false
refuse_if-ok test e h = ground arith

pub ok_inj {ℓ} : {A : Type ℓ} {a b : A} → ◌≡◌ {A = Result A} (ok a) (ok b) → a ≡ b
ok_inj h = cc

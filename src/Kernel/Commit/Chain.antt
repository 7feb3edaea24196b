-- ===== src/Kernel/Commit/Chain.antt =====
-- Inversion of the chains of actions that succeed.
use srcport_substrate.Base.{◌≡◌, ap, Bool, true, false, Option, none, some}
use srcport_substrate.Kernel.Error.{KernelError, Result, ok, err, panic}
use srcport_substrate.Kernel.State.{
  State, M, lift, unwrap, ok_or, refuse_if, gets, modify, pure, ◌>>=◌, ◌>>◌,
}

unfoldable pub Done : {A : Type 0} → M A → State → A → State → Type 0
Done m s a s' = m s ≡ (ok a, s')

ok_of : {A : Type 0} {a b : A} → ◌≡◌ {A = Result A} (ok a) (ok b) → a ≡ b
ok_of h = cc

-- Inversion of one step of a chain that succeeds.
pub past_lift :
    {A B : Type 0} (r : Result A) (next : A → M B) (s s' : State) (b : B)
    → Done (lift r >>= next) s b s'
    → (a : A) × Done (next a) s b s'
unfolding ◌>>=◌ Done
past_lift (ok a) next s s' b h = (a, h)
past_lift (err e) next s s' b h = absurd (let q = ap (λ r. r.0) h in cc)
past_lift panic next s s' b h = absurd (let q = ap (λ r. r.0) h in cc)

pub past_unwrap :
    {A B : Type 0} (o : Option A) (next : A → M B) (s s' : State) (b : B)
    → Done (unwrap o >>= next) s b s'
    → (a : A) × Done (next a) s b s'
unfolding ◌>>=◌ Done
past_unwrap (some a) next s s' b h = (a, h)
past_unwrap none next s s' b h = absurd (let q = ap (λ r. r.0) h in cc)

pub past_ok_or :
    {A B : Type 0} (o : Option A) (e : KernelError) (next : A → M B) (s s' : State) (b : B)
    → Done (ok_or o e >>= next) s b s'
    → (a : A) × Done (next a) s b s'
unfolding ◌>>=◌ Done
past_ok_or (some a) e next s s' b h = (a, h)
past_ok_or none e next s s' b h = absurd (let q = ap (λ r. r.0) h in cc)

pub past_refuse_if :
    {B : Type 0} (c : Bool) (e : KernelError) (next : Unit {0} → M B) (s s' : State) (b : B)
    → Done (refuse_if c e >>= next) s b s'
    → Done (next tt) s b s'
unfolding ◌>>=◌ Done
past_refuse_if false e next s s' b h = h
past_refuse_if true e next s s' b h = absurd (let q = ap (λ r. r.0) h in cc)

pub past_gets :
    {A B : Type 0} (read : State → A) (next : A → M B) (s s' : State) (b : B)
    → Done (gets read >>= next) s b s'
    → Done (next (read s)) s b s'
unfolding ◌>>=◌ Done
past_gets read next s s' b h = h

pub past_modify :
    {B : Type 0} (change : State → State) (a : B) (s s' : State) (b : B)
    → Done (modify change >> pure a) s b s'
    → (a ≡ b) × (change s ≡ s')
unfolding ◌>>=◌ Done
past_modify change a s s' b h = (ok_of (ap (λ r. r.0) h), ap (λ r. r.1) h)

pub past_any :
    {A B : Type 0} (m : M A) (next : A → M B) (s s' : State) (b : B)
    → Done (m >>= next) s b s'
    → (a : A) × Done (next a) (m s).1 b s'
unfolding ◌>>=◌ Done
past_any m next s s' b h = past_lift (m s).0 next (m s).1 s' b h

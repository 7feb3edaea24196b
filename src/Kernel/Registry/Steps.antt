-- ===== src/Kernel/Registry/Steps.antt =====
-- `transition_req` and the lifecycle of modules.
use srcport_substrate.Base.{
  ◌+◌, ◌≡◌, refl, false, some, List, [], ◌∷◌, Str, ◌==◌, eq_iff, eqb, arith, if◌then◌else◌,
  unwrap_or,
}
use srcport_substrate.Base.Int.{ℤ}
use srcport_substrate.Proto.{
  Lifecycle, lifecycle_of, lifecycle_number, TransitionRequest, RequestContext,
}
use srcport_substrate.Kernel.Platform.{Platform}
use srcport_substrate.Kernel.Error.{ok}
use srcport_substrate.Kernel.State.{State, ModuleSlot, ◌>>=◌, check_deadline, append_locked}
use srcport_substrate.Kernel.Registry.{find_module, set_lifecycle, advance_module, transition_req}

find-set_lifecycle :
    (name : Str) (to : Lifecycle) (ms : List ModuleSlot) (m : ModuleSlot)
    → find_module name ms ≡ some m
    → find_module name (set_lifecycle name to ms) ≡ some (record m { lifecycle = to })
unfolding find_module set_lifecycle
find-set_lifecycle name to [] m h = cc
find-set_lifecycle name to (x ∷ ms) m h = ground (arith, find-set_lifecycle name to ms m)

find-set_lifecycle_ne :
    (name other : Str) (to : Lifecycle) (ms : List ModuleSlot)
    → name == other ≡ false
    → find_module other (set_lifecycle name to ms) ≡ find_module other ms
unfolding find_module set_lifecycle
find-set_lifecycle_ne name other to [] h = refl
find-set_lifecycle_ne name other to (x ∷ ms) h = ground (
  arith,
  find-set_lifecycle_ne name other to ms h,
  eq_iff x.manifest.name name,
  eq_iff x.manifest.name other,
  eq_iff name other,
)

-- The lifecycle that a request leads to: the requested one if it is the next, else the old one.
abbrev pub next_lifecycle : Lifecycle → ℤ → Lifecycle
next_lifecycle from to =
    let target = unwrap_or (lifecycle_of to) Lifecycle.unspecified in
    if eqb (lifecycle_number target) (lifecycle_number from + 1) then target else from

module _ ⦃p : Platform⦄ where
  advance_found :
      (name : Str) (m : ModuleSlot) (to : ℤ) (s : State)
      → find_module name s.modules ≡ some m
      → find_module name
          (advance_module name m.lifecycle
            (unwrap_or (lifecycle_of to) Lifecycle.unspecified)
            s).modules
        ≡ some (record m { lifecycle = next_lifecycle m.lifecycle to })
  unfolding advance_module append_locked
  advance_found name m to s h = ground (
    arith,
    find-set_lifecycle name (unwrap_or (lifecycle_of to) Lifecycle.unspecified) s.modules m h,
  )

  advance_other :
      (name other : Str) (from to : Lifecycle) (s : State)
      → name == other ≡ false
      → find_module other (advance_module name from to s).modules ≡ find_module other s.modules
  unfolding advance_module append_locked
  advance_other name other from to s h =
      ground (arith, find-set_lifecycle_ne name other to s.modules h)

  transition_eq :
      (now : ℤ) (req : TransitionRequest) (ctx : RequestContext) (s : State) (m : ModuleSlot)
      → check_deadline now ctx ≡ ok tt
      → find_module req.module_name s.modules ≡ some m
      → transition_req now req ctx s ≡ (
        ok (lifecycle_number (next_lifecycle m.lifecycle req.to)),
        advance_module req.module_name m.lifecycle
            (unwrap_or (lifecycle_of req.to) Lifecycle.unspecified)
            s,
      )
  unfolding transition_req ◌>>=◌
  transition_eq now req ctx s m d h = rw (d, h, advance_found req.module_name m req.to s h)

  -- In time, a transition of a registered module answers with the lifecycle that the module then
  -- has: the requested one where that is the next in the order, and the old one otherwise; every
  -- other module is found as before.
  pub transition_req_lem :
      (now : ℤ) (req : TransitionRequest) (ctx : RequestContext) (s : State) (m : ModuleSlot)
      (other : Str)
      → check_deadline now ctx ≡ ok tt
      → find_module req.module_name s.modules ≡ some m
      → req.module_name == other ≡ false
      → let after = (transition_req now req ctx s).1 in
        ((transition_req now req ctx s).0
          ≡ ok (lifecycle_number (next_lifecycle m.lifecycle req.to)))
        × (find_module req.module_name after.modules
            ≡ some (record m { lifecycle = next_lifecycle m.lifecycle req.to }))
        × (find_module other after.modules ≡ find_module other s.modules)
  transition_req_lem now req ctx s m other d h ne = rw (transition_eq now req ctx s m d h) (
    refl,
    advance_found req.module_name m req.to s h,
    advance_other req.module_name other _ _ s ne,
  )

-- ===== src/Framework/Policy/Compile.antt =====
-- What the kernel makes of a compiled policy.
use srcport_substrate.Base.{
  Option-cases, inl, inr, ◌≤◌, ◌≡◌, refl, sym, ap, ◌∙◌, Bool, true, false, Option, none, some, List,
  [], ◌∷◌, Str, contains, is_nil, unwrap_or, arith, if◌then◌else◌,
}
use srcport_substrate.Base.Int.{ℤ, pos}
use srcport_substrate.Base.Map
use srcport_substrate.Base.Map.{Map}
use srcport_substrate.Proto.{
  Closure, closure_number, closure_of, Firing, firing_number, firing_of, ExecutionPolicy,
  Capability, AssemblyNode, Assembly, RunRequest,
}
use srcport_substrate.Kernel.Assembly.{node_ids}
use srcport_substrate.Kernel.State.{RunSlot}
use srcport_substrate.Kernel.Ready.{effective_firing, override, or_else, is_open, is_open_closure}
use srcport_substrate.Kernel.Runs.{new_run, new_slot}
use srcport_substrate.Framework.Policy.{
  RunMode, converge, stream, dedupe_stream, selective, manual, FiringPlan, capability_defaults,
  by_map, FrameworkPolicy, max_1, effective_concurrency, closure, pin_nodes, numbers, firing_fields,
  execution_policy_for, stream_steps, default_max_steps, apply_to_run_request,
}
use srcport_substrate.Framework.Policy

-- The first firing unless it is unspecified.
abbrev pub set_or : Firing → Firing → Firing
set_or Firing.unspecified next = next
set_or Firing.once next = Firing.once
set_or Firing.always next = Firing.always
set_or Firing.once_per_key next = Firing.once_per_key

abbrev pub own_firing : Capability → Firing
own_firing q = unwrap_or (firing_of q.firing) Firing.unspecified

-- What a firing plan asks of a node.
abbrev pub wanted_firing : FiringPlan → Str → Capability → Firing
wanted_firing capability_defaults node q = set_or (own_firing q) Firing.once
wanted_firing (FiringPlan.all f) node q = set_or f (set_or (own_firing q) Firing.once)
wanted_firing (by_map d m) node q =
    set_or (unwrap_or (Map.lookup node m) Firing.unspecified)
      (set_or (own_firing q) (set_or d Firing.once))

abbrev pub is_stream : RunMode → Bool
is_stream converge = false
is_stream stream = true
is_stream dedupe_stream = true
is_stream selective = false
is_stream (manual Closure.open_closure) = true
is_stream (manual Closure.first_terminal) = false
is_stream (manual Closure.unspecified) = false

-- The slot of a run that the kernel starts from a compiled request.
abbrev pub started : FrameworkPolicy → RunRequest → Assembly → RunSlot
started self req assembly =
    let compiled = apply_to_run_request req self in new_slot compiled (new_run compiled assembly)

lookup-pin_nodes :
    (f : Firing) (nodes : List AssemblyNode) (m : Map ℤ) (node : Str)
    → Map.lookup node (pin_nodes f nodes m)
      ≡ (if contains (node_ids nodes) node then some (pos (firing_number f)) else Map.lookup node m)
unfolding pin_nodes
lookup-pin_nodes f [] m node = refl
lookup-pin_nodes f (n ∷ nodes) m node = ground (
  arith,
  lookup-pin_nodes f nodes (Map.insert n.id (pos (firing_number f)) m) node,
  Map.lookup-insert n.id node (pos (firing_number f)) m,
)

lookup-numbers :
    (m : Map Firing) (node : Str)
    → Map.lookup node (numbers m)
      ≡ elim (Map.lookup node m) [ none ↦ none | some f ↦ some (pos (firing_number f)) ]
unfolding Map.lookup
lookup-numbers [] node = refl
lookup-numbers ((q, f) ∷ m) node = ground (arith, lookup-numbers m node)

firing_of-firing_number : (f : Firing) → firing_of (pos (firing_number f)) ≡ some f
unfolding firing_of
firing_of-firing_number Firing.unspecified = refl
firing_of-firing_number Firing.once = refl
firing_of-firing_number Firing.always = refl
firing_of-firing_number Firing.once_per_key = refl

or_else_lem : (f next : Firing) → or_else f next ≡ set_or f next
unfolding or_else
or_else_lem Firing.unspecified next = refl
or_else_lem Firing.once next = refl
or_else_lem Firing.always next = refl
or_else_lem Firing.once_per_key next = refl

-- The kernel's choice, by the policy's entry for the node.
kernel_firing : ExecutionPolicy → Str → Capability → Firing
kernel_firing policy node q = unwrap_or (override policy node) (
    or_else (own_firing q)
      (or_else (unwrap_or (firing_of policy.default) Firing.unspecified) Firing.once))

effective_firing_lem :
    (slot : RunSlot) (policy : ExecutionPolicy) (node : AssemblyNode) (q : Capability)
    → slot.run.policy ≡ some policy
    → effective_firing slot node q ≡ kernel_firing policy node.id q
unfolding effective_firing kernel_firing
effective_firing_lem slot policy node q e = rw e refl

named_lem :
    (policy : ExecutionPolicy) (node : Str) (q : Capability) (f : Firing)
    → Map.lookup node policy.by_node ≡ some (pos (firing_number f))
    → kernel_firing policy node q ≡ set_or f (kernel_firing (record policy { by_node = [] }) node q)
unfolding kernel_firing override firing_of Map.lookup
named_lem policy node q Firing.unspecified e = rw (e, override) refl
named_lem policy node q Firing.once e = rw (e, override) refl
named_lem policy node q Firing.always e = rw (e, override) refl
named_lem policy node q Firing.once_per_key e = rw (e, override) refl

unnamed_lem :
    (policy : ExecutionPolicy) (node : Str) (q : Capability) (f : Firing)
    → policy.default ≡ pos (firing_number f)
    → Map.lookup node policy.by_node ≡ none
    → kernel_firing policy node q ≡ set_or (own_firing q) (set_or f Firing.once)
unfolding kernel_firing override
unnamed_lem policy node q f d e =
    rw (e, override, d, firing_of-firing_number f)
      (rw (or_else_lem f Firing.once) (or_else_lem (own_firing q) _))

abbrev compiled_policy : FiringPlan → Option Assembly → ℤ → ExecutionPolicy
compiled_policy plan a c = record {
  default = (firing_fields plan a).0;
  by_node = (firing_fields plan a).1;
  closure = c;
}

compiled_lem :
    (plan : FiringPlan) (a : Assembly) (c : ℤ) (node : Str) (q : Capability)
    → contains (node_ids a.nodes) node ≡ true
    → kernel_firing (compiled_policy plan (some a) c) node q ≡ wanted_firing plan node q
unfolding firing_fields Map.lookup
compiled_lem capability_defaults a c node q h = unnamed_lem _ node q Firing.unspecified refl refl
compiled_lem (FiringPlan.all Firing.unspecified) a c node q h =
    named_lem _ node q Firing.unspecified
      (lookup-pin_nodes Firing.unspecified a.nodes [] node ∙ rw h refl)
    ∙ unnamed_lem _ node q Firing.unspecified refl refl
compiled_lem (FiringPlan.all f) a c node q h =
    named_lem _ node q f (lookup-pin_nodes f a.nodes [] node ∙ rw h refl)
compiled_lem (by_map d m) a c node q h =
    let asked = λ (o : Option Firing).
      set_or (unwrap_or o Firing.unspecified) (set_or (own_firing q) (set_or d Firing.once)) in
    elim (Option-cases (Map.lookup node m)) [
      | inl e ↦ unnamed_lem _ node q d refl (lookup-numbers m node ∙ rw e refl) ∙ ap asked (sym e)
      | inr (f, e) ↦
          named_lem _ node q f (lookup-numbers m node ∙ rw e refl)
          ∙ ap (set_or f) (unnamed_lem _ node q d refl refl)
          ∙ ap asked (sym e)
    ]

is_open_lem :
    (mode : RunMode)
    → is_open (closure_of (pos (closure_number (Policy.closure_of_mode mode)))) ≡ is_stream mode
unfolding is_open closure_of
is_open_lem converge = refl
is_open_lem stream = refl
is_open_lem dedupe_stream = refl
is_open_lem selective = refl
is_open_lem (manual Closure.open_closure) = refl
is_open_lem (manual Closure.first_terminal) = refl
is_open_lem (manual Closure.unspecified) = refl

-- A node of the assembly that a compiled policy starts fires as the firing plan asks: a firing that
-- the plan names for it comes before the capability's own, and that before the plan's default.
pub effective_firing-started :
    (self : FrameworkPolicy) (req : RunRequest) (requested assembly : Assembly)
    (node : AssemblyNode) (q : Capability)
    → req.assembly ≡ some requested
    → contains (node_ids requested.nodes) node.id ≡ true
    → (effective_firing (started self req assembly) node q ≡ wanted_firing self.firing node.id q)
      × (is_open_closure (started self req assembly) ≡ is_stream self.mode)
unfolding apply_to_run_request execution_policy_for new_run new_slot is_open_closure closure
effective_firing-started self req a assembly node q r h =
    let policy = compiled_policy self.firing (some a) (pos (closure_number (closure self))) in
    (
      effective_firing_lem (started self req assembly) policy node q (rw r refl)
          ∙ compiled_lem self.firing a _ node.id q h,
      is_open_lem self.mode,
    )

-- A run that a compiled policy starts on an assembly with nodes has a positive step limit and a
-- positive limit of work in flight.
pub started-IsBounded :
    (self : FrameworkPolicy) (req : RunRequest) (assembly : Assembly)
    → is_nil assembly.nodes ≡ false
    → (1 ≤ (started self req assembly).run.max_steps)
      × (1 ≤ (started self req assembly).max_in_flight)
unfolding apply_to_run_request new_run new_slot effective_concurrency default_max_steps
started-IsBounded self req assembly h = (ground arith, ground arith)

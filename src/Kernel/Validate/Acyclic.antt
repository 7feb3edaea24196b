-- ===== src/Kernel/Validate/Acyclic.antt =====
-- `validate_assembly` and cycles.
use srcport_substrate.Base.{◌≡◌, true, Option, none, some, List, Str, All, contains}
use srcport_substrate.Proto.{NamedArtifact, Assembly}
use srcport_substrate.Kernel.Platform.{Platform}
use srcport_substrate.Kernel.Error.{KernelError, ok, ok_of_bind}
use srcport_substrate.Kernel.State.{State}
use srcport_substrate.Kernel.Assembly.{ok_or, node_ids}
use srcport_substrate.Kernel.Cycle.Order.{IsOrdered, search_order-IsOrdered}
use srcport_substrate.Kernel.Validate.{edges_of, validate_assembly}

ok_or_lem : {A : Type 0} (o : Option A) (e : KernelError) {a : A} → ok_or o e ≡ ok a → o ≡ some a
ok_or_lem none e h = cc
ok_or_lem (some a) e h = cc

module _ ⦃p : Platform⦄ where
  -- If `validate_assembly` accepts an assembly, its nodes have a topological order: a list that
  -- holds each of them, without repetition, and each before all the nodes that it feeds.
  pub validate_assembly-IsOrdered :
      (s : State) (assembly : Assembly) (inputs : List NamedArtifact)
      → validate_assembly s assembly inputs ≡ ok tt
      → (order : List Str) × IsOrdered (edges_of assembly.bindings) order
        × All (λ n. contains order n ≡ true) (node_ids assembly.nodes)
  unfolding validate_assembly
  validate_assembly-IsOrdered s a inputs h =
      let h1 = ok_of_bind _ _ h in
      let h2 = ok_of_bind _ _ h1.2 in
      let h3 = ok_of_bind _ _ h2.2 in
      let h4 = ok_of_bind _ _ h3.2 in
      let h5 = ok_of_bind _ _ h4.2 in
      let h6 = ok_of_bind _ _ h5.2 in
      let h7 = ok_of_bind _ _ h6.2 in
      let h8 = ok_of_bind _ _ h7.2 in
      let h9 = ok_of_bind _ _ h8.2 in
      let found =
        search_order-IsOrdered (node_ids a.nodes) (edges_of a.bindings) h9.0 (ok_or_lem _ _ h9.1) in
      (h9.0, found.0, found.1)

-- ===== src/Framework/Reach/Walk.antt =====
-- Walks along the edges of a graph, for the sets that the searches compute.
use srcport_substrate.Base.{◌≡◌, true, List, Str, contains}
use srcport_substrate.Kernel.Cycle.{Edge, targets}

-- The walks from `source`.
pub data Walk (edges : List Edge) (source : Str) : Str → Type 0 where
  here : Walk edges source source
  step :
      {u v : Str} → Walk edges source u → contains (targets edges u) v ≡ true → Walk edges source v

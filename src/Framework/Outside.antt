-- ===== src/Framework/Outside.antt =====
-- What a host calls outside of itself: the clock, the plugins, and the crate serde_json.
use srcport_substrate.Base.{ℕ, Option, List, Str, Bytes, ◌⊎◌}
use srcport_substrate.Base.Int.{ℤ}
use srcport_substrate.Proto.{ModuleManifest}
use srcport_substrate.Framework.Error.{Result}
use srcport_substrate.Framework.Foreign.{Foreign}
use srcport_substrate.Framework.Presentation.{Presentation, StepResult}
use srcport_substrate.Framework.Step.{StepContext, StepOutput}
use srcport_substrate.Framework.Storage.{TableSchema}
use srcport_substrate.Framework.Tables.{StoreWrite}

module _ ⦃f : Foreign⦄ where
  -- A plugin may change its own state and anything outside of the host, the `World`.
  pub record Outside : Type 1 where
    pub World : Type 0
    pub now : World → ℤ × World
    -- serde_json::to_vec, whose error is its text
    pub to_vec : Presentation → Str ⊎ Bytes
    -- serde_json::to_value of a vector of strings, or null
    pub to_value : List Str → f.Json

  module _ ⦃o : Outside⦄ where
    -- `ModulePlugin`
    pub record ModulePlugin : Type 0 where
      pub manifest : o.World → ModuleManifest × o.World
      pub module_digest : o.World → Option Str × o.World
      pub execute : StepContext → o.World → (Result StepOutput × StepContext) × o.World
      pub on_init : StepContext → o.World → Option Presentation × o.World
      pub on_final : StepContext → StepResult → o.World → Option Presentation × o.World
      pub storage_schema : o.World → Option TableSchema × o.World
      pub on_store : StepContext → StepResult → o.World → Option StoreWrite × o.World

    -- `std::thread::scope` over the plugins that a wave executes: one thread for each, all joined in
    -- order. The threads may interleave in any way. What the i-th one returns is the entry at `i`;
    -- `none` is a thread that panicked.
    pub record Threads : Type 0 where
      pub scope :
          List (ModulePlugin × StepContext)
          → o.World
          → Option (ℕ → Result StepOutput × StepContext) × o.World

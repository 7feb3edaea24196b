-- ===== src/Framework/Step.antt =====
-- framework/sdk/rust/src/lib.rs: what a plugin is given for a step and what it returns.
use srcport_substrate.Base.{ℕ, some, List, [], ◌∷◌, ◌++◌, length, Str, Bytes}
use srcport_substrate.Base.Map
use srcport_substrate.Base.Map.{Map}
use srcport_substrate.Proto.{Artifact, ArtifactRef, NamedArtifact, WorkItem}
use srcport_substrate.Framework.Foreign.{Foreign}
use srcport_substrate.Framework.Presentation.{
  PresentationStatus, StepStage, Presentation, fill_identity,
}

pub record PortBody : Type 0 where
  pub port : Str
  pub traits : Map Bytes
  pub entity_id : Str

unfoldable pub insert_bodies : List (Str × Bytes) → Map Bytes → Map Bytes
unfolding Map.insert
insert_bodies [] traits = traits
insert_bodies ((contract, body) ∷ pairs) traits =
    insert_bodies pairs (Map.insert contract body traits)

unfoldable pub with_traits : Str → List (Str × Bytes) → PortBody
unfolding insert_bodies
with_traits port pairs = record { port = port; traits = insert_bodies pairs []; entity_id = [] }

unfoldable pub with_trait : Str → Str → Bytes → PortBody
unfolding with_traits
with_trait port contract body = with_traits port ((contract, body) ∷ [])

abbrev pub with_entity_id : Str → PortBody → PortBody
with_entity_id id self = record self { entity_id = id }

-- `StepOutput` has one field, the outputs.
abbrev pub StepOutput : Type 0
StepOutput = List PortBody

abbrev pub named_ref : Str → ArtifactRef → NamedArtifact
named_ref name r = record { name = name; artifact = some r }

abbrev pub leave_pending : PresentationStatus → PresentationStatus
leave_pending PresentationStatus.pending = PresentationStatus.running
leave_pending status = status

module _ ⦃f : Foreign⦄ where
  pub record StepContext : Type 0 where
    pub run_id : Str
    pub work : WorkItem
    pub inputs : Map Artifact
    pub progress_buf : List Presentation

  unfoldable pub emit_progress : Presentation → StepContext → StepContext
  unfolding fill_identity
  emit_progress p self =
      let shown = record p { stage = StepStage.progress; status = leave_pending p.status } in
      record self {
        progress_buf = self.progress_buf ++ fill_identity self.run_id self.work shown ∷ [];
      }

  abbrev pub progress_count : StepContext → ℕ
  progress_count self = length self.progress_buf

  unfoldable pub take_progress : StepContext → List Presentation × StepContext
  take_progress self = (self.progress_buf, record self { progress_buf = [] })

-- ===== src/Framework/Presentation.antt =====
-- framework/sdk/rust/src/presentation.rs: what a step shows to a user interface.
use srcport_substrate.Base.{Bool, Option, none, some, List, [], Str, lit, is_empty, if◌then◌else◌}
use srcport_substrate.Base.Map.{Map}
use srcport_substrate.Proto.{NamedArtifact, WorkItem}
use srcport_substrate.Framework.Foreign.{Foreign}

pub data StepStage : Type 0 where
  init progress finished skipped cached : StepStage

-- The constants for the contracts.
unfoldable pub contract_ref : StepStage → Str
unfolding lit
contract_ref StepStage.init = lit "srcport.ui.v1.StepInit"
contract_ref StepStage.progress = lit "srcport.ui.v1.StepProgress"
contract_ref finished = lit "srcport.ui.v1.StepFinal"
contract_ref StepStage.skipped = lit "srcport.ui.v1.StepSkipped"
contract_ref StepStage.cached = lit "srcport.ui.v1.StepCached"

pub data PresentationStatus : Type 0 where
  pending running blocked succeeded empty failed : PresentationStatus

-- `fill_identity` of one field.
abbrev pub fill : Str → Str → Str
fill old new = if is_empty old then new else old

pub record StepResult : Type 0 where
  pub is_ok : Bool
  pub outputs : List NamedArtifact
  pub error : Option Str

pub data ProcessingStatus : Type 0 where
  pending running blocked failed : ProcessingStatus

pub data ResultStatus : Type 0 where
  succeeded empty failed : ResultStatus

abbrev pub of_processing : ProcessingStatus → PresentationStatus
of_processing ProcessingStatus.pending = PresentationStatus.pending
of_processing ProcessingStatus.running = PresentationStatus.running
of_processing ProcessingStatus.blocked = PresentationStatus.blocked
of_processing ProcessingStatus.failed = PresentationStatus.failed

abbrev pub of_result : ResultStatus → PresentationStatus
of_result ResultStatus.succeeded = PresentationStatus.succeeded
of_result ResultStatus.empty = PresentationStatus.empty
of_result ResultStatus.failed = PresentationStatus.failed

pub record ResultView : Type 0 where
  pub title : Str
  pub status : ResultStatus
  pub summary : Option Str
  pub run_id : Str
  pub work_id : Str
  pub node_id : Str
  pub module_name : Str
  pub output_ports : List Str

abbrev pub default_result_view : ResultView
default_result_view = record {
  title = [];
  status = ResultStatus.succeeded;
  summary = none;
  run_id = [];
  work_id = [];
  node_id = [];
  module_name = [];
  output_ports = [];
}

module _ ⦃f : Foreign⦄ where
  pub record Presentation : Type 0 where
    pub stage : StepStage
    pub title : Str
    pub status : PresentationStatus
    pub detail : Option Str
    pub progress : Option f.Float
    pub run_id : Str
    pub work_id : Str
    pub node_id : Str
    pub module_name : Str
    pub capability : Str
    pub phase : Option Str
    pub highlight_ports : List Str
    pub output_ports : List Str
    pub meta : Map Str

  abbrev pub default_presentation : Presentation
  default_presentation = record {
    stage = StepStage.progress;
    title = [];
    status = PresentationStatus.running;
    detail = none;
    progress = none;
    run_id = [];
    work_id = [];
    node_id = [];
    module_name = [];
    capability = [];
    phase = none;
    highlight_ports = [];
    output_ports = [];
    meta = [];
  }

  abbrev pub init_presentation : Str → Presentation
  init_presentation title = record default_presentation { stage = StepStage.init; title = title }

  abbrev pub progress_presentation : Str → Option f.Float → Presentation
  progress_presentation title fraction = record default_presentation {
    title = title;
    progress = fraction;
  }

  abbrev pub with_detail : Str → Presentation → Presentation
  with_detail detail self = record self { detail = some detail }

  abbrev pub with_phase : Str → Presentation → Presentation
  with_phase phase self = record self { phase = some phase }

  abbrev pub final_ok : Str → Presentation
  final_ok title = record default_presentation {
    stage = finished;
    title = title;
    status = PresentationStatus.succeeded;
    progress = some f.float_one;
  }

  abbrev pub final_failed : Str → Str → Presentation
  final_failed title detail = record default_presentation {
    stage = finished;
    title = title;
    status = PresentationStatus.failed;
    detail = some detail;
  }

  abbrev pub skipped_presentation : Str → Str → Presentation
  skipped_presentation title detail = record default_presentation {
    stage = StepStage.skipped;
    title = title;
    status = PresentationStatus.empty;
    detail = some detail;
    progress = some f.float_one;
  }

  abbrev pub cached_presentation : Str → Str → Presentation
  cached_presentation title detail = record default_presentation {
    stage = StepStage.cached;
    title = title;
    status = PresentationStatus.succeeded;
    detail = some detail;
    progress = some f.float_one;
  }

  unfoldable pub fill_identity : Str → WorkItem → Presentation → Presentation
  fill_identity run_id work self = record self {
    run_id = fill self.run_id run_id;
    work_id = fill self.work_id work.id;
    node_id = fill self.node_id work.node_id;
    module_name = fill self.module_name work.module_name;
    capability = fill self.capability work.capability;
  }

  pub record StepEvent : Type 0 where
    pub stage : StepStage
    pub presentation : Presentation
    pub artifact_id : Str

  pub record ProcessingView : Type 0 where
    pub title : Str
    pub status : ProcessingStatus
    pub detail : Option Str
    pub progress : Option f.Float
    pub run_id : Str
    pub work_id : Str
    pub node_id : Str
    pub module_name : Str

  abbrev pub default_processing_view : ProcessingView
  default_processing_view = record {
    title = [];
    status = ProcessingStatus.running;
    detail = none;
    progress = none;
    run_id = [];
    work_id = [];
    node_id = [];
    module_name = [];
  }

  unfoldable pub from_processing_view : ProcessingView → Presentation
  from_processing_view v = record default_presentation {
    stage = StepStage.init;
    title = v.title;
    status = of_processing v.status;
    detail = v.detail;
    progress = v.progress;
    run_id = v.run_id;
    work_id = v.work_id;
    node_id = v.node_id;
    module_name = v.module_name;
  }

  abbrev pub progress_of : ResultStatus → Option f.Float
  progress_of ResultStatus.succeeded = some f.float_one
  progress_of ResultStatus.empty = some f.float_one
  progress_of ResultStatus.failed = none

  unfoldable pub from_result_view : ResultView → Presentation
  from_result_view v = record default_presentation {
    stage = finished;
    title = v.title;
    status = of_result v.status;
    detail = v.summary;
    progress = progress_of v.status;
    run_id = v.run_id;
    work_id = v.work_id;
    node_id = v.node_id;
    module_name = v.module_name;
    output_ports = v.output_ports;
    highlight_ports = v.output_ports;
  }

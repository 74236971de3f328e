-- ===== src/Contracts/Targets.antt =====
-- Exact targets (src/core/contracts.ts).
use tilda_mcp.Prelude.{String, String-discrete}

-- The identifiers stand in the order project, page, record, element.
pub data ExactTarget : Type 0 where
  project_target : String → ExactTarget
  page_target : String → String → ExactTarget
  record_target : String → String → String → ExactTarget
  element_target : String → String → String → String → ExactTarget

pub record PageTarget : Type 0 where
  pub project_id : String
  pub page_id : String

pub record RecordTarget : Type 0 where
  pub project_id : String
  pub page_id : String
  pub record_id : String

pub record ElementTarget : Type 0 where
  pub project_id : String
  pub page_id : String
  pub record_id : String
  pub element_id : String

abbrev pub of_page : PageTarget → ExactTarget
of_page t = page_target t.project_id t.page_id

abbrev pub of_record : RecordTarget → ExactTarget
of_record t = record_target t.project_id t.page_id t.record_id

abbrev pub of_element : ElementTarget → ExactTarget
of_element t = element_target t.project_id t.page_id t.record_id t.element_id

unfoldable pub ExactTarget-discrete : Discrete ExactTarget
ExactTarget-discrete = hlevel String-discrete

unfoldable pub PageTarget-discrete : Discrete PageTarget
PageTarget-discrete = hlevel String-discrete

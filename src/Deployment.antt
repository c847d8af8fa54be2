-- ===== src/Deployment.antt =====
-- The deployment job and its states: internal/deployment/deployment.go.
pub mod NewId
use remnanode_setup_bot.Base.{ℕ, String}
use remnanode_setup_bot.Base.{Bool, true, false, Option}
use remnanode_setup_bot.Base.Net.{Addr}

pub data Status : Type 0 where
  created preflight preparing_certificate provisioning creating_remnawave waiting_remnawave : Status
  adding_to_dns completed failed cancelled dns_failed manual_review : Status

-- `Status.Terminal`.
unfoldable pub is_terminal : Status → Bool
is_terminal completed = true
is_terminal failed = true
is_terminal cancelled = true
is_terminal dns_failed = true
is_terminal manual_review = true
is_terminal _ = false

pub data StepStatus : Type 0 where
  pending running done broken skipped : StepStatus

-- `StepStatus.Terminal`; `done` is COMPLETED and `broken` FAILED.
unfoldable pub is_finished : StepStatus → Bool
is_finished done = true
is_finished broken = true
is_finished skipped = true
is_finished _ = false

-- A job. Times are numbers; the text of an error for the operator is left out.
pub record Deployment : Type 0 where
  pub id : String
  pub panel_id : String
  pub operator : ℕ
  pub host_uuid : String
  pub host_remark : String
  pub sni_domain : String
  pub node_name : String
  pub target_ip : Addr
  pub node_uuid : Option String
  pub status : Status
  pub current_step : String
  pub error_code : Option String
  pub created_at : ℕ
  pub updated_at : ℕ
  pub started_at : Option ℕ
  pub completed_at : Option ℕ

-- The latest record of a named step.
pub record Step : Type 0 where
  pub deployment_id : String
  pub name : String
  pub status : StepStatus
  pub started_at : Option ℕ
  pub completed_at : Option ℕ

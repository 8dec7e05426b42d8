-- ===== src/Settings.antt =====
-- The business rules of app/core/config.py, and the context of a tool call (app/tools/base.py).
use restaurant_sahayak.Base.{ℕ, String, Option}
use restaurant_sahayak.Errors.{agent_run_required}
use restaurant_sahayak.Exec.{require}
use restaurant_sahayak.Models.{Action}
use restaurant_sahayak.Models.Enums.{TriggerType}
use restaurant_sahayak.Models.Approvals.{Reason}

-- The thresholds and defaults of `Settings`; costs are counted in cents.
pub record Settings : Type 0 where
  pub reservation_high_impact_party_size : ℕ
  pub default_reservation_duration_minutes : ℕ
  pub purchase_request_high_impact_cost_threshold : ℕ
  pub covers_per_server : ℕ
  pub covers_per_cook : ℕ
  pub minimum_servers_per_shift : ℕ
  pub minimum_cooks_per_shift : ℕ
  pub inventory_usage_lookback_days : ℕ

abbrev pub default_settings : Settings
default_settings = record {
  reservation_high_impact_party_size = 6;
  default_reservation_duration_minutes = 90;
  purchase_request_high_impact_cost_threshold = 20000;
  covers_per_server = 15;
  covers_per_cook = 20;
  minimum_servers_per_shift = 1;
  minimum_cooks_per_shift = 1;
  inventory_usage_lookback_days = 14;
}

pub record ToolContext : Type 0 where
  pub restaurant_id : ℕ
  pub acting_agent : String
  pub trigger_type : TriggerType
  pub agent_run_id : Option ℕ

-- What a gated operation returns: its normal output, a row, or `PendingApprovalOutput`.
pub data Outcome : Type 0 where
  done : ℕ → Outcome
  pending_approval : ℕ → Reason → Outcome

-- `_require_agent_run`
abbrev pub require_agent_run : ToolContext → Action ℕ
require_agent_run context = require context.agent_run_id agent_run_required

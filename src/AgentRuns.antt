-- ===== src/AgentRuns.antt =====
-- The record of agent runs (app/services/agent_run_service.py, app/repositories/agent_run_repo.py).
pub mod Sequence
use restaurant_sahayak.Base.{
  ℕ, ◌+◌, max, String, Bool, ◌==◌, Option, none, some, List, [], ◌∷◌, ◌++◌, map, select, find,
  update, or_else,
}
use restaurant_sahayak.Errors.{agent_run_not_found}
use restaurant_sahayak.Exec.{pure, raise, gets, require, ◌>>=◌}
use restaurant_sahayak.Models.{Session, Action, utcnow}
use restaurant_sahayak.Models.Enums.{TriggerType}
use restaurant_sahayak.Models.Runs.{
  AgentRun, AgentMessage, RunStatus, Role, MessageContent, Summary, agent_run_row,
}

-- The arguments of `start_run`
pub record NewRun : Type 0 where
  pub restaurant_id : ℕ
  pub agent_name : String
  pub model_name : String
  pub trigger_type : TriggerType
  pub initiated_by_user_id : Option ℕ
  pub triggering_event_id : Option ℕ
  pub parent_run_id : Option ℕ
  pub correlation_id : Option ℕ

-- `correlation_id or uuid.uuid4()` is a second fresh identity.
abbrev pub new_run : NewRun → Session → AgentRun
new_run r s = record {
  id = s.next_id;
  restaurant_id = r.restaurant_id;
  agent_name = r.agent_name;
  model_name = r.model_name;
  parent_run_id = r.parent_run_id;
  correlation_id = or_else r.correlation_id (s.next_id + 1);
  trigger_type = r.trigger_type;
  initiated_by_user_id = r.initiated_by_user_id;
  triggering_event_id = r.triggering_event_id;
  status = RunStatus.running;
  outcome_summary = none;
  started_at = s.now;
  completed_at = none;
}

-- `start_run`
unfoldable pub start_run : NewRun → Action AgentRun
start_run r s =
    pure (new_run r s)
      (record s { agent_runs = s.agent_runs ++ new_run r s ∷ []; next_id = s.next_id + 2 })

abbrev pub of_run : ℕ → AgentMessage → Bool
of_run run_id m = m.run_id == run_id

-- `max(existing) + 1`, or 1 where there is none
abbrev pub highest : List AgentMessage → ℕ
highest [] = 0
highest (m ∷ ms) = max m.sequence_number (highest ms)

-- `next_sequence_number`
unfoldable pub next_sequence_number : ℕ → List AgentMessage → ℕ
next_sequence_number run_id messages = highest (select (of_run run_id) messages) + 1

-- The arguments of `log_message`; no caller in the model names an approval.
abbrev pub new_message : ℕ → Role → Option String → MessageContent → Session → AgentMessage
new_message run_id role tool_name content s = record {
  id = s.next_id;
  run_id = run_id;
  sequence_number = next_sequence_number run_id s.messages;
  role = role;
  tool_name = tool_name;
  content = content;
  approval_id = none;
}

-- `log_message`
unfoldable pub log_message : ℕ → Role → Option String → MessageContent → Action (Unit {0})
log_message run_id role tool_name content s = pure tt (record s {
  messages = s.messages ++ new_message run_id role tool_name content s ∷ [];
  next_id = s.next_id + 1;
})

abbrev pub ended : RunStatus → Option Summary → ℕ → AgentRun → AgentRun
ended status outcome_summary now r = record r {
  status = status;
  outcome_summary = outcome_summary;
  completed_at = some now;
}

-- `complete_run`, on the row that was found
unfoldable pub complete_found : ℕ → RunStatus → Option Summary → Option AgentRun → Action (Unit {0})
complete_found run_id status outcome_summary none s = raise (agent_run_not_found run_id) s
complete_found run_id status outcome_summary (some r) s =
    pure tt
      (record s { agent_runs = update r.id (ended status outcome_summary s.now) s.agent_runs })

-- `complete_run`
unfoldable pub complete_run : ℕ → RunStatus → Option Summary → Action (Unit {0})
complete_run run_id status outcome_summary s =
    complete_found run_id status outcome_summary (find run_id s.agent_runs) s

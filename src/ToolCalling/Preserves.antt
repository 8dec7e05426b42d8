-- ===== src/ToolCalling/Preserves.antt =====
-- Invariants of the session across a run: what the tools and the record of messages keep.
use mathlib.Core.Path.{subst}
use restaurant_sahayak.Base.{
  ℕ, zero, suc, ◌≡◌, refl, ◌∙◌, String, str_eq, Bool, true, false, ltb, Option, none, some, List,
  [], ◌∷◌, All, Text, arith, Bool-cases, inl, inr, if◌then◌else◌,
}
use restaurant_sahayak.Errors.{Result}
use restaurant_sahayak.Exec.{
  Keeps, Keeps-bind, Keeps-pure, Keeps-gets, Keeps-throw, Keeps-try_except, keeps_rules, lift, gets,
}
use restaurant_sahayak.Models.{Session, Action}
use restaurant_sahayak.Models.Runs.{
  ToolCall, ToolFailure, MessageContent, Role, internal_error, unknown_tool,
}
use restaurant_sahayak.Settings.{ToolContext}
use restaurant_sahayak.AgentRuns.{log_message}
use restaurant_sahayak.ToolCalling.{
  Agent, Tool, ToolOutput, LlmMessage, assistant, LlmResponse, AgentState, Working, Step,
  in_session, say, with_state, find_tool, failure_of, report_failure, report_output, call_tool,
  execute_tool_call, execute_all, finish, give_up, respond, ask, iterate, attempt, AgentStatus,
}

-- Every tool keeps `P`.
abbrev pub ToolsKeep : (Session → Type 0) → List Tool → Type 0
ToolsKeep P =
    All (λ t. (arguments : String) (context : ToolContext) → Keeps P (t.call arguments context))

-- `P` of the session that the loop works on
abbrev pub Within : (Session → Type 0) → Working → Type 0
Within P w = P w.session

module _ (P : Session → Type 0) where
  pub in_session-Keeps : {A : Type 0} (m : Action A) → Keeps P m → Keeps (Within P) (in_session m)
  in_session-Keeps m k = record { at = λ w h. k.at w.session h }

  say-Keeps : (message : LlmMessage) → Keeps (Within P) (say message)
  say-Keeps message = record { at = λ w h. h }

  pub with_state-Keeps : (f : AgentState → AgentState) → Keeps (Within P) (with_state f)
  with_state-Keeps f = record { at = λ w h. h }

  lift-Keeps : {A : Type 0} (r : Result A) → Keeps (Within P) (lift r)
  lift-Keeps r = record { at = λ w h. h }

  module _
      (logs : (run_id : ℕ) (role : Role) (tool_name : Option String) (content : MessageContent)
        → Keeps P (log_message run_id role tool_name content))
      (agent : Agent) (tools : ToolsKeep P agent.tools) (context : ToolContext) (run_id : ℕ) where
    report_failure-Keeps :
        (call : ToolCall) (failure : ToolFailure)
        → Keeps (Within P) (report_failure run_id call failure)
    unfolding report_failure
    report_failure-Keeps call failure = search (keeps_rules, say-Keeps, in_session-Keeps, logs)

    report_output-Keeps :
        (call : ToolCall) (output : ToolOutput)
        → Keeps (Within P) (report_output run_id call output)
    unfolding report_output
    report_output-Keeps call output =
        search (keeps_rules, say-Keeps, with_state-Keeps, in_session-Keeps, logs)

    found_tool :
        (name : String) (ts : List Tool) (t : Tool)
        → ToolsKeep P ts
        → find_tool name ts ≡ some t
        → (arguments : String) (context : ToolContext) → Keeps P (t.call arguments context)
    found_tool name [] t h e = ground arith
    found_tool name (u ∷ ts) t h e =
        chosen (λ l. found_tool name ts l h.1) (find_tool name ts) refl e
      where
        chosen :
            ((l : Tool)
              → find_tool name ts ≡ some l
              → (arguments : String) (context : ToolContext) → Keeps P (l.call arguments context))
            → (later : Option Tool) → find_tool name ts ≡ later
            → (elim later [ some l ↦ some l | none ↦ if str_eq u.name name then some u else none ])
              ≡ some t
            → (arguments : String) (context : ToolContext) → Keeps P (t.call arguments context)
        chosen rest (some l) found e = rest t (found ∙ e)
        chosen rest none found e = elim (Bool-cases (str_eq u.name name)) [
          | inl named ↦
              let same : u ≡ t = cc (rw named at e) in
              subst
                (λ k.
                  (arguments : String) (context : ToolContext) → Keeps P (k.call arguments context))
                same h.0
          | inr other ↦ absurd (ground (arith, e, other))
        ]

    call_tool-Keeps :
        (call : ToolCall) (tool : Option Tool)
        → find_tool call.name agent.tools ≡ tool
        → Keeps (Within P) (call_tool context run_id call tool)
    unfolding call_tool
    call_tool-Keeps call none e = report_failure-Keeps call (unknown_tool call.name)
    call_tool-Keeps call (some tool) e =
        Keeps-try_except (Within P) (in_session (tool.call call.arguments context)) _ _
          (in_session-Keeps (tool.call call.arguments context)
            (found_tool call.name agent.tools tool tools e call.arguments context))
          (report_output-Keeps call) (λ e. report_failure-Keeps call (failure_of e))

    pub execute_all-Keeps :
        (calls : List ToolCall) → Keeps (Within P) (execute_all agent context run_id calls)
    unfolding execute_all execute_tool_call
    execute_all-Keeps [] = Keeps-pure (Within P) tt
    execute_all-Keeps (call ∷ calls) =
        Keeps-bind (Within P) (execute_tool_call agent context run_id call) _
          (call_tool-Keeps call (find_tool call.name agent.tools) refl) λ _. execute_all-Keeps calls

    finish-Keeps : (content : Option Text) → Keeps (Within P) (finish run_id content)
    unfolding finish
    finish-Keeps content = search (keeps_rules, with_state-Keeps, in_session-Keeps, logs)

    give_up-Keeps : Keeps (Within P) (give_up agent run_id)
    unfolding give_up
    give_up-Keeps = search (keeps_rules, with_state-Keeps, in_session-Keeps, logs)

    respond-Keeps :
        (go_on : Step AgentStatus) (response : LlmResponse) (calls : List ToolCall)
        → Keeps (Within P) go_on
        → Keeps (Within P) (respond agent context run_id go_on response calls)
    unfolding respond
    respond-Keeps go_on response [] k = finish-Keeps response.content
    respond-Keeps go_on response (call ∷ calls) k =
        Keeps-bind (Within P) (say (assistant response.content (call ∷ calls))) _ (say-Keeps _) λ _.
          Keeps-bind (Within P)
            (in_session (
              log_message run_id Role.assistant none
                (MessageContent.calls response.content (call ∷ calls))))
            _ (in_session-Keeps _ (logs run_id Role.assistant none _))
            λ _.
              Keeps-bind (Within P) (execute_all agent context run_id (call ∷ calls)) _
                (execute_all-Keeps (call ∷ calls)) λ _. k

    ask-Keeps :
        (go_on : Step AgentStatus)
        → Keeps (Within P) go_on
        → Keeps (Within P) (ask agent context run_id go_on)
    unfolding ask
    ask-Keeps go_on k = Keeps-bind (Within P) (with_state _) _ (with_state-Keeps _) λ _.
        Keeps-bind (Within P) (gets (λ w. w.messages)) _ (Keeps-gets (Within P) _) λ messages.
          Keeps-bind (Within P) (lift (agent.generate messages)) _
            (lift-Keeps (agent.generate messages))
            λ response. respond-Keeps _ response response.tool_calls k

    iterate-Keeps : (fuel : ℕ) → Keeps (Within P) (iterate fuel agent context run_id)
    unfolding iterate
    iterate-Keeps zero = Keeps-throw (Within P) _
    iterate-Keeps (suc fuel) =
        Keeps-bind (Within P) (gets (λ w. w.state)) _ (Keeps-gets (Within P) _) λ st.
          branch (ltb st.iterations agent.max_iterations)
            (ask-Keeps (iterate fuel agent context run_id) (iterate-Keeps fuel))
      where
        branch :
            (b : Bool)
            → Keeps (Within P) (ask agent context run_id (iterate fuel agent context run_id))
            → Keeps (Within P) (
                if b
                then ask agent context run_id (iterate fuel agent context run_id)
                else give_up agent run_id)
        branch true k = k
        branch false k = give_up-Keeps

    -- The loop keeps what the tools and the messages keep, whether it ends or raises.
    pub attempt-Keeps : Keeps (Within P) (attempt agent context run_id)
    unfolding attempt
    attempt-Keeps =
        Keeps-try_except (Within P) (iterate (suc agent.max_iterations) agent context run_id) _ _
          (iterate-Keeps (suc agent.max_iterations)) (λ a. Keeps-pure (Within P) a)
          (λ e.
            Keeps-bind (Within P) (with_state (λ st. record st { error = some internal_error })) _
              (with_state-Keeps (λ st. record st { error = some internal_error }))
              λ _. Keeps-pure (Within P) AgentStatus.error)

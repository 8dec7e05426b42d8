-- ===== src/ToolCalling/Bounds.antt =====
-- The loop asks the model at most `max_iterations` times.
use restaurant_sahayak.Base.{
  ℕ, zero, suc, ◌+◌, ◌<◌, ◌≡◌, refl, ap, ltb, true, false, Option, none, some, List, [], ◌∷◌, arith,
}
use restaurant_sahayak.Errors.{Result, ok, err}
use restaurant_sahayak.Exec.{
  Keeps, Keeps-bind, Keeps-pure, Keeps-try_except, keeps_rules, Exec, throw, ◌>>=◌, lift, after,
}
use restaurant_sahayak.Models.{Action}
use restaurant_sahayak.Models.Runs.{ToolCall, ToolFailure, unknown_tool}
use restaurant_sahayak.Settings.{ToolContext}
use restaurant_sahayak.AgentRuns.{log_message}
use restaurant_sahayak.ToolCalling.{
  Agent, AgentStatus, Tool, ToolOutput, LlmMessage, LlmResponse, Working, Step, in_session, say,
  find_tool, failure_of, report_failure, report_output, call_tool, execute_tool_call, execute_all,
  give_up, respond, ask, iterate,
}

-- Two ways to go on that agree wherever the first part leads agree after it.
rest_agrees :
    {S A B : Type 0} (P : S → Type 0) (m : Exec S A) (f g : A → Exec S B) (s : S)
    → P (m s).1
    → ((a : A) (s : S) → P s → f a s ≡ g a s)
    → (m >>= f) s ≡ (m >>= g) s
rest_agrees {S} {A} {B} P m f g s h k = agree (m s) h
  where
    agree : (out : Result A × S) → P out.1 → after f throw out ≡ after g throw out
    agree (ok a, s') h = k a s' h
    agree (err e, s') h = refl

-- The counter stands at `n`.
abbrev Counted : ℕ → Working → Type 0
Counted n w = w.state.iterations ≡ n

module _ (n : ℕ) where
  in_session-Counted : {A : Type 0} (m : Action A) → Keeps (Counted n) (in_session m)
  in_session-Counted m = record { at = λ w h. h }

  say-Counted : (message : LlmMessage) → Keeps (Counted n) (say message)
  say-Counted message = record { at = λ w h. h }

  report_failure-Counted :
      (run_id : ℕ) (call : ToolCall) (failure : ToolFailure)
      → Keeps (Counted n) (report_failure run_id call failure)
  unfolding report_failure
  report_failure-Counted run_id call failure = search (keeps_rules, say-Counted, in_session-Counted)

  report_output-Counted :
      (run_id : ℕ) (call : ToolCall) (output : ToolOutput)
      → Keeps (Counted n) (report_output run_id call output)
  unfolding report_output
  report_output-Counted run_id call output = record { at = λ w h. h }

  call_tool-Counted :
      (context : ToolContext) (run_id : ℕ) (call : ToolCall) (tool : Option Tool)
      → Keeps (Counted n) (call_tool context run_id call tool)
  unfolding call_tool
  call_tool-Counted context run_id call none =
      report_failure-Counted run_id call (unknown_tool call.name)
  call_tool-Counted context run_id call (some tool) =
      Keeps-try_except (Counted n) (in_session (tool.call call.arguments context)) _ _
        (in_session-Counted (tool.call call.arguments context)) (report_output-Counted run_id call)
        (λ e. report_failure-Counted run_id call (failure_of e))

  execute_all-Counted :
      (agent : Agent) (context : ToolContext) (run_id : ℕ) (calls : List ToolCall)
      → Keeps (Counted n) (execute_all agent context run_id calls)
  unfolding execute_all execute_tool_call
  execute_all-Counted agent context run_id [] = Keeps-pure (Counted n) tt
  execute_all-Counted agent context run_id (call ∷ calls) =
      Keeps-bind (Counted n) (execute_tool_call agent context run_id call) _
        (call_tool-Counted context run_id call (find_tool call.name agent.tools))
        λ _. execute_all-Counted agent context run_id calls

  -- Two ways to go on that agree while the counter stands at `n` agree after the calls of a response.
  respond_agrees :
      (agent : Agent) (context : ToolContext) (run_id : ℕ) (f g : Step AgentStatus)
      (response : LlmResponse) (calls : List ToolCall) (w : Working)
      → Counted n w
      → ((w : Working) → Counted n w → f w ≡ g w)
      → respond agent context run_id f response calls w
        ≡ respond agent context run_id g response calls w
  unfolding respond log_message
  respond_agrees agent context run_id f g response [] w h k = refl
  respond_agrees agent context run_id f g response (call ∷ calls) w h k =
      rest_agrees (Counted n) (execute_all agent context run_id (call ∷ calls)) (λ _. f) (λ _. g) _
        ((execute_all-Counted agent context run_id (call ∷ calls)).at _ h) (λ _ w h. k w h)

-- The loop written out: so many rounds at most, in each of which the model is asked once, and then
-- it gives up. No counter is read.
abbrev pub asks : ℕ → Agent → ToolContext → ℕ → Step AgentStatus
asks zero agent context run_id = give_up agent run_id
asks (suc left) agent context run_id = ask agent context run_id (asks left agent context run_id)

ask_agrees :
    (n : ℕ) (agent : Agent) (context : ToolContext) (run_id : ℕ) (f g : Step AgentStatus)
    (w : Working)
    → Counted n w
    → ((w : Working) → Counted (n + 1) w → f w ≡ g w)
    → ask agent context run_id f w ≡ ask agent context run_id g w
unfolding ask
ask_agrees n agent context run_id f g w h k =
    let next : Working = record w {
      state = record w.state { iterations = w.state.iterations + 1 };
    } in
    rest_agrees (Counted (n + 1)) (lift (agent.generate w.messages))
      (λ response. respond agent context run_id f response response.tool_calls)
      (λ response. respond agent context run_id g response response.tool_calls) next
      (ap (λ m. m + 1) h)
      (λ response w h.
        respond_agrees (n + 1) agent context run_id f g response response.tool_calls w h k)

iterate_left :
    (left fuel n : ℕ) (agent : Agent) (context : ToolContext) (run_id : ℕ) (w : Working)
    → left < fuel
    → n + left ≡ agent.max_iterations
    → Counted n w
    → iterate fuel agent context run_id w ≡ asks left agent context run_id w
unfolding iterate
iterate_left left zero n agent context run_id w le sum h = absurd (omega arith)
iterate_left zero (suc fuel) n agent context run_id w le sum h =
    let over : ltb w.state.iterations agent.max_iterations ≡ false = ground arith in rw over refl
iterate_left (suc left) (suc fuel) n agent context run_id w le sum h =
    let more : ltb w.state.iterations agent.max_iterations ≡ true = ground arith in
    rw more (
      ask_agrees n agent context run_id (iterate fuel agent context run_id)
        (asks left agent context run_id) w h
        (λ w h.
          iterate_left left fuel (n + 1) agent context run_id w (omega arith) (omega arith) h))

-- The loop that reads its counter is, from a counter of 0, the `max_iterations` rounds written out,
-- however the model answers and whatever the tools do: it asks the model at most so often, and gives
-- up after that. Any fuel above the iterations is enough.
pub iterate-asks :
    (fuel : ℕ) (agent : Agent) (context : ToolContext) (run_id : ℕ) (w : Working)
    → agent.max_iterations < fuel
    → w.state.iterations ≡ 0
    → iterate fuel agent context run_id w ≡ asks agent.max_iterations agent context run_id w
iterate-asks fuel agent context run_id w enough fresh =
    iterate_left agent.max_iterations fuel 0 agent context run_id w enough (omega arith) fresh

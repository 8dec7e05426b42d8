-- ===== src/AgentRuns/Sequence.antt =====
-- The unique index `uq_agent_messages_run_sequence`: logging cannot violate it.
use restaurant_sahayak.Base.{
  ℕ, ◌+◌, ◌≤◌, ◌≡◌, refl, String, true, false, ◌&&◌, ◌==◌, Option, List, [], ◌∷◌, All, All-map,
  Pairwise, Pairwise-snoc, arith, select, Bool-cases, inl, inr,
}
use restaurant_sahayak.Exec.{Keeps}
use restaurant_sahayak.Models.{Session}
use restaurant_sahayak.Models.Runs.{AgentMessage, Role, MessageContent}
use restaurant_sahayak.AgentRuns.{of_run, highest, next_sequence_number, new_message, log_message}

-- The rows do not share a run and a sequence number.
abbrev pub Numbered : AgentMessage → AgentMessage → Type 0
Numbered x y = (x.run_id == y.run_id && x.sequence_number == y.sequence_number) ≡ false

abbrev pub SequencesUnique : Session → Type 0
SequencesUnique s = Pairwise Numbered s.messages

highest_grows :
    (run_id : ℕ) (m : AgentMessage) (ms : List AgentMessage)
    → highest (select (of_run run_id) ms) ≤ highest (select (of_run run_id) (m ∷ ms))
highest_grows run_id m ms = elim (Bool-cases (of_run run_id m)) [
  | inl own ↦ rw own (omega arith)
  | inr other ↦ rw other (omega arith)
]

own_bound :
    (run_id : ℕ) (m : AgentMessage) (ms : List AgentMessage)
    → of_run run_id m ≡ true
    → m.sequence_number ≤ highest (select (of_run run_id) (m ∷ ms))
own_bound run_id m ms own = rw own (omega arith)

-- No message of the run has a higher number.
highest_bound :
    (run_id : ℕ) (ms : List AgentMessage)
    → All (λ m. of_run run_id m ≡ true → m.sequence_number ≤ highest (select (of_run run_id) ms)) ms
highest_bound run_id [] = tt
highest_bound run_id (m ∷ ms) =
    let grows = highest_grows run_id m ms in
    (
      own_bound run_id m ms,
      All-map
          (λ x. of_run run_id x ≡ true → x.sequence_number ≤ highest (select (of_run run_id) ms))
          (λ x.
            of_run run_id x ≡ true → x.sequence_number ≤ highest (select (of_run run_id) (m ∷ ms)))
          (λ x f e. let le = f e in omega arith) ms (highest_bound run_id ms),
    )

-- A message gets a number that no other message of its run has, if the numbers of each run were
-- distinct before.
pub log_message-SequencesUnique :
    (run_id : ℕ) (role : Role) (tool_name : Option String) (content : MessageContent)
    → Keeps SequencesUnique (log_message run_id role tool_name content)
unfolding log_message next_sequence_number
log_message-SequencesUnique run_id role tool_name content = record {
  at = λ s h. Pairwise-snoc Numbered s.messages (new_message run_id role tool_name content s) h (
      All-map
        (λ m.
          of_run run_id m ≡ true → m.sequence_number ≤ highest (select (of_run run_id) s.messages))
        (λ m. Numbered m (new_message run_id role tool_name content s))
        (λ m f. apart m (highest (select (of_run run_id) s.messages)) f) s.messages
        (highest_bound run_id s.messages));
}
  where
    apart :
        (m : AgentMessage) (top : ℕ)
        → (of_run run_id m ≡ true → m.sequence_number ≤ top)
        → (m.run_id == run_id && m.sequence_number == top + 1) ≡ false
    apart m top f = elim (Bool-cases (m.run_id == run_id)) [
      | inl own ↦ let le = f own in ground arith
      | inr other ↦ rw other refl
    ]

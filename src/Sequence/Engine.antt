-- ===== src/Sequence/Engine.antt =====
-- src/core/sequence/core/SequenceEngine.{h,cpp}. `A` stands for the references to actions, `W` for the
-- state behind the collaborators, the execution context included. What other threads ask of the
-- engine while it waits or sleeps is a list of requests, handled before it goes on.
use mxrc.Common.{
  ℕ, suc, String, Bool, true, false, Option, none, some, List, [], ◌∷◌, ◌||◌, ltb, if◌then◌else◌,
  lookup, insert, str_eq,
}
use mxrc.Action.Result.{ExecutionResult, Outcome}
use mxrc.Sequence.Definition.{
  SequenceStatus, ActionStep, pending, running, completed, failed, cancelled, paused, is_status,
}

pub data Request : Type 0 where
  ask_cancel ask_pause ask_resume : String → Request

pub data SequenceEvent : Type 0 where
  sequence_started : String → String → ℕ → SequenceEvent
  step_started : String → String → String → ℕ → ℕ → SequenceEvent
  step_completed : String → String → String → ℕ → ℕ → SequenceEvent
  sequence_completed : String → ℕ → ℕ → SequenceEvent
  sequence_failed : String → String → ℕ → ℕ → SequenceEvent
  sequence_cancelled : String → ℕ → ℕ → SequenceEvent

-- The factory, the executor, the condition evaluator, the context, the event bus and the clock.
pub record Collaborators (M A W : Type 0) : Type 0 where
  pub create_action : String → List (String × String) → W → W × Outcome A
  pub execute_async : A → ℕ → W → W × String
  pub wait_for_completion : String → W → W × List Request
  pub get_result : String → W → ExecutionResult
  pub cancel_action : String → W → W
  pub set_action_result : String → ExecutionResult → W → W
  pub evaluate : List ℕ → W → Outcome Bool
  pub sleep : ℕ → W → W × List Request
  pub publish : SequenceEvent → W → W
  pub power : ℕ → M → ℕ → ℕ
  pub now : W → ℕ

pub record SequenceState : Type 0 where
  pub status : SequenceStatus
  pub progress : ℕ × ℕ
  pub cancel_requested : Bool
  pub pause_requested : Bool
  pub completed_steps : ℕ
  pub total_steps : ℕ
  pub current_action_id : String
  pub start_time : ℕ

pub record SequenceEngine (W : Type 0) : Type 0 where
  pub states : List (String × SequenceState)
  pub world : W

abbrev pub first_state : SequenceState
first_state = record {
  status = pending;
  progress = (0, 1);
  cancel_requested = false;
  pause_requested = false;
  completed_steps = 0;
  total_steps = 0;
  current_action_id = "";
  start_time = 0;
}

abbrev or_first : Option SequenceState → SequenceState
or_first none = first_state
or_first (some s) = s

abbrev pub is_in : String → List String → Bool
is_in id [] = false
is_in id (other ∷ rest) = str_eq other id || is_in id rest

-- What the loop over the steps keeps: the actions executed, and their count.
pub record Tally : Type 0 where
  pub executed : List String
  pub count : ℕ

unfoldable pub find_step : String → List ActionStep → Option ActionStep
find_step id [] = none
find_step id (step ∷ steps) =
    let rest = find_step id steps in if str_eq step.action_id id then some step else rest

abbrev pub is_finished : SequenceStatus → Bool
is_finished s = is_status s completed || (is_status s failed || is_status s cancelled)

-- The entries that are not finished, and the number of the others.
unfoldable pub unfinished : List (String × SequenceState) → List (String × SequenceState) × ℕ
unfinished [] = ([], 0)
unfinished ((id, s) ∷ rest) =
    let (kept, count) = unfinished rest in
    if is_finished s.status then (kept, suc count) else ((id, s) ∷ kept, count)

module _ {W : Type 0} where
  -- `states_[id]`, which makes an entry that is missing.
  abbrev pub state_of : String → SequenceEngine W → SequenceState
  state_of id e = or_first (lookup id e.states)

  abbrev pub with_state :
      String → (SequenceState → SequenceState) → SequenceEngine W → SequenceEngine W
  with_state id f e = record e { states = insert id (f (state_of id e)) e.states }

  abbrev pub with_world : W → SequenceEngine W → SequenceEngine W
  with_world w e = record e { world = w }

  unfoldable pub pause : String → SequenceEngine W → SequenceEngine W
  pause id e = elim (lookup id e.states) [
    | none ↦ e
    | some s ↦ record e {
      states = insert id (record s { pause_requested = true; status = paused }) e.states;
    }
  ]

  unfoldable pub resume : String → SequenceEngine W → SequenceEngine W
  resume id e = elim (lookup id e.states) [
    | none ↦ e
    | some s ↦ record e {
      states = insert id (record s { pause_requested = false; status = running }) e.states;
    }
  ]

  unfoldable pub get_status : String → SequenceEngine W → SequenceStatus
  get_status id e = elim (lookup id e.states) [ none ↦ pending | some s ↦ s.status ]

  unfoldable pub get_progress : String → SequenceEngine W → ℕ × ℕ
  get_progress id e = elim (lookup id e.states) [ none ↦ (0, 1) | some s ↦ s.progress ]

  unfoldable pub clear_completed_sequences : SequenceEngine W → SequenceEngine W × ℕ
  clear_completed_sequences e =
      let (kept, count) = unfinished e.states in (record e { states = kept }, count)

  unfoldable pub update_progress : String → ℕ → ℕ → SequenceEngine W → SequenceEngine W
  update_progress id completed_steps total_steps e =
      if ltb 0 total_steps
      then with_state id (λ s. record s { progress = (completed_steps, total_steps) }) e
      else e

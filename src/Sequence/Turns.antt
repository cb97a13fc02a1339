-- ===== src/Sequence/Turns.antt =====
-- src/core/sequence/core/SequenceEngine.cpp: the ways in which a turn of the loop over the steps ends.
use mxrc.Common.{
  ℕ, suc, ◌≡◌, refl, String, true, false, none, some, List, ◌∷◌, Bool-cases, Option-cases, inl, inr,
}
use mxrc.Sequence.Definition.{SequenceStatus, SequenceDefinition, ActionStep, cancelled}
use mxrc.Sequence.Engine.{Collaborators, SequenceEngine, Tally, is_in, state_of, with_state}
use mxrc.Sequence.Execution.{wait_while_paused}
use mxrc.Sequence.Steps.{goes_on, stops, perform, run_steps, result_of, set_status}

module _ {M A W : Type 0} (c : Collaborators M A W) (patience : ℕ) (d : SequenceDefinition M)
    (step : ActionStep) (rest : List ActionStep) (index : ℕ) (t : Tally)
    (e : SequenceEngine W) where
  pub data Turn : Type 0 where
    asked :
        (state_of d.id e).cancel_requested ≡ true
        → run_steps c patience d (step ∷ rest) index t e
          ≡ some (with_state d.id (set_status cancelled) e, result_of d cancelled "" t.count (0, 1))
        → Turn
    asleep :
        (state_of d.id e).cancel_requested ≡ false
        → wait_while_paused c patience d.id e ≡ none
        → run_steps c patience d (step ∷ rest) index t e ≡ none
        → Turn
    skipped :
        (woken : SequenceEngine W)
        → (state_of d.id e).cancel_requested ≡ false
        → wait_while_paused c patience d.id e ≡ some woken
        → is_in step.action_id t.executed ≡ true
        → run_steps c patience d (step ∷ rest) index t e
          ≡ run_steps c patience d rest (suc index) t woken
        → Turn
    unended :
        (woken : SequenceEngine W)
        → (state_of d.id e).cancel_requested ≡ false
        → wait_while_paused c patience d.id e ≡ some woken
        → is_in step.action_id t.executed ≡ false
        → perform c d step index t woken ≡ none
        → run_steps c patience d (step ∷ rest) index t e ≡ none
        → Turn
    performed :
        (woken over : SequenceEngine W) (after : Tally)
        → (state_of d.id e).cancel_requested ≡ false
        → wait_while_paused c patience d.id e ≡ some woken
        → is_in step.action_id t.executed ≡ false
        → perform c d step index t woken ≡ some (over, goes_on after)
        → run_steps c patience d (step ∷ rest) index t e
          ≡ run_steps c patience d rest (suc index) after over
        → Turn
    ended :
        (woken over : SequenceEngine W) (status : SequenceStatus) (message : String)
        → (state_of d.id e).cancel_requested ≡ false
        → wait_while_paused c patience d.id e ≡ some woken
        → is_in step.action_id t.executed ≡ false
        → perform c d step index t woken ≡ some (over, stops status message)
        → run_steps c patience d (step ∷ rest) index t e
          ≡ some
              (with_state d.id (set_status status) over, result_of d status message t.count (0, 1))
        → Turn

  -- Every turn ends in one of them.
  pub turn : Turn
  unfolding run_steps
  turn = elim (Bool-cases (state_of d.id e).cancel_requested) [
    | inl q ↦ asked q (simp (run_steps, q))
    | inr q ↦ elim (Option-cases (wait_while_paused c patience d.id e)) [
      | inl w ↦ asleep q w (rw (run_steps, q, w) refl)
      | inr (woken, w) ↦ elim (Bool-cases (is_in step.action_id t.executed)) [
        | inl i ↦ skipped woken q w i (rw (run_steps, q, w, i) refl)
        | inr i ↦ elim (Option-cases (perform c d step index t woken)) [
          | inl o ↦ unended woken q w i o (rw (run_steps, q, w, i, o) refl)
          | inr ((over, goes_on after), o) ↦
              performed woken over after q w i o (rw (run_steps, q, w, i, o) refl)
          | inr ((over, stops status message), o) ↦
              ended woken over status message q w i o (rw (run_steps, q, w, i, o) refl)
        ]
      ]
    ]
  ]

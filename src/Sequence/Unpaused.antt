-- ===== src/Sequence/Unpaused.antt =====
-- src/core/sequence/core/SequenceEngine.cpp: where nobody asks for a pause, no sequence is paused.
use mxrc.Common.{
  ℕ, zero, suc, ◌≡◌, refl, sym, ◌∙◌, subst, String, true, false, Option, none, some, List, [], ◌∷◌,
  All, Bool-cases, Option-cases, inl, inr, str_eq, lookup, insert, lookup-insert, if◌then◌else◌,
  ltb, length,
}
use mxrc.Action.Result as Action
use mxrc.Action.Result.{ExecutionResult, Outcome, threw, returned, Outcome-cases}
use mxrc.Sequence.Definition.{SequenceDefinition, ActionStep, RetryPolicy}
use mxrc.Sequence.Retry.{calculate_delay}
use mxrc.Sequence.Engine.{
  Request, ask_cancel, ask_pause, ask_resume, Collaborators, SequenceState, SequenceEngine, Tally,
  is_in, find_step, state_of, with_state, with_world, resume, update_progress, step_completed,
}
use mxrc.Sequence.Execution.{
  cancel, handle_requests, sleep, wait_before_retry, wait_to_retry, run_action, attempt, may_retry,
  run_branch, handle_conditional_branch, publish,
}

abbrev pub IsNoPause : Request → Type 0
IsNoPause (ask_pause id) = ⊥
IsNoPause (ask_cancel id) = Unit
IsNoPause (ask_resume id) = Unit

module _ {W : Type 0} where
  abbrev pub IsUnpaused : SequenceEngine W → Type 0
  IsUnpaused e = (id : String) → (state_of id e).pause_requested ≡ false

  insert-IsUnpaused :
      (key : String) (s : SequenceState) (e : SequenceEngine W)
      → s.pause_requested ≡ false
      → IsUnpaused e
      → IsUnpaused (record e { states = insert key s e.states })
  insert-IsUnpaused key s e calm all id = elim (Bool-cases (str_eq key id)) [
    | inl same ↦ rw (lookup-insert key id s e.states, same) calm
    | inr other ↦ rw (lookup-insert key id s e.states, other) (all id)
  ]

  pub with_state-IsUnpaused :
      (key : String) (f : SequenceState → SequenceState) (e : SequenceEngine W)
      → ((s : SequenceState) → s.pause_requested ≡ false → (f s).pause_requested ≡ false)
      → IsUnpaused e
      → IsUnpaused (with_state key f e)
  with_state-IsUnpaused key f e keeps all =
      insert-IsUnpaused key (f (state_of key e)) e (keeps (state_of key e) (all key)) all

  lookup-calm :
      (id : String) (e : SequenceEngine W) (s : SequenceState)
      → lookup id e.states ≡ some s
      → IsUnpaused e
      → s.pause_requested ≡ false
  lookup-calm id e s there all = rw there at (all id)

  resume-IsUnpaused : (id : String) (e : SequenceEngine W) → IsUnpaused e → IsUnpaused (resume id e)
  unfolding resume
  resume-IsUnpaused id e all = elim (Option-cases (lookup id e.states)) [
    | inl out ↦ rw (resume, out) all
    | inr (s, there) ↦ rw (resume, there) (insert-IsUnpaused id _ e refl all)
  ]

  pub update_progress-IsUnpaused :
      (id : String) (n m : ℕ) (e : SequenceEngine W)
      → IsUnpaused e
      → IsUnpaused (update_progress id n m e)
  unfolding update_progress
  update_progress-IsUnpaused id n m e all = elim (Bool-cases (ltb 0 m)) [
    | inl h ↦
        rw h (with_state-IsUnpaused id (λ s. record s { progress = (n, m) }) e (λ s calm. calm) all)
    | inr h ↦ rw h all
  ]

module _ {W B : Type 0} where
  pub ended-IsUnpaused :
      (x over : SequenceEngine W) (a b : B)
      → ◌≡◌ {A = Option (SequenceEngine W × B)} (some (x, a)) (some (over, b))
      → IsUnpaused x
      → IsUnpaused over
  ended-IsUnpaused x over a b h all = let same : x ≡ over = cc in subst IsUnpaused same all

module _ {M A W : Type 0} (c : Collaborators M A W) where
  cancel-IsUnpaused :
      (id : String) (e : SequenceEngine W) → IsUnpaused e → IsUnpaused (cancel c id e)
  unfolding cancel
  cancel-IsUnpaused id e all = elim (Option-cases (lookup id e.states)) [
    | inl out ↦ rw (cancel, out) all
    | inr (s, there) ↦
        rw (cancel, there)
          (insert-IsUnpaused id (record s { cancel_requested = true }) e
            (lookup-calm id e s there all) all)
  ]

  handle_requests-IsUnpaused :
      (requests : List Request) (e : SequenceEngine W)
      → All IsNoPause requests
      → IsUnpaused e
      → IsUnpaused (handle_requests c requests e)
  unfolding handle_requests
  handle_requests-IsUnpaused [] e calm all = all
  handle_requests-IsUnpaused (ask_cancel id ∷ rest) e calm all =
      handle_requests-IsUnpaused rest (cancel c id e) calm.1 (cancel-IsUnpaused id e all)
  handle_requests-IsUnpaused (ask_pause id ∷ rest) e calm all = absurd calm.0
  handle_requests-IsUnpaused (ask_resume id ∷ rest) e calm all =
      handle_requests-IsUnpaused rest (resume id e) calm.1 (resume-IsUnpaused id e all)

  module _ (calm_wait : (id : String) (w : W) → All IsNoPause (c.wait_for_completion id w).1)
      (calm_sleep : (ms : ℕ) (w : W) → All IsNoPause (c.sleep ms w).1) where
    wait_to_retry-IsUnpaused :
        (policy : Option (RetryPolicy M)) (n : ℕ) (e : SequenceEngine W)
        → IsUnpaused e
        → IsUnpaused (wait_to_retry c policy n e)
    unfolding wait_before_retry sleep
    wait_to_retry-IsUnpaused none n e all = all
    wait_to_retry-IsUnpaused (some p) n e all =
        elim (Bool-cases (ltb 0 (calculate_delay c.power p n))) [
          | inl h ↦ rw h (
              handle_requests-IsUnpaused (c.sleep (calculate_delay c.power p n) e.world).1
                (with_world (c.sleep (calculate_delay c.power p n) e.world).0 e)
                (calm_sleep (calculate_delay c.power p n) e.world) all)
          | inr h ↦ rw h all
        ]

    run_action-IsUnpaused :
        (id : String) (step : ActionStep) (e : SequenceEngine W)
        → IsUnpaused e
        → IsUnpaused (run_action c id step e).0
    unfolding run_action
    run_action-IsUnpaused id step e all =
        let (w, made) =
          c.create_action step.action_type (insert "id" step.action_id step.parameters) e.world in
        elim (Outcome-cases made) [
          | inl (message, o) ↦ rw (run_action, o) all
          | inr (a, o) ↦
              let (v, action_id) = c.execute_async a step.timeout w in
              let started =
                with_state id (λ s. record s { current_action_id = action_id }) (with_world v e) in
              let (u, requests) = c.wait_for_completion action_id started.world in
              let waited = handle_requests c requests (with_world u started) in
              rw (run_action, o)
                (with_state-IsUnpaused id (λ s. record s { current_action_id = "" }) waited
                  (λ s calm. calm)
                  (handle_requests-IsUnpaused requests (with_world u started)
                    (calm_wait action_id started.world)
                    (with_state-IsUnpaused id (λ s. record s { current_action_id = action_id })
                      (with_world v e) (λ s calm. calm) all)))
        ]

    pub attempt-IsUnpaused :
        (rounds : ℕ) (d : SequenceDefinition M) (step : ActionStep) (index n : ℕ)
        (e over : SequenceEngine W) (outcome : Outcome (ExecutionResult × ℕ))
        → attempt c rounds d step index n e ≡ some (over, outcome)
        → IsUnpaused e
        → IsUnpaused over
    unfolding attempt publish
    attempt-IsUnpaused zero d step index n e over outcome h all = absurd (cc)
    attempt-IsUnpaused (suc rounds) d step index n e over outcome h all =
        let ran = run_action-IsUnpaused d.id step e all in
        elim (Outcome-cases (run_action c d.id step e).1) [
          | inl (message, o) ↦
              ended-IsUnpaused (run_action c d.id step e).0 over (threw message) outcome
                (sym (rw (attempt, o) refl) ∙ h) ran
          | inr (r, o) ↦ elim (Bool-cases (Action.is_successful r)) [
            | inl good ↦
                ended-IsUnpaused
                  (publish c
                    (step_completed d.id step.action_id step.action_type index (length d.steps))
                    (run_action c d.id step e).0)
                  over (returned (r, n)) outcome (sym (rw (attempt, o, good) refl) ∙ h) ran
            | inr bad ↦ elim (Bool-cases (may_retry d.retry_policy n)) [
              | inl may ↦
                  attempt-IsUnpaused rounds d step index (suc n)
                    (wait_to_retry c d.retry_policy n (run_action c d.id step e).0) over outcome
                    (sym (rw (attempt, o, bad, may) refl) ∙ h)
                    (wait_to_retry-IsUnpaused d.retry_policy n (run_action c d.id step e).0 ran)
              | inr final ↦
                  ended-IsUnpaused (run_action c d.id step e).0 over (returned (r, n)) outcome
                    (sym (rw (attempt, o, bad, final) refl) ∙ h) ran
            ]
          ]
        ]

    pub run_branch-IsUnpaused :
        (d : SequenceDefinition M) (ids : List String) (t : Tally) (e : SequenceEngine W)
        → IsUnpaused e
        → IsUnpaused (run_branch c d ids t e).0
    unfolding run_branch
    run_branch-IsUnpaused d [] t e all = all
    run_branch-IsUnpaused d (id ∷ rest) t e all = elim (Bool-cases (is_in id t.executed)) [
      | inl h ↦ rw (run_branch, h) (run_branch-IsUnpaused d rest t e all)
      | inr h ↦ elim (Option-cases (find_step id d.steps)) [
        | inl f ↦ rw (run_branch, h, f) (run_branch-IsUnpaused d rest t e all)
        | inr (step, f) ↦
            let ran = run_action-IsUnpaused d.id step e all in
            elim (Outcome-cases (run_action c d.id step e).1) [
              | inl (message, o) ↦
                  rw (run_branch, h, f, o)
                    (run_branch-IsUnpaused d rest t (run_action c d.id step e).0 ran)
              | inr (r, o) ↦
                  rw (run_branch, h, f, o)
                    (run_branch-IsUnpaused d rest
                      (record { executed = step.action_id ∷ t.executed; count = suc t.count })
                      (with_world
                        (c.set_action_result step.action_id r (run_action c d.id step e).0.world)
                        (run_action c d.id step e).0)
                      ran)
            ]
      ]
    ]

    pub handle_conditional_branch-IsUnpaused :
        (id : String) (d : SequenceDefinition M) (t : Tally) (e : SequenceEngine W)
        → IsUnpaused e
        → IsUnpaused (handle_conditional_branch c id d t e).0
    unfolding handle_conditional_branch
    handle_conditional_branch-IsUnpaused id d t e all =
        elim (Option-cases (lookup id d.conditional_branches)) [
          | inl out ↦ rw (handle_conditional_branch, out) all
          | inr (branch, there) ↦ elim (Outcome-cases (c.evaluate branch.condition e.world)) [
            | inl (message, o) ↦ rw (handle_conditional_branch, there, o) all
            | inr (holds, o) ↦
                rw (handle_conditional_branch, there, o)
                  (run_branch-IsUnpaused d
                    (if holds then branch.true_actions else branch.false_actions) t e all)
          ]
        ]

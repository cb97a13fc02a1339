-- ===== src/System/Retries.antt =====
-- src/core/sequence over src/core/action: the sequence engine retries an action by executing an action
-- with the same id again, and the action executor keeps the entry of the one that failed.
pub mod Tests
use mxrc.Common.{
  ℕ, zero, suc, ◌+◌, ◌<◌, ◌≤◌, ◌≡◌, refl, sym, ap, ◌∙◌, subst, String, Bool, true, false, Option,
  none, some, List, [], ◌∷◌, ltb, lookup, insert, Bool-cases, inl, inr, length, arith,
}
use mxrc.Action.Result as Action
use mxrc.Action.Result.{ExecutionResult, Outcome, threw, returned, failed}
use mxrc.Action.Executor as Executor
use mxrc.Action.Executor.Results as Results
use mxrc.Action.Executor.{Actions, ActionExecutor}
use mxrc.Action.Executor.Results.{get_result}
use mxrc.Action.Executor.Starting.{Run, execute_async}
use mxrc.Action.Executor.Stale.{HasFailed, IsCalm, get_result-failed, execute_async-HasFailed}
use mxrc.Sequence.Definition.{SequenceDefinition, ActionStep, RetryPolicy}
use mxrc.Sequence.Retry.{calculate_delay}
use mxrc.Sequence.Engine.{Collaborators, SequenceEngine, SequenceEvent, with_state, with_world}
use mxrc.Sequence.Execution.{
  attempt, run_action, may_retry, wait_to_retry, wait_before_retry, handle_requests, sleep,
}
use mxrc.Sequence.Retries.{limit, may_retry-limit}

failed_lem : (r : ExecutionResult) → r.status ≡ failed → Action.is_successful r ≡ false
unfolding Action.is_successful
failed_lem r h = rw h refl

module _ {M A W : Type 0} (acts : Actions A W) (make : String → List (String × String) → A)
    (runs : A → ActionExecutor A W → Run W)
    (others : String → ActionExecutor A W → ActionExecutor A W) (power : ℕ → M → ℕ → ℕ) where
  -- A start; `runs` says what the new task does meanwhile. One that does not return is no step of the
  -- engine: below, every start returns.
  abbrev start : A → ℕ → ActionExecutor A W → ActionExecutor A W × String
  start a timeout e = elim (execute_async acts a timeout (runs a e) 0 e) [
    | none ↦ (e, acts.get_id a)
    | some started ↦ started
  ]

  -- The engine's collaborators over an action executor, where nobody sends requests.
  abbrev pub over_executor : Collaborators M A (ActionExecutor A W)
  over_executor = record {
    create_action = λ type parameters e. (e, returned (make type parameters));
    execute_async = start;
    wait_for_completion = λ id e. (others id e, []);
    get_result = λ id e. get_result acts id e;
    cancel_action = λ id e. Executor.cancel acts id e;
    set_action_result = λ id r e. e;
    evaluate = λ condition e. threw "no conditions";
    sleep = λ ms e. (e, []);
    publish = λ event e. e;
    power = power;
    now = λ e. 0;
  }

  start-HasFailed :
      (a : A) (id : String) (timeout : ℕ) (e : ActionExecutor A W)
      → acts.get_id a ≡ id
      → timeout ≡ 0
      → IsCalm (runs a e)
      → HasFailed id e
      → HasFailed id (start a timeout e).0 × ((start a timeout e).1 ≡ id)
  start-HasFailed a id timeout e name none_set calm stale =
      let (e', called, stale') =
        execute_async-HasFailed acts a (runs a e) 0 e calm
          (subst (λ (k : String). HasFailed k e) (sym name) stale) in
      let same : start a timeout e ≡ (e', acts.get_id a) = rw (none_set, start, called) refl in
      (rw same (subst (λ (k : String). HasFailed k e') name stale'), rw same name)

  module _
      (named : (type id : String) (parameters : List (String × String))
        → acts.get_id (make type (insert "id" id parameters)) ≡ id)
      (others-HasFailed : (id : String) (e : ActionExecutor A W)
        → HasFailed id e
        → HasFailed id (others id e))
      (calm : (a : A) (e : ActionExecutor A W) → IsCalm (runs a e)) where
    run_action-failed :
        (id : String) (step : ActionStep) (e : SequenceEngine (ActionExecutor A W))
        → step.timeout ≡ 0
        → HasFailed step.action_id e.world
        → (r : ExecutionResult) × ((run_action over_executor id step e).1 ≡ returned r)
          × (r.status ≡ failed)
          × HasFailed step.action_id (run_action over_executor id step e).0.world
    unfolding run_action handle_requests
    run_action-failed id step e h stale =
        let a = make step.action_type (insert "id" step.action_id step.parameters) in
        let s : ActionExecutor A W × String = start a step.timeout e.world in
        let (stale', name) =
          start-HasFailed a step.action_id step.timeout e.world
            (named step.action_type step.action_id step.parameters) h (calm a e.world) stale in
        let kept = others-HasFailed step.action_id s.0 stale' in
        (
          get_result acts s.1 (others s.1 s.0),
          refl,
          subst (λ (k : String). (get_result acts k (others k s.0)).status ≡ failed) (sym name)
              (get_result-failed acts step.action_id (others step.action_id s.0) kept),
          subst (λ (k : String). HasFailed step.action_id (others k s.0)) (sym name) kept,
        )

    same_world :
        (policy : Option (RetryPolicy M)) (n : ℕ) (e : SequenceEngine (ActionExecutor A W))
        → (wait_to_retry over_executor policy n e).world ≡ e.world
    unfolding wait_before_retry sleep handle_requests
    same_world none n e = refl
    same_world (some p) n e = elim (Bool-cases (ltb 0 (calculate_delay power p n))) [
      | inl h ↦ rw h refl
      | inr h ↦ rw h refl
    ]

    -- A step without a timeout whose action has thrown before, its entry still there: every retry
    -- that the policy allows is used, and the result is still a failure. The conditions: the factory
    -- gives an action the id that it is asked for; what other threads do while the engine waits leaves
    -- the entry there; and no new task throws while executeAsync waits for it: it has ended before
    -- the executor takes the mutex of its map, or it ends without an exception.
    pub attempt-stale :
        (d : SequenceDefinition M) (step : ActionStep) (index rounds n : ℕ)
        (e : SequenceEngine (ActionExecutor A W))
        → step.timeout ≡ 0
        → HasFailed step.action_id e.world
        → n ≤ limit d.retry_policy
        → limit d.retry_policy < n + rounds
        → (over : SequenceEngine (ActionExecutor A W)) × (r : ExecutionResult) × (attempt
              over_executor rounds d step index n e
            ≡ some (over, returned (r, limit d.retry_policy)))
          × (r.status ≡ failed)
    unfolding attempt
    attempt-stale d step index zero n e h stale low enough = absurd (omega arith)
    attempt-stale d step index (suc rounds) n e h stale low enough =
        let ran : SequenceEngine (ActionExecutor A W) = (run_action over_executor d.id step e).0 in
        let (r, o, bad, stale') = run_action-failed d.id step e h stale in
        let unsuccessful : Action.is_successful r ≡ false = failed_lem r bad in
        elim (Bool-cases (may_retry d.retry_policy n)) [
          | inl may ↦
              let below : ltb n (limit d.retry_policy) ≡ true =
                sym (may_retry-limit d.retry_policy n) ∙ may in
              let (over, final, ends, status) =
                attempt-stale d step index rounds (suc n)
                  (wait_to_retry over_executor d.retry_policy n ran) h
                  (subst (λ (w : ActionExecutor A W). HasFailed step.action_id w)
                    (sym (same_world d.retry_policy n ran)) stale')
                  (ground (arith, below)) (omega arith) in
              (over, final, rw (attempt, o, unsuccessful, may) ends, status)
          | inr last ↦
              let above : ltb n (limit d.retry_policy) ≡ false =
                sym (may_retry-limit d.retry_policy n) ∙ last in
              let count : n ≡ limit d.retry_policy = ground (arith, above) in
              (ran, r, rw (attempt, o, unsuccessful, last, count) refl, bad)
        ]

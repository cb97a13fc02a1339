-- ===== src/Ha/StateMachine/Attempts.antt =====
-- The counting of failed recoveries up to the limit.
use mxrc.Common.{
  ℕ, ◌+◌, ◌^◌, ◌<◌, ◌≡◌, ◌⊎◌, true, false, List, [], ◌∷◌, arith, length, subst, ◌∙◌, ap,
}
use mxrc.Ha.Policy.{normal, degraded, recovery_in_progress, manual_intervention, safe_mode}
use mxrc.Ha.StateMachine.{
  HaStateMachine, is_valid_transition, transition_to, report_recovery_failure,
}

module _ {W : Type 0} where
  -- Failed recoveries one after the other, each at its time.
  unfoldable pub failures : List ℕ → HaStateMachine W → HaStateMachine W
  failures [] m = m
  failures (t ∷ ts) m = failures ts (report_recovery_failure t m).0

  few :
      (t : ℕ) (m : HaStateMachine W)
      → m.recovery_attempt_count + 1 < m.max_recovery_attempts
      → m.max_recovery_attempts < 2 ^ 32
      → report_recovery_failure t m
        ≡ (record m { recovery_attempt_count = m.recovery_attempt_count + 1 }, true)
  unfolding report_recovery_failure
  few t m h small = ground arith

  enough :
      (t : ℕ) (m : HaStateMachine W)
      → m.recovery_attempt_count + 1 ≡ m.max_recovery_attempts
      → m.max_recovery_attempts < 2 ^ 32
      → report_recovery_failure t m
        ≡ transition_to manual_intervention t (record m { recovery_attempt_count = 0 })
  unfolding report_recovery_failure
  enough t m h small = ground arith

  abbrev pub with_count : ℕ → HaStateMachine W → HaStateMachine W
  with_count n m = record m { recovery_attempt_count = n }

  counted :
      (ts : List ℕ) (n : ℕ) (m : HaStateMachine W)
      → n + length ts < m.max_recovery_attempts
      → m.max_recovery_attempts < 2 ^ 32
      → failures ts (with_count n m) ≡ with_count (n + length ts) m
  unfolding failures
  counted [] n m h small = ap (λ k. with_count k m) (omega arith)
  counted (t ∷ ts) n m h small =
      rw (few t (with_count n m) (omega (arith, h)) small)
        (counted ts (n + 1) m (omega (arith, h)) small ∙ ap (λ k. with_count k m) (omega arith))

  -- From a count of 0, fewer failed recoveries than the limit only count. The one that reaches the
  -- limit sets the count to 0 and asks for MANUAL_INTERVENTION.
  pub failures-limit :
      (ts : List ℕ) (t : ℕ) (m : HaStateMachine W)
      → m.recovery_attempt_count ≡ 0
      → length ts + 1 ≡ m.max_recovery_attempts
      → m.max_recovery_attempts < 2 ^ 32
      → (failures ts m ≡ with_count (length ts) m)
        × (report_recovery_failure t (failures ts m) ≡ transition_to manual_intervention t m)
  failures-limit ts t m none_yet limit small =
      let same : with_count 0 m ≡ m = ground (arith, none_yet) in
      let most : failures ts m ≡ with_count (length ts) m =
        subst (λ k. failures ts k ≡ with_count (length ts) m) same
          (counted ts 0 m (omega (arith, limit)) small ∙ ap (λ k. with_count k m) (omega arith)) in
      (
        most,
        rw most (
            enough t (with_count (length ts) m) limit small
            ∙ ap (transition_to manual_intervention t) same),
      )

  -- From a count of 0, as many failed recoveries as the limit bring the machine from
  -- RECOVERY_IN_PROGRESS or SAFE_MODE to MANUAL_INTERVENTION, with the count at 0 again.
  pub failures-manual_intervention :
      (ts : List ℕ) (t : ℕ) (m : HaStateMachine W)
      → m.recovery_attempt_count ≡ 0
      → length ts + 1 ≡ m.max_recovery_attempts
      → m.max_recovery_attempts < 2 ^ 32
      → (m.current_state ≡ recovery_in_progress) ⊎ (m.current_state ≡ safe_mode)
      → let r = report_recovery_failure t (failures ts m) in
        (r.1 ≡ true)
        × (r.0.current_state ≡ manual_intervention)
        × (r.0.previous_state ≡ m.current_state)
        × (r.0.recovery_attempt_count ≡ 0)
  unfolding transition_to is_valid_transition
  failures-manual_intervention ts t m none_yet limit small h =
      let e = (failures-limit ts t m none_yet limit small).1 in
      (ground (arith, e, h), ground (arith, e, h), ground (arith, e, h), ground (arith, e, h))

  -- In NORMAL or DEGRADED, as many failed recoveries as the limit change nothing: the transition to
  -- MANUAL_INTERVENTION is refused, the answer is false, and the count starts again at 0.
  pub failures-stay :
      (ts : List ℕ) (t : ℕ) (m : HaStateMachine W)
      → m.recovery_attempt_count ≡ 0
      → length ts + 1 ≡ m.max_recovery_attempts
      → m.max_recovery_attempts < 2 ^ 32
      → (m.current_state ≡ normal) ⊎ (m.current_state ≡ degraded)
      → report_recovery_failure t (failures ts m) ≡ (m, false)
  unfolding transition_to is_valid_transition
  failures-stay ts t m none_yet limit small h =
      let e = (failures-limit ts t m none_yet limit small).1 in ground (arith, e, h)

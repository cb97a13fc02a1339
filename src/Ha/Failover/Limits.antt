-- ===== src/Ha/Failover/Limits.antt =====
-- How many restarts the failover manager allows: each counts in a window and recovers the state from a
-- checkpoint. The source does not start a process yet.
use mxrc.Common.{
  ℕ, zero, suc, ◌^◌, ◌<◌, ◌≡◌, ◌⊎◌, inl, inr, String, true, false, Option, none, some, List, [],
  ◌∷◌, arith, if◌then◌else◌, leb, eq_refl, lookup, lookup-inserted,
}
use mxrc.Ha.Failover.{
  FailoverPolicy, FailoverManager, RestartInfo, Checkpoints, PolicyJson, is_expired, is_valid,
  count_restart, can_restart, trigger_restart, handle_process_failure, load_policy, assign_all,
  load_latest,
}

-- Neither reading is after the window.
abbrev pub IsWithin : FailoverPolicy → ℕ → ℕ × ℕ → Type 0
IsWithin p begun t = (is_expired p begun t.0 ≡ false) × (is_expired p begun t.1 ≡ false)

abbrev pub count_to : ℕ → ℕ → ℕ
count_to limit n = if leb n limit then n else limit

abbrev pub repeat : {A : Type 0} → ℕ → (A → A) → A → A
repeat zero f a = a
repeat (suc n) f a = repeat n f (f a)

module _ {W : Type 0} (c : Option (Checkpoints W)) where
  -- What one restart does to the state, under a policy.
  abbrev pub recover : FailoverPolicy → W → W
  recover p w = if p.enable_state_recovery then load_latest c w else w

  -- Failures of one process, each with the two clock readings.
  unfoldable pub failures : String → List (ℕ × ℕ) → FailoverManager W → FailoverManager W
  failures name [] m = m
  failures name ((checked, now) ∷ ts) m =
      failures name ts (handle_process_failure c name checked now m)

  module _ (p : FailoverPolicy) (small : p.max_restart_count < 2 ^ 32) where
    abbrev Counts : RestartInfo → FailoverManager W → Type 0
    Counts i m =
        (m.policy ≡ p) × (m.running ≡ true) × (lookup p.process_name m.restart_tracking ≡ some i)

  -- The first failure, or the first after the window, starts a window and counts 1 in it.
  pub failure-starts_window :
      (checked now : ℕ) (m : FailoverManager W)
      → m.running ≡ true
      → (lookup m.policy.process_name m.restart_tracking ≡ none)
        ⊎ ((i : RestartInfo) × (lookup m.policy.process_name m.restart_tracking ≡ some i)
            × (is_expired m.policy i.window_start checked ≡ true)
            × (is_expired m.policy i.window_start now ≡ true))
      → is_expired m.policy 0 now ≡ true
      → lookup m.policy.process_name
          (handle_process_failure c m.policy.process_name checked now m).restart_tracking
        ≡ some (record { count = 1; window_start = now })
  unfolding handle_process_failure can_restart trigger_restart count_restart
  failure-starts_window checked now m on h late =
      let found =
        lookup-inserted m.policy.process_name (record { count = 1; window_start = now })
          m.restart_tracking in
      let same = eq_refl m.policy.process_name in
      elim h [
        | inl fresh ↦ ground (arith, on, fresh, late, same, found)
        | inr (i, tracked, x, y) ↦ ground (arith, on, tracked, x, y, same, found)
      ]

-- Loading a policy whose restart limit is 0 answers false, but the invalid policy stays in use: once
-- a restart has been counted in a window, no failure within it changes anything.
pub load_policy-keeps_invalid :
    {W : Type 0} (c : Option (Checkpoints W)) (j : PolicyJson) (p : FailoverPolicy)
    (i : RestartInfo) (checked now : ℕ) (m : FailoverManager W)
    → assign_all j m.policy ≡ (p, true)
    → p.max_restart_count ≡ 0
    → lookup p.process_name m.restart_tracking ≡ some i
    → is_expired p i.window_start checked ≡ false
    → let r = load_policy (some j) m in
      (r.1 ≡ false)
      × (r.0.policy ≡ p)
      × (handle_process_failure c p.process_name checked now r.0 ≡ r.0)
unfolding load_policy is_valid handle_process_failure can_restart
load_policy-keeps_invalid c j p i checked now m a limit found within =
    (ground (arith, a, limit), ground (arith, a, limit), ground (arith, a, limit, found, within))

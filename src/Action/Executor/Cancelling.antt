-- ===== src/Action/Executor/Cancelling.antt =====
-- src/core/action/core/ActionExecutor.cpp: cancelling, timeouts, and the removal of what is done.
use mxrc.Common.{
  ℕ, ◌+◌, ◌≡◌, refl, String, true, false, some, List, [], ◌∷◌, ltb, length, All, lookup,
  lookup-inserted, arith, Bool-cases, inl, inr,
}
use mxrc.Action.Result.{cancelled, timed_out}
use mxrc.Action.Executor.{
  Actions, ExecutionState, ActionExecutor, publish, is_ready, cancel, monitor, elapsed_ms,
}
use mxrc.Action.Executor.Results.{
  get_result, ready_result, is_done, keep_undone, clear_completed_actions,
}

module _ {A W : Type 0} (acts : Actions A W) where
  abbrev requested : ExecutionState A → ExecutionState A
  requested s = record s { cancel_requested = true }

  cancel-there :
      (id : String) (e : ActionExecutor A W) (s : ExecutionState A)
      → lookup id e.running_actions ≡ some s
      → (lookup id (cancel acts id e).running_actions ≡ some (requested s))
        × ((cancel acts id e).ended_tasks ≡ e.ended_tasks)
  unfolding cancel publish
  cancel-there id e s there = (
    rw (cancel, there) (lookup-inserted id (requested s) e.running_actions),
    rw (cancel, there) refl,
  )

  get_result-requested :
      (id : String) (e : ActionExecutor A W) (s : ExecutionState A)
      → lookup id e.running_actions ≡ some s
      → s.exception_occurred ≡ false
      → s.cancel_requested ≡ true
      → is_ready s e ≡ true
      → acts.get_status s.action e.world ≡ cancelled
      → (get_result acts id e).status ≡ timed_out
  unfolding get_result ready_result
  get_result-requested id e s there calm asked ready status =
      rw (get_result, there, ready, ready_result, calm, asked, status) refl

  -- An action that is running or done, has not thrown, and whose cancelling through the executor
  -- leaves it CANCELLED: once its task has ended, the result says that it timed out.
  pub get_result-cancel :
      (id : String) (e : ActionExecutor A W) (s : ExecutionState A)
      → lookup id e.running_actions ≡ some s
      → s.exception_occurred ≡ false
      → is_ready s e ≡ true
      → acts.get_status s.action (cancel acts id e).world ≡ cancelled
      → (get_result acts id (cancel acts id e)).status ≡ timed_out
  unfolding is_ready
  get_result-cancel id e s there calm ready status =
      let (found, same) = cancel-there id e s there in
      get_result-requested id (cancel acts id e) (requested s) found calm refl (rw same ready)
        status

  monitor-requested :
      (id : String) (timeout start now : ℕ) (e : ActionExecutor A W) (s : ExecutionState A)
      → lookup id e.running_actions ≡ some s
      → s.cancel_requested ≡ true
      → (monitor acts id timeout start now e).0 ≡ e
  unfolding monitor
  monitor-requested id timeout start now e s there asked =
      elim (Bool-cases s.should_stop_monitoring) [
        | inl stops ↦ rw (monitor, there, stops) refl
        | inr goes ↦ elim (Bool-cases (ltb timeout (elapsed_ms start now))) [
          | inl over ↦ rw (monitor, there, goes, asked, over) refl
          | inr within ↦ rw (monitor, there, goes, within) refl
        ]
      ]

  -- After `cancel` of an action that is there, no turn of its timeout thread does anything.
  pub monitor-cancel :
      (id : String) (timeout start now : ℕ) (e : ActionExecutor A W) (s : ExecutionState A)
      → lookup id e.running_actions ≡ some s
      → (monitor acts id timeout start now (cancel acts id e)).0 ≡ cancel acts id e
  unfolding monitor
  monitor-cancel id timeout start now e s there =
      let (found, same) = cancel-there id e s there in
      monitor-requested id timeout start now (cancel acts id e) (requested s) found refl

  keep_undone-count :
      (e : ActionExecutor A W) (l : List (String × ExecutionState A))
      → ((keep_undone acts e l).1 + length (keep_undone acts e l).0 ≡ length l)
        × All (λ entry. is_done acts e entry.1 ≡ false) (keep_undone acts e l).0
  unfolding keep_undone
  keep_undone-count e [] = (omega arith, tt)
  keep_undone-count e ((id, s) ∷ rest) =
      let ih = keep_undone-count e rest in
      elim (Bool-cases (is_done acts e s)) [
        | inl done ↦ rw done (omega (arith, ih.0), ih.1)
        | inr undone ↦ rw undone (omega (arith, ih.0), (undone, ih.1))
      ]

  -- The removal keeps, in order, the actions that are not done, and counts the others.
  pub clear_completed_actions-count :
      (e : ActionExecutor A W)
      → ((clear_completed_actions acts e).1
            + length (clear_completed_actions acts e).0.running_actions
          ≡ length e.running_actions)
        × All
            (λ entry. is_done acts e entry.1 ≡ false)
            (clear_completed_actions acts e).0.running_actions
  unfolding clear_completed_actions
  clear_completed_actions-count e = keep_undone-count e e.running_actions

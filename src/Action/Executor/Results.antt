-- ===== src/Action/Executor/Results.antt =====
-- src/core/action/core/ActionExecutor.cpp: what the executor answers about an action, the blocking
-- call, and the removal of its entries.
use mxrc.Common.{
  ℕ, suc, String, Bool, false, Option, none, some, List, [], ◌∷◌, ◌&&◌, not, if◌then◌else◌, lookup,
  erase,
}
use mxrc.Action.Result.{ExecutionResult, running, failed, cancelled, timed_out, is_status}
use mxrc.Action.Executor.{
  Actions, ExecutionState, ActionExecutor, is_terminal, result_of, stop_monitors, is_ready, cancel,
}
use mxrc.Action.Executor.Starting.{Run, execute_async}

module _ {A W : Type 0} where
  unfoldable pub is_running : String → ActionExecutor A W → Bool
  is_running id e = elim (lookup id e.running_actions) [
    | none ↦ false
    | some s ↦ not (is_ready s e)
  ]

  unfoldable pub ready_result :
      Actions A W → String → ExecutionState A → ActionExecutor A W → ExecutionResult
  ready_result acts id s e =
      let status = acts.get_status s.action e.world in
      let progress = acts.get_progress s.action e.world in
      if s.exception_occurred
      then result_of id failed progress s.exception_message
      else if s.cancel_requested && is_status status cancelled
      then result_of id timed_out progress "Action exceeded timeout"
      else result_of id status progress ""

  unfoldable pub get_result : Actions A W → String → ActionExecutor A W → ExecutionResult
  get_result acts id e = elim (lookup id e.running_actions) [
    | none ↦ result_of id failed 0 "Action not found"
    | some s ↦
        if is_ready s e
        then ready_result acts id s e
        else result_of id running (acts.get_progress s.action e.world) ""
  ]

  -- The call from the start to the removal of the action; `others` is what other threads do while
  -- it waits.
  unfoldable pub execute :
      Actions A W
      → A
      → ℕ
      → Run W
      → ℕ
      → (ActionExecutor A W → ActionExecutor A W)
      → ActionExecutor A W
      → Option (ActionExecutor A W × ExecutionResult)
  execute acts a timeout run now others e = elim (execute_async acts a timeout run now e) [
    | none ↦ none
    | some (started, id) ↦
        let waited = others started in
        some (
          record waited { running_actions = erase id waited.running_actions },
          get_result acts id waited,
        )
  ]

  unfoldable pub cancel_action : Actions A W → A → ActionExecutor A W → ActionExecutor A W
  cancel_action acts a e = record e { world = acts.cancel a e.world }

  unfoldable pub is_done : Actions A W → ActionExecutor A W → ExecutionState A → Bool
  is_done acts e s = is_ready s e && is_terminal (acts.get_status s.action e.world)

  unfoldable pub keep_undone :
      Actions A W
      → ActionExecutor A W
      → List (String × ExecutionState A)
      → List (String × ExecutionState A) × ℕ
  keep_undone acts e [] = ([], 0)
  keep_undone acts e ((id, s) ∷ rest) =
      let (kept, count) = keep_undone acts e rest in
      if is_done acts e s then (kept, suc count) else ((id, s) ∷ kept, count)

  unfoldable pub clear_completed_actions : Actions A W → ActionExecutor A W → ActionExecutor A W × ℕ
  clear_completed_actions acts e =
      let (kept, count) = keep_undone acts e e.running_actions in
      (record e { running_actions = kept }, count)

  unfoldable pub cancel_all :
      Actions A W → List (String × ExecutionState A) → ActionExecutor A W → ActionExecutor A W
  cancel_all acts [] e = e
  cancel_all acts ((id, s) ∷ rest) e = cancel_all acts rest (cancel acts id e)

  -- The destructor, which cancels what runs and joins the timeout threads.
  unfoldable pub destroy : Actions A W → ActionExecutor A W → ActionExecutor A W
  destroy acts e =
      let stopped = record e { running_actions = stop_monitors e.running_actions } in
      record (cancel_all acts stopped.running_actions stopped) { running_actions = [] }

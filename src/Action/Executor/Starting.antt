-- ===== src/Action/Executor/Starting.antt =====
-- src/core/action/core/ActionExecutor.cpp: executeAsync. The new task runs beside it, and may end before
-- the executor has put it into its map.
use mxrc.Common.{ℕ, suc, String, Bool, Option, none, some, ltb, if◌then◌else◌}
use mxrc.Action.Executor.{
  Actions, ActionExecutor, action_started, publish, first_state, emplace, end_task, start_monitor,
}

-- What a new task does while executeAsync runs: whether it ends before the executor takes the mutex of
-- its map; and, where it ends within the call, what its action does to the state, the message of its
-- exception if it throws, and when it ends.
pub record Run (W : Type 0) : Type 0 where
  pub ends_first : Bool
  pub effect : W → W
  pub outcome : Option String
  pub end_time : ℕ

module _ {A W : Type 0} where
  unfoldable pub end_run : Actions A W → A → ℕ → ℕ → Run W → ActionExecutor A W → ActionExecutor A W
  end_run acts a task start run e =
      end_task acts a task start run.outcome run.end_time (record e { world = run.effect e.world })

  -- An entry that `emplace` did not take is destroyed with its future, under the mutex, which waits for
  -- the task. `none`: the task throws then, and its handler waits for the mutex: neither goes on.
  unfoldable pub drop_entry :
      Actions A W → A → ℕ → ℕ → Run W → ActionExecutor A W → Option (ActionExecutor A W)
  drop_entry acts a task start run e =
      if run.ends_first
      then some e
      else elim run.outcome [ none ↦ some (end_run acts a task start run e) | some message ↦ none ]

  unfoldable pub register :
      Actions A W → A → ℕ → ℕ → ℕ → Run W → ActionExecutor A W → Option (ActionExecutor A W)
  register acts a timeout task start run e =
      let (entries, inserted) =
        emplace (acts.get_id a) (first_state a task start timeout) e.running_actions in
      let registered = record e { running_actions = entries } in
      if inserted then some registered else drop_entry acts a task start run registered

  -- `none`: the call does not return, or the process is ended by start_monitor.
  unfoldable pub execute_async :
      Actions A W → A → ℕ → Run W → ℕ → ActionExecutor A W → Option (ActionExecutor A W × String)
  execute_async acts a timeout run now e =
      let id = acts.get_id a in
      let started = publish (action_started id (acts.get_type a)) e in
      let begun = record started { next_task = suc started.next_task } in
      let ran = if run.ends_first then end_run acts a started.next_task now run begun else begun in
      elim (register acts a timeout started.next_task now run ran) [
        | none ↦ none
        | some registered ↦
            if ltb 0 timeout
            then elim (start_monitor id registered) [ none ↦ none | some m ↦ some (m, id) ]
            else some (registered, id)
      ]

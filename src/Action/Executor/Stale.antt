-- ===== src/Action/Executor/Stale.antt =====
-- src/core/action/core/ActionExecutor.cpp: what is left of an action that nobody removes, when an
-- action with its id is executed again.
use mxrc.Common.{
  ℕ, suc, false, ◌⊎◌, ◌∙◌, ◌≡◌, refl, ap, String, true, Option, none, some, List, lookup,
  lookup-insert, arith, Option-cases, Bool-cases, inl, inr, str_eq, eq_iff,
}
use mxrc.Action.Result.{failed}
use mxrc.Action.Executor.{
  Actions, ExecutionState, ActionExecutor, publish, is_ready, emplace, end_task, note_exception,
  action_started,
}
use mxrc.Action.Executor.Starting.{Run, end_run, drop_entry, register, execute_async}
use mxrc.Action.Executor.Results.{get_result, ready_result}

note_exception-failed :
    {A : Type 0} (key message id : String) (entries : List (String × ExecutionState A))
    (s : ExecutionState A)
    → lookup id entries ≡ some s
    → s.exception_occurred ≡ true
    → (s' : ExecutionState A) × (lookup id (note_exception key message entries) ≡ some s')
      × (s'.exception_occurred ≡ true)
      × (s'.future ≡ s.future)
unfolding note_exception
note_exception-failed {A} key message id entries s there threw =
    elim (Option-cases (lookup key entries)) [
      | inl out ↦ (s, rw (note_exception, out) there, threw, refl)
      | inr (t, found) ↦ elim (Bool-cases (str_eq key id)) [
        | inl same ↦
            let names : key ≡ id = (eq_iff key id).0 same in
            let states : t ≡ s = cc in
            (
              record t { exception_occurred = true; exception_message = message },
              rw (note_exception, found, lookup-insert key id, same) refl,
              refl,
              ap (λ (u : ExecutionState A). ExecutionState.future u) states,
            )
        | inr other ↦
            (s, rw (note_exception, found, lookup-insert key id, other) there, threw, refl)
      ]
    ]

-- A new task that does not throw while executeAsync waits for it.
abbrev pub IsCalm : {W : Type 0} → Run W → Type 0
IsCalm run = (run.ends_first ≡ true) ⊎ (run.outcome ≡ none)

module _ {A W : Type 0} where
  -- The entry of an action that has thrown, whose task has ended.
  abbrev pub HasFailed : String → ActionExecutor A W → Type 0
  HasFailed id e =
      (s : ExecutionState A) × (lookup id e.running_actions ≡ some s)
      × (s.exception_occurred ≡ true)
      × (is_ready s e ≡ true)

  module _ (acts : Actions A W) where
    pub get_result-failed :
        (id : String) (e : ActionExecutor A W)
        → HasFailed id e
        → (get_result acts id e).status ≡ failed
    unfolding get_result ready_result
    get_result-failed id e (s, there, threw, ready) =
        rw (get_result, there, ready, ready_result, threw) refl

    pub end_task-HasFailed :
        (a : A) (task start : ℕ) (outcome : Option String) (now : ℕ) (id : String)
        (e : ActionExecutor A W)
        → HasFailed id e
        → HasFailed id (end_task acts a task start outcome now e)
    unfolding end_task publish is_ready
    end_task-HasFailed a task start none now id e (s, there, threw, ready) =
        (s, there, threw, ground (arith, ready))
    end_task-HasFailed a task start (some message) now id e (s, there, threw, ready) =
        let (s', there', threw', same) =
          note_exception-failed (acts.get_id a) message id e.running_actions s there threw in
        (s', there', threw', ground (arith, ready, same))

    register-there :
        (a : A) (timeout task start : ℕ) (run : Run W) (e : ActionExecutor A W)
        (s : ExecutionState A)
        → lookup (acts.get_id a) e.running_actions ≡ some s
        → register acts a timeout task start run e ≡ drop_entry acts a task start run e
    unfolding register emplace
    register-there a timeout task start run e s there = rw (emplace, there) refl

    end_run-HasFailed :
        (a : A) (task start : ℕ) (run : Run W) (id : String) (e : ActionExecutor A W)
        → HasFailed id e
        → HasFailed id (end_run acts a task start run e)
    unfolding end_run is_ready
    end_run-HasFailed a task start run id e h =
        end_task-HasFailed a task start run.outcome run.end_time id
          (record e { world = run.effect e.world }) h

    register-HasFailed :
        (a : A) (timeout task start : ℕ) (run : Run W) (e : ActionExecutor A W)
        → IsCalm run
        → HasFailed (acts.get_id a) e
        → (e' : ActionExecutor A W) × (register acts a timeout task start run e ≡ some e')
          × HasFailed (acts.get_id a) e'
    unfolding drop_entry
    register-HasFailed a timeout task start run e calm h =
        let same = register-there a timeout task start run e h.0 h.1 in
        elim (Bool-cases run.ends_first) [
          | inl first ↦ (e, same ∙ rw (drop_entry, first) refl, h)
          | inr later ↦
              let ends : run.outcome ≡ none = elim calm [
                | inl first ↦ absurd (ground (arith, first, later))
                | inr ends ↦ ends
              ] in
              (
                end_run acts a task start run e,
                same ∙ simp (drop_entry, later, ends) refl,
                end_run-HasFailed a task start run (acts.get_id a) e h,
              )
        ]

    pub execute_async-HasFailed :
        (a : A) (run : Run W) (now : ℕ) (e : ActionExecutor A W)
        → IsCalm run
        → HasFailed (acts.get_id a) e
        → (e' : ActionExecutor A W) × (execute_async acts a 0 run now e ≡ some (e', acts.get_id a))
          × HasFailed (acts.get_id a) e'
    unfolding execute_async publish is_ready
    execute_async-HasFailed a run now e calm h =
        let begun : ActionExecutor A W = record e {
          next_task = suc e.next_task;
          world = (publish (action_started (acts.get_id a) (acts.get_type a)) e).world;
        } in
        let there : HasFailed (acts.get_id a) begun = h in
        elim (Bool-cases run.ends_first) [
          | inl first ↦
              let ran = end_run acts a e.next_task now run begun in
              let (over, registered, still) =
                register-HasFailed a 0 e.next_task now run ran calm
                  (end_run-HasFailed a e.next_task now run (acts.get_id a) begun there) in
              (over, simp (execute_async, first, registered) refl, still)
          | inr later ↦
              let (over, registered, still) =
                register-HasFailed a 0 e.next_task now run begun calm there in
              (over, simp (execute_async, later, registered) refl, still)
        ]

    -- Where the map has an entry with the id of an action, and the new task of the action throws while
    -- executeAsync waits for it under the mutex, the call does not return.
    pub execute_async-hangs :
        (a : A) (timeout : ℕ) (run : Run W) (now : ℕ) (message : String) (e : ActionExecutor A W)
        (s : ExecutionState A)
        → lookup (acts.get_id a) e.running_actions ≡ some s
        → run.ends_first ≡ false
        → run.outcome ≡ some message
        → execute_async acts a timeout run now e ≡ none
    unfolding execute_async publish drop_entry
    execute_async-hangs a timeout run now message e s there later throws =
        let begun : ActionExecutor A W = record e {
          next_task = suc e.next_task;
          world = (publish (action_started (acts.get_id a) (acts.get_type a)) e).world;
        } in
        let stuck : register acts a timeout e.next_task now run begun ≡ none =
          register-there a timeout e.next_task now run begun s there
          ∙ rw (drop_entry, later, throws) refl in
        simp (execute_async, later, stuck) refl

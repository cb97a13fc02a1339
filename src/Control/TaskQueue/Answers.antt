-- ===== src/Control/TaskQueue/Answers.antt =====
-- What a task queue answers, against a search through the tasks that wait.
use mxrc.Common.{
  ℕ, ◌+◌, ◌≤◌, ◌≡◌, refl, inl, inr, String, Option, none, some, List, ◌++◌, arith, ltb, not, lookup,
  Option-cases,
}
use mxrc.Control.Priority.{Priority}
use mxrc.Control.Lanes.{lane, to_list}
use mxrc.Control.TaskQueue.{TaskQueue, new, enqueue, remove, get_all_tasks}
use mxrc.Control.TaskQueue.Agreement.{expected, occurs, occurs-append, Agrees}
use mxrc.Control.TaskQueue.Runs.{Call, run, run-Agrees, remove_from-found}

-- 1 for an identifier that has an entry in the map.
abbrev listed : Option Priority → ℕ
listed none = 0
listed (some p) = 1

once_listed :
    (x : Option Priority)
    → expected Priority.emergency_stop x
        + (expected Priority.safety_issue x
            + (expected Priority.urgent_task x
                + (expected Priority.normal_task x + expected Priority.maintenance x)))
      ≡ listed x
once_listed none = refl
once_listed (some Priority.emergency_stop) = refl
once_listed (some Priority.safety_issue) = refl
once_listed (some Priority.urgent_task) = refl
once_listed (some Priority.normal_task) = refl
once_listed (some Priority.maintenance) = refl

module _ {T : Type 0} (get_id : T → String) where
  -- How often all five queues together hold an identifier.
  abbrev pub waiting : String → TaskQueue T → ℕ
  waiting id q = occurs get_id id (get_all_tasks q)

  waiting-listed :
      (id : String) (q : TaskQueue T)
      → Agrees get_id q
      → waiting id q ≡ listed (lookup id q.task_priority_map)
  unfolding get_all_tasks to_list lane
  waiting-listed id q h =
      let l = q.tasks in
      omega (
        arith,
        occurs-append get_id id l.emergency_stop
            (l.safety_issue ++ (l.urgent_task ++ (l.normal_task ++ l.maintenance))),
        occurs-append get_id id l.safety_issue (l.urgent_task ++ (l.normal_task ++ l.maintenance)),
        occurs-append get_id id l.urgent_task (l.normal_task ++ l.maintenance),
        occurs-append get_id id l.normal_task l.maintenance,
        h Priority.emergency_stop id,
        h Priority.safety_issue id,
        h Priority.urgent_task id,
        h Priority.normal_task id,
        h Priority.maintenance id,
        once_listed (lookup id q.task_priority_map),
      )

  remove-answer :
      (id : String) (q : TaskQueue T)
      → Agrees get_id q
      → (remove get_id id q).1 ≡ ltb 0 (waiting id q)
  unfolding remove
  remove-answer id q h = elim (Option-cases (lookup id q.task_priority_map)) [
    | inl e ↦ rw (remove, e, waiting-listed id q h, e) refl
    | inr (p, e) ↦
        let once = h p id in
        rw (remove, e, waiting-listed id q h, e)
          (ground (arith, e, once, remove_from-found get_id id (lane p q.tasks)))
  ]

  enqueue-answer :
      (t : T) (p : Priority) (q : TaskQueue T)
      → Agrees get_id q
      → (enqueue get_id t p q).1 ≡ not (ltb 0 (waiting (get_id t) q))
  unfolding enqueue
  enqueue-answer t p q h = elim (Option-cases (lookup (get_id t) q.task_priority_map)) [
    | inl e ↦ rw (enqueue, e, waiting-listed (get_id t) q h, e) refl
    | inr (x, e) ↦ rw (enqueue, e, waiting-listed (get_id t) q h, e) refl
  ]

  at_most_once : (id : String) (q : TaskQueue T) → Agrees get_id q → waiting id q ≤ 1
  at_most_once id q h = elim (Option-cases (lookup id q.task_priority_map)) [
    | inl e ↦ ground (arith, e, waiting-listed id q h)
    | inr (x, e) ↦ ground (arith, e, waiting-listed id q h)
  ]

  -- After every sequence of calls on a new queue: no identifier waits twice; `enqueue` accepts a task
  -- exactly if a search through all waiting tasks does not find its identifier; and `remove` answers
  -- true exactly if the search finds the identifier.
  pub run-answers :
      (calls : List (Call T)) (t : T) (p : Priority) (id : String)
      → (waiting id (run get_id new calls) ≤ 1)
        × ((enqueue get_id t p (run get_id new calls)).1
            ≡ not (ltb 0 (waiting (get_id t) (run get_id new calls))))
        × ((remove get_id id (run get_id new calls)).1 ≡ ltb 0 (waiting id (run get_id new calls)))
  run-answers calls t p id =
      let h = run-Agrees get_id calls in
      (
        at_most_once id (run get_id new calls) h,
        enqueue-answer t p (run get_id new calls) h,
        remove-answer id (run get_id new calls) h,
      )

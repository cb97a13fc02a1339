-- ===== src/Control/TaskQueue/Tests.antt =====
-- Runs of a task queue whose tasks are their own identifiers.
use mxrc.Common.{◌≡◌, ◌≤◌, refl, String, List, [], ◌∷◌, some, ltb, not, lookup, insert}
use mxrc.Control.Priority.{normal_task, urgent_task, emergency_stop}
use mxrc.Control.Lanes
use mxrc.Control.Lanes.{lane, set_lane, push_back, to_list}
use mxrc.Control.TaskQueue.{new, enqueue, remove, get_all_tasks, peek, remove_from}
use mxrc.Control.TaskQueue.Agreement.{Agrees}
use mxrc.Control.TaskQueue.Runs.{Call, enqueues, removes, run, step, run-Agrees}
use mxrc.Control.TaskQueue.Answers.{waiting, run-answers}

abbrev self : String → String
self id = id

abbrev calls : List (Call String)
calls =
    enqueues "scan" normal_task
    ∷ enqueues "lift" urgent_task
    ∷ enqueues "scan" emergency_stop
    ∷ enqueues "park" normal_task
    ∷ removes "lift"
    ∷ []

order_lem : get_all_tasks (run self new calls) ≡ "scan" ∷ "park" ∷ []
unfolding get_all_tasks to_list run step remove lookup enqueue new insert set_lane push_back
    Lanes.empty remove_from
order_lem = refl

peek_lem : peek (run self new calls) ≡ some "scan"
unfolding peek run step remove lookup enqueue new insert set_lane push_back Lanes.empty remove_from
peek_lem = refl

run-Agrees_example : Agrees self (run self new calls)
run-Agrees_example = run-Agrees self calls

run-answers_example :
    (waiting self "scan" (run self new calls) ≤ 1)
    × ((enqueue self "lift" urgent_task (run self new calls)).1
        ≡ not (ltb 0 (waiting self "lift" (run self new calls))))
    × ((remove self "scan" (run self new calls)).1
        ≡ ltb 0 (waiting self "scan" (run self new calls)))
run-answers_example = run-answers self calls "lift" urgent_task "scan"

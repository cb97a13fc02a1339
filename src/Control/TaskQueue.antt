-- ===== src/Control/TaskQueue.antt =====
-- src/core/control/impl/TaskQueue.{h,cpp}: five queues of tasks, and a map from the identifier of each
-- waiting task to its priority. `T` stands for the references to tasks, whose identifier is fixed.
pub mod Agreement
pub mod Runs
pub mod Answers
pub mod Tests
use mxrc.Common.{
  ℕ, String, Bool, true, false, Option, none, some, List, [], ◌∷◌, if◌then◌else◌, str_eq, lookup,
  insert, erase, head?,
}
use mxrc.Control.Priority.{Priority}
use mxrc.Control.Lanes
use mxrc.Control.Lanes.{Lanes, lane, set_lane, push_back, pop_front, to_list}

pub record TaskQueue (T : Type 0) : Type 0 where
  pub tasks : Lanes T
  pub task_priority_map : List (String × Priority)

module _ {T : Type 0} where
  unfoldable pub new : TaskQueue T
  new = record { tasks = Lanes.empty; task_priority_map = [] }

  -- The removal of the first task with an identifier from one queue.
  unfoldable pub remove_from : (T → String) → String → List T → List T × Bool
  remove_from get_id id [] = ([], false)
  remove_from get_id id (t ∷ rest) =
      let (kept, removed) = remove_from get_id id rest in
      if str_eq (get_id t) id then (rest, true) else (t ∷ kept, removed)

  unfoldable pub enqueue : (T → String) → T → Priority → TaskQueue T → TaskQueue T × Bool
  enqueue get_id t p q = elim (lookup (get_id t) q.task_priority_map) [
    | some old ↦ (q, false)
    | none ↦ (
      record {
        tasks = push_back p t q.tasks;
        task_priority_map = insert (get_id t) p q.task_priority_map;
      },
      true,
    )
  ]

  unfoldable pub dequeue : (T → String) → TaskQueue T → TaskQueue T × Option T
  dequeue get_id q = elim (pop_front q.tasks) [
    | none ↦ (q, none)
    | some (t, rest) ↦
        (record { tasks = rest; task_priority_map = erase (get_id t) q.task_priority_map }, some t)
  ]

  unfoldable pub is_empty_queue : TaskQueue T → Bool
  is_empty_queue q = Lanes.all_empty q.tasks

  unfoldable pub size : TaskQueue T → ℕ
  size q = Lanes.size q.tasks

  unfoldable pub clear : TaskQueue T → TaskQueue T
  clear q = new

  unfoldable pub remove : (T → String) → String → TaskQueue T → TaskQueue T × Bool
  remove get_id id q = elim (lookup id q.task_priority_map) [
    | none ↦ (q, false)
    | some p ↦
        let (kept, removed) = remove_from get_id id (lane p q.tasks) in
        (
          record {
            tasks = set_lane p kept q.tasks;
            task_priority_map =
                if removed then erase id q.task_priority_map else q.task_priority_map;
          },
          removed,
        )
  ]

  unfoldable pub get_all_tasks : TaskQueue T → List T
  get_all_tasks q = to_list q.tasks

  unfoldable pub peek : TaskQueue T → Option T
  peek q = elim (head? q.tasks.emergency_stop) [
    | some t ↦ some t
    | none ↦ elim (head? q.tasks.safety_issue) [
      | some t ↦ some t
      | none ↦ elim (head? q.tasks.urgent_task) [
        | some t ↦ some t
        | none ↦ elim (head? q.tasks.normal_task) [
          | some t ↦ some t
          | none ↦ head? q.tasks.maintenance
        ]
      ]
    ]
  ]

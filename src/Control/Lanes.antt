-- ===== src/Control/Lanes.antt =====
-- Five first-in-first-out queues, one for each priority, and the search through them from the
-- highest priority to the lowest. BehaviorPriorityQueue and TaskQueue of src/core/control/impl
-- both keep their entries so.
pub mod Order
pub mod Pop
use mxrc.Common.{Option, none, some, List, [], ◌∷◌, ◌++◌, ◌+◌, ℕ, length, Bool, is_empty, ◌&&◌}
use mxrc.Control.Priority.{Priority}

pub record Lanes {ℓ} (A : Type ℓ) : Type ℓ where
  pub emergency_stop : List A
  pub safety_issue : List A
  pub urgent_task : List A
  pub normal_task : List A
  pub maintenance : List A

module _ {ℓ} {A : Type ℓ} where
  unfoldable pub empty : Lanes A
  empty = record {
    emergency_stop = [];
    safety_issue = [];
    urgent_task = [];
    normal_task = [];
    maintenance = [];
  }

  -- The queue that a priority selects, and the lanes with that queue replaced.
  unfoldable pub lane : Priority → Lanes A → List A
  lane Priority.emergency_stop q = q.emergency_stop
  lane Priority.safety_issue q = q.safety_issue
  lane Priority.urgent_task q = q.urgent_task
  lane Priority.normal_task q = q.normal_task
  lane Priority.maintenance q = q.maintenance

  unfoldable pub set_lane : Priority → List A → Lanes A → Lanes A
  set_lane Priority.emergency_stop l q = record q { emergency_stop = l }
  set_lane Priority.safety_issue l q = record q { safety_issue = l }
  set_lane Priority.urgent_task l q = record q { urgent_task = l }
  set_lane Priority.normal_task l q = record q { normal_task = l }
  set_lane Priority.maintenance l q = record q { maintenance = l }

  unfoldable pub push_back : Priority → A → Lanes A → Lanes A
  unfolding lane set_lane
  push_back p a q = set_lane p (lane p q ++ a ∷ []) q

  -- The first entry of one queue, and what stays in it.
  unfoldable pub try_pop : List A → Option (A × List A)
  try_pop [] = none
  try_pop (a ∷ rest) = some (a, rest)

  unfoldable pub pop_front : Lanes A → Option (A × Lanes A)
  unfolding try_pop
  pop_front q = elim (try_pop q.emergency_stop) [
    | some (a, rest) ↦ some (a, record q { emergency_stop = rest })
    | none ↦ elim (try_pop q.safety_issue) [
      | some (a, rest) ↦ some (a, record q { safety_issue = rest })
      | none ↦ elim (try_pop q.urgent_task) [
        | some (a, rest) ↦ some (a, record q { urgent_task = rest })
        | none ↦ elim (try_pop q.normal_task) [
          | some (a, rest) ↦ some (a, record q { normal_task = rest })
          | none ↦ elim (try_pop q.maintenance) [
            | some (a, rest) ↦ some (a, record q { maintenance = rest })
            | none ↦ none
          ]
        ]
      ]
    ]
  ]

  -- All entries, in the order in which they leave.
  unfoldable pub to_list : Lanes A → List A
  to_list q =
      q.emergency_stop ++ (q.safety_issue ++ (q.urgent_task ++ (q.normal_task ++ q.maintenance)))

  unfoldable pub size : Lanes A → ℕ
  size q =
      length q.emergency_stop
      + length q.safety_issue
      + length q.urgent_task
      + length q.normal_task
      + length q.maintenance

  unfoldable pub all_empty : Lanes A → Bool
  all_empty q =
      is_empty q.emergency_stop
      && is_empty q.safety_issue
      && is_empty q.urgent_task
      && is_empty q.normal_task
      && is_empty q.maintenance

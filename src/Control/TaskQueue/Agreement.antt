-- ===== src/Control/TaskQueue/Agreement.antt =====
-- The map of a task queue against its five queues.
use mxrc.Common.{
  ℕ, ◌+◌, ◌≡◌, refl, sym, ap, ◌∙◌, inl, inr, String, Bool, Option, none, some, List, [], ◌∷◌, ◌++◌,
  arith, if◌then◌else◌, ◌==◌, str_eq, lookup, insert, erase, lookup-insert, lookup-erase,
  Bool-cases, Option-cases, eq_iff,
}
use mxrc.Control.Priority.{Priority, rank}
use mxrc.Control.Lanes.{Lanes, lane, set_lane, pop_front}
use mxrc.Control.TaskQueue.{TaskQueue}

-- 1 where a test holds.
abbrev pub one : Bool → ℕ
one b = if b then 1 else 0

-- How often a queue holds an identifier whose entry in the map this is.
abbrev pub expected : Priority → Option Priority → ℕ
expected p none = 0
expected p (some r) = one (rank p == rank r)

module _ {T : Type 0} where
  pub lane-set_lane :
      (p r : Priority) (l : List T) (q : Lanes T)
      → lane r (set_lane p l q) ≡ (if rank r == rank p then l else lane r q)
  unfolding lane set_lane
  lane-set_lane Priority.emergency_stop Priority.emergency_stop l q = refl
  lane-set_lane Priority.emergency_stop Priority.safety_issue l q = refl
  lane-set_lane Priority.emergency_stop Priority.urgent_task l q = refl
  lane-set_lane Priority.emergency_stop Priority.normal_task l q = refl
  lane-set_lane Priority.emergency_stop Priority.maintenance l q = refl
  lane-set_lane Priority.safety_issue Priority.emergency_stop l q = refl
  lane-set_lane Priority.safety_issue Priority.safety_issue l q = refl
  lane-set_lane Priority.safety_issue Priority.urgent_task l q = refl
  lane-set_lane Priority.safety_issue Priority.normal_task l q = refl
  lane-set_lane Priority.safety_issue Priority.maintenance l q = refl
  lane-set_lane Priority.urgent_task Priority.emergency_stop l q = refl
  lane-set_lane Priority.urgent_task Priority.safety_issue l q = refl
  lane-set_lane Priority.urgent_task Priority.urgent_task l q = refl
  lane-set_lane Priority.urgent_task Priority.normal_task l q = refl
  lane-set_lane Priority.urgent_task Priority.maintenance l q = refl
  lane-set_lane Priority.normal_task Priority.emergency_stop l q = refl
  lane-set_lane Priority.normal_task Priority.safety_issue l q = refl
  lane-set_lane Priority.normal_task Priority.urgent_task l q = refl
  lane-set_lane Priority.normal_task Priority.normal_task l q = refl
  lane-set_lane Priority.normal_task Priority.maintenance l q = refl
  lane-set_lane Priority.maintenance Priority.emergency_stop l q = refl
  lane-set_lane Priority.maintenance Priority.safety_issue l q = refl
  lane-set_lane Priority.maintenance Priority.urgent_task l q = refl
  lane-set_lane Priority.maintenance Priority.normal_task l q = refl
  lane-set_lane Priority.maintenance Priority.maintenance l q = refl

  -- What `pop_front` takes is the head of one queue.
  abbrev pub TakesHead : Lanes T → Option (T × Lanes T) → Type 0
  TakesHead q none = Unit
  TakesHead q (some (t, rest)) =
      (p : Priority) × (l : List T) × (lane p q ≡ t ∷ l) × (rest ≡ set_lane p l q)

  takes :
      (es si ur nt ma : List T)
      → let q : Lanes T = record {
        emergency_stop = es;
        safety_issue = si;
        urgent_task = ur;
        normal_task = nt;
        maintenance = ma;
      } in
        TakesHead q (pop_front q)
  unfolding pop_front lane set_lane
  takes (t ∷ es) si ur nt ma = (Priority.emergency_stop, es, refl, refl)
  takes [] (t ∷ si) ur nt ma = (Priority.safety_issue, si, refl, refl)
  takes [] [] (t ∷ ur) nt ma = (Priority.urgent_task, ur, refl, refl)
  takes [] [] [] (t ∷ nt) ma = (Priority.normal_task, nt, refl, refl)
  takes [] [] [] [] (t ∷ ma) = (Priority.maintenance, ma, refl, refl)
  takes [] [] [] [] [] = tt

  pub pop_front-TakesHead : (q : Lanes T) → TakesHead q (pop_front q)
  pop_front-TakesHead q =
      takes q.emergency_stop q.safety_issue q.urgent_task q.normal_task q.maintenance

  module _ (get_id : T → String) where
    abbrev pub occurs : String → List T → ℕ
    occurs id [] = 0
    occurs id (t ∷ rest) = one (str_eq (get_id t) id) + occurs id rest

    pub occurs-append :
        (id : String) (l r : List T) → occurs id (l ++ r) ≡ occurs id l + occurs id r
    occurs-append id [] r = ground arith
    occurs-append id (t ∷ l) r = ground (arith, occurs-append id l r)

    -- Each queue holds an identifier once if the map gives it that priority, and not otherwise.
    abbrev pub Agrees : TaskQueue T → Type 0
    Agrees q =
        (p : Priority) (id : String)
        → occurs id (lane p q.tasks) ≡ expected p (lookup id q.task_priority_map)

    pub add-Agrees :
        (p : Priority) (id : String) (l : List T) (q : TaskQueue T)
        → lookup id q.task_priority_map ≡ none
        → ((k : String) → occurs k l ≡ occurs k (lane p q.tasks) + one (str_eq id k))
        → Agrees q
        → Agrees (record {
          tasks = set_lane p l q.tasks;
          task_priority_map = insert id p q.task_priority_map;
        })
    add-Agrees p id l q fresh more agrees r k =
        let there = ap (occurs k) (lane-set_lane p r l q.tasks) in
        let found = lookup-insert id k p q.task_priority_map in
        elim (Bool-cases (str_eq id k)) [
          | inl same ↦
              let none_yet =
                ap (λ (x : String). lookup x q.task_priority_map) (sym ((eq_iff id k).0 same))
                ∙ fresh in
              elim (Bool-cases (rank r == rank p)) [
                | inl here ↦ ground (arith, there, here, found, same, more k, agrees p k, none_yet)
                | inr far ↦ ground (arith, there, far, found, same, agrees r k, none_yet)
              ]
          | inr other ↦ elim (Bool-cases (rank r == rank p)) [
            | inl here ↦ ground (arith, there, here, found, other, more k, agrees p k)
            | inr far ↦ ground (arith, there, far, found, other, agrees r k)
          ]
        ]

    pub drop-Agrees :
        (p : Priority) (id : String) (l : List T) (q : TaskQueue T)
        → ((k : String) → occurs k (lane p q.tasks) ≡ one (str_eq id k) + occurs k l)
        → Agrees q
        → Agrees (record {
          tasks = set_lane p l q.tasks;
          task_priority_map = erase id q.task_priority_map;
        })
    drop-Agrees p id l q less agrees r k =
        let there = ap (occurs k) (lane-set_lane p r l q.tasks) in
        let found = lookup-erase id k q.task_priority_map in
        elim (Option-cases (lookup k q.task_priority_map)) [
          | inl e ↦ ground (arith, there, found, e, less k, agrees p k, agrees r k)
          | inr (x, e) ↦ ground (arith, there, found, e, less k, agrees p k, agrees r k)
        ]

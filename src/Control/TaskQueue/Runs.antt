-- ===== src/Control/TaskQueue/Runs.antt =====
-- Runs of calls on a task queue, in the order in which its mutex lets them in.
use mxrc.Common.{
  ◌+◌, ◌≡◌, refl, ap, inl, inr, String, true, List, [], ◌∷◌, ◌++◌, arith, ltb, str_eq, lookup,
  Bool-cases, Option-cases, eq_iff, subst,
}
use mxrc.Control.Priority.{Priority}
use mxrc.Control.Lanes
use mxrc.Control.Lanes.{lane, set_lane, push_back, pop_front, to_list}
use mxrc.Control.TaskQueue.{TaskQueue, new, enqueue, dequeue, remove, clear, remove_from}
use mxrc.Control.TaskQueue.Agreement.{
  one, occurs, occurs-append, Agrees, add-Agrees, drop-Agrees, TakesHead, pop_front-TakesHead,
}

pub data Call (T : Type 0) : Type 0 where
  enqueues : T → Priority → Call T
  removes : String → Call T
  dequeues clears : Call T

module _ {T : Type 0} (get_id : T → String) where
  unfoldable pub step : TaskQueue T → Call T → TaskQueue T
  step q (enqueues t p) = (enqueue get_id t p q).0
  step q (removes id) = (remove get_id id q).0
  step q dequeues = (dequeue get_id q).0
  step q clears = clear q

  unfoldable pub run : TaskQueue T → List (Call T) → TaskQueue T
  run q [] = q
  run q (call ∷ calls) = run (step q call) calls

  new-Agrees : Agrees get_id new
  unfolding new Lanes.empty lane lookup
  new-Agrees Priority.emergency_stop id = refl
  new-Agrees Priority.safety_issue id = refl
  new-Agrees Priority.urgent_task id = refl
  new-Agrees Priority.normal_task id = refl
  new-Agrees Priority.maintenance id = refl

  -- A removal from a queue takes one task with the identifier, if there is one.
  remove_from-occurs :
      (id k : String) (l : List T)
      → (remove_from get_id id l).1 ≡ true
      → occurs get_id k l ≡ one (str_eq id k) + occurs get_id k (remove_from get_id id l).0
  unfolding remove_from
  remove_from-occurs id k [] e = absurd (ground (arith, e))
  remove_from-occurs id k (t ∷ rest) e = elim (Bool-cases (str_eq (get_id t) id)) [
    | inl same ↦ ground (arith, same, eq_iff (get_id t) id)
    | inr other ↦ ground (arith, other, remove_from-occurs id k rest)
  ]

  pub remove_from-found :
      (id : String) (l : List T) → (remove_from get_id id l).1 ≡ ltb 0 (occurs get_id id l)
  unfolding remove_from
  remove_from-found id [] = refl
  remove_from-found id (t ∷ rest) = ground (arith, remove_from-found id rest)

  enqueue-Agrees :
      (t : T) (p : Priority) (q : TaskQueue T)
      → Agrees get_id q
      → Agrees get_id (enqueue get_id t p q).0
  unfolding enqueue push_back
  enqueue-Agrees t p q h = elim (Option-cases (lookup (get_id t) q.task_priority_map)) [
    | inl e ↦
        rw (enqueue, e)
          (add-Agrees get_id p (get_id t) (lane p q.tasks ++ t ∷ []) q e
            (λ k. omega (arith, occurs-append get_id k (lane p q.tasks) (t ∷ []))) h)
    | inr (x, e) ↦ rw (enqueue, e) h
  ]

  dequeue-Agrees : (q : TaskQueue T) → Agrees get_id q → Agrees get_id (dequeue get_id q).0
  unfolding dequeue
  dequeue-Agrees q h = elim (Option-cases (pop_front q.tasks)) [
    | inl e ↦ rw (dequeue, e) h
    | inr ((t, rest), e) ↦
        let (p, l, head, left) = subst (TakesHead q.tasks) e (pop_front-TakesHead q.tasks) in
        rw (dequeue, e, left)
          (drop-Agrees get_id p (get_id t) l q (λ k. ap (occurs get_id k) head) h)
  ]

  remove-Agrees :
      (id : String) (q : TaskQueue T) → Agrees get_id q → Agrees get_id (remove get_id id q).0
  unfolding remove
  remove-Agrees id q h = elim (Option-cases (lookup id q.task_priority_map)) [
    | inl e ↦ rw (remove, e) h
    | inr (p, e) ↦
        let once = h p id in
        let found : (remove_from get_id id (lane p q.tasks)).1 ≡ true =
          ground (arith, e, once, remove_from-found id (lane p q.tasks)) in
        rw (remove, e, found)
          (drop-Agrees get_id p id (remove_from get_id id (lane p q.tasks)).0 q
            (λ k. remove_from-occurs id k (lane p q.tasks) found) h)
  ]

  step-Agrees : (q : TaskQueue T) (c : Call T) → Agrees get_id q → Agrees get_id (step q c)
  unfolding step clear
  step-Agrees q (enqueues t p) h = enqueue-Agrees t p q h
  step-Agrees q (removes id) h = remove-Agrees id q h
  step-Agrees q dequeues h = dequeue-Agrees q h
  step-Agrees q clears h = new-Agrees

  run_from :
      (calls : List (Call T)) (q : TaskQueue T) → Agrees get_id q → Agrees get_id (run q calls)
  unfolding run
  run_from [] q h = h
  run_from (call ∷ calls) q h = run_from calls (step q call) (step-Agrees q call h)

  -- After every sequence of calls on a new queue, and for every priority and identifier: the queue of
  -- that priority holds the identifier exactly once if the map gives the identifier that priority,
  -- and not at all otherwise.
  pub run-Agrees : (calls : List (Call T)) → Agrees get_id (run new calls)
  run-Agrees calls = run_from calls new new-Agrees

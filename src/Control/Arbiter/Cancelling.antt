-- ===== src/Control/Arbiter/Cancelling.antt =====
-- src/core/control/impl/BehaviorArbiter.cpp: cancelBehavior.
use mxrc.Common.{
  ◌≡◌, ◌⊎◌, String, true, false, none, some, arith, lookup, lookup-erase, eq_refl, str_eq,
}
use mxrc.Control.Request.{BehaviorRequest}
use mxrc.Control.Objects.{Env}
use mxrc.Control.Arbiter.{Arbiter, stop_current_task}
use mxrc.Control.Arbiter.Tick.{cancel_behavior}

module _ {W : Type 0} (env : Env W) where
  -- `cancelBehavior` knows the running task and the suspended requests only: one that waits in the
  -- queue is not found, and stays.
  pub cancel-not_found :
      (s : Arbiter W) (id : String) (c : BehaviorRequest)
      → (s.current_behavior ≡ none)
        ⊎ ((s.current_behavior ≡ some c) × (str_eq c.behavior_id id ≡ false))
      → lookup id s.suspended_behaviors ≡ none
      → cancel_behavior env id s ≡ (s, false)
  unfolding cancel_behavior
  cancel-not_found s id c h n = ground arith

  -- What a successful cancellation removed is gone: the running task, which was told to stop, or
  -- else the suspended request of that name. The queue and the mode stay.
  pub cancel-removes :
      (s : Arbiter W) (id : String)
      → (cancel_behavior env id s).1 ≡ true
      → let t = (cancel_behavior env id s).0 in
        (t.pending_behaviors ≡ s.pending_behaviors)
        × (t.current_mode ≡ s.current_mode)
        × ((t.current_behavior ≡ none)
            ⊎ ((t.current_behavior ≡ s.current_behavior)
                × (lookup id t.suspended_behaviors ≡ none)))
  unfolding cancel_behavior stop_current_task
  cancel-removes s id h = ground (arith, lookup-erase id id s.suspended_behaviors, eq_refl id)

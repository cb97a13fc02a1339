-- ===== src/Control/Objects/Observed.antt =====
-- An observer of the objects of src/core/control/impl/BehaviorArbiter.cpp: it passes every call on, and
-- writes down the transitions that go to the data store and the tasks that are started or resumed.
use mxrc.Common.{ℕ, String, List, ◌∷◌, if◌then◌else◌, str_eq}
use mxrc.Control.Objects.{Env, StoreValue}

-- A call that sets a task going.
pub data Begun : Type 0 where
  started resumed : ℕ → Begun

-- The newest entry stands first.
pub record Observed (W : Type 0) : Type 0 where
  pub inner : W
  pub history : List StoreValue
  pub begun : List Begun

module _ {W : Type 0} where
  unfoldable pub note_set : String → StoreValue → W → Observed W → Observed W
  note_set key value w o = record {
    inner = w;
    history = if str_eq key "control/mode_transition_history" then value ∷ o.history else o.history;
    begun = o.begun;
  }

  -- The interface with the observer in between.
  unfoldable pub observed : Env W → Env (Observed W)
  observed env = record {
    task_start = λ t o. record o { inner = env.task_start t o.inner; begun = started t ∷ o.begun };
    task_stop = λ t o. record o { inner = env.task_stop t o.inner };
    task_pause = λ t o. record o { inner = env.task_pause t o.inner };
    task_resume =
        λ t o. record o { inner = env.task_resume t o.inner; begun = resumed t ∷ o.begun };
    task_status = λ t o. env.task_status t o.inner;
    task_id = env.task_id;
    has_critical_alarm = λ o. env.has_critical_alarm o.inner;
    has_warning_alarm = λ o. env.has_warning_alarm o.inner;
    data_store = env.data_store;
    store_set = λ key value type o.
        let (w, done) = env.store_set key value type o.inner in (note_set key value w o, done);
  }

-- ===== src/Action/Executor.antt =====
-- src/core/action/core/ActionExecutor.{h,cpp}: actions run in tasks of their own. `A` stands for the
-- references to actions, `W` for the state behind the actions and the event bus. A task is a number;
-- what it does to `W` is not a step of the executor, only its end is. Times are nanoseconds of the
-- steady clock, timeouts are milliseconds.
pub mod Results
pub mod Stale
pub mod Cancelling
pub mod Starting
use mxrc.Common.{
  ℕ, suc, ◌+◌, ◌-◌, ◌/◌, String, Bool, true, false, Option, none, some, List, [], ◌∷◌, ◌&&◌, ◌||◌,
  not, ◌==◌, ltb, if◌then◌else◌, lookup, insert, erase,
}
use mxrc.Action.Result as Result
use mxrc.Action.Result.{
  ActionStatus, ExecutionResult, running, completed, failed, cancelled, timed_out, is_status,
}

-- IAction.h.
pub record Actions (A W : Type 0) : Type 0 where
  pub get_id : A → String
  pub get_type : A → String
  pub get_status : A → W → ActionStatus
  pub get_progress : A → W → ℕ
  pub cancel : A → W → W

-- `has_monitor` says whether there is a timeout thread that nobody has joined.
pub record ExecutionState (A : Type 0) : Type 0 where
  pub action : A
  pub future : ℕ
  pub start_time : ℕ
  pub timeout : ℕ
  pub cancel_requested : Bool
  pub should_stop_monitoring : Bool
  pub has_monitor : Bool
  pub exception_occurred : Bool
  pub exception_message : String

-- What the executor publishes.
pub data ActionEvent : Type 0 where
  action_started : String → String → ActionEvent
  action_completed : String → String → ℕ → ActionEvent
  action_failed : String → String → String → ℕ → ActionEvent
  action_timeout : String → ℕ → ℕ → ActionEvent
  action_cancelled : String → String → ActionEvent

pub record ActionExecutor (A W : Type 0) : Type 0 where
  pub running_actions : List (String × ExecutionState A)
  pub next_task : ℕ
  pub ended_tasks : List ℕ
  pub event_bus : Option (ActionEvent → W → W)
  pub world : W

unfoldable pub elapsed_ms : ℕ → ℕ → ℕ
elapsed_ms start now = (now - start) / 1000000

abbrev is_in : ℕ → List ℕ → Bool
is_in n [] = false
is_in n (m ∷ rest) = n == m || is_in n rest

unfoldable pub is_terminal : ActionStatus → Bool
is_terminal s =
    is_status s completed
    || (is_status s failed || (is_status s cancelled || is_status s timed_out))

abbrev pub result_of : String → ActionStatus → ℕ → String → ExecutionResult
result_of id status progress message = record {
  action_id = id;
  status = status;
  progress = progress;
  error_message = message;
}

unfoldable pub check_timeout : ℕ → ℕ → ℕ → Bool
check_timeout start timeout now = ltb timeout (elapsed_ms start now)

abbrev pub first_state : {A : Type 0} → A → ℕ → ℕ → ℕ → ExecutionState A
first_state a task start timeout = record {
  action = a;
  future = task;
  start_time = start;
  timeout = timeout;
  cancel_requested = false;
  should_stop_monitoring = false;
  has_monitor = false;
  exception_occurred = false;
  exception_message = "";
}

-- `emplace`, which leaves an entry alone that is there already; and whether it has put the new one in.
unfoldable pub emplace :
    {A : Type 0}
    → String
    → ExecutionState A
    → List (String × ExecutionState A)
    → List (String × ExecutionState A) × Bool
emplace id s entries = elim (lookup id entries) [
  | none ↦ (insert id s entries, true)
  | some t ↦ (entries, false)
]

unfoldable pub stop_monitors :
    {A : Type 0} → List (String × ExecutionState A) → List (String × ExecutionState A)
stop_monitors [] = []
stop_monitors ((id, s) ∷ rest) =
    (id, if s.has_monitor then record s { should_stop_monitoring = true } else s)
    ∷ stop_monitors rest

-- What a task that ends by an exception writes down.
unfoldable pub note_exception :
    {A : Type 0}
    → String
    → String
    → List (String × ExecutionState A)
    → List (String × ExecutionState A)
note_exception id message entries = elim (lookup id entries) [
  | none ↦ entries
  | some s ↦ insert id (record s { exception_occurred = true; exception_message = message }) entries
]

module _ {A W : Type 0} where
  unfoldable pub new : Option (ActionEvent → W → W) → W → ActionExecutor A W
  new bus w = record {
    running_actions = [];
    next_task = 0;
    ended_tasks = [];
    event_bus = bus;
    world = w;
  }

  unfoldable pub publish : ActionEvent → ActionExecutor A W → ActionExecutor A W
  publish event e = record e {
    world = elim e.event_bus [ none ↦ e.world | some f ↦ f event e.world ];
  }

  -- Whether a task has ended.
  unfoldable pub is_ready : ExecutionState A → ActionExecutor A W → Bool
  is_ready s e = is_in s.future e.ended_tasks

  -- The new timeout thread. `none`: an old one that nobody joined is destroyed, which ends the
  -- process (std::terminate).
  unfoldable pub start_monitor : String → ActionExecutor A W → Option (ActionExecutor A W)
  start_monitor id e = elim (lookup id e.running_actions) [
    | none ↦ some e
    | some s ↦
        if s.has_monitor
        then none
        else some (record e {
          running_actions = insert id (record s { has_monitor = true }) e.running_actions;
        })
  ]

  -- The end of a task: its action has returned, or thrown the message.
  unfoldable pub end_task :
      Actions A W → A → ℕ → ℕ → Option String → ℕ → ActionExecutor A W → ActionExecutor A W
  end_task acts a task start none now e =
      let said =
        publish (action_completed (acts.get_id a) (acts.get_type a) (elapsed_ms start now)) e in
      record said { ended_tasks = task ∷ said.ended_tasks }
  end_task acts a task start (some message) now e =
      let noted = record e {
        running_actions = note_exception (acts.get_id a) message e.running_actions;
      } in
      let said =
        publish (action_failed (acts.get_id a) (acts.get_type a) message (elapsed_ms start now))
          noted in
      record said { ended_tasks = task ∷ said.ended_tasks }

  unfoldable pub cancel : Actions A W → String → ActionExecutor A W → ActionExecutor A W
  cancel acts id e = elim (lookup id e.running_actions) [
    | none ↦ e
    | some s ↦ publish (action_cancelled id (acts.get_type s.action)) (record e {
      running_actions = insert id (record s { cancel_requested = true }) e.running_actions;
      world = acts.cancel s.action e.world;
    })
  ]

  -- One turn of the timeout thread, and whether it goes on.
  unfoldable pub monitor :
      Actions A W → String → ℕ → ℕ → ℕ → ActionExecutor A W → ActionExecutor A W × Bool
  monitor acts id timeout start now e = elim (lookup id e.running_actions) [
    | none ↦ (e, false)
    | some s ↦
        if s.should_stop_monitoring
        then (e, false)
        else if ltb timeout (elapsed_ms start now) && not s.cancel_requested
        then (
          cancel acts id (
              publish (action_timeout id timeout (elapsed_ms start now)) (record e {
                running_actions =
                    insert id (record s { cancel_requested = true }) e.running_actions;
              })),
          false,
        )
        else (e, true)
  ]

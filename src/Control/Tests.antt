-- ===== src/Control/Tests.antt =====
-- Runs of the arbiter and its queue on small inputs.
use mxrc.Common.{
  ℕ, ◌≡◌, refl, inl, String, Bool, true, false, none, some, List, [], ◌∷◌, arith, lookup,
}
use mxrc.Control.Mode.{ControlMode}
use mxrc.Control.Priority.{Priority}
use mxrc.Control.Request.{BehaviorRequest, TaskStatus}
use mxrc.Control.Lanes
use mxrc.Control.BehaviorPriorityQueue
use mxrc.Control.BehaviorPriorityQueue.Refines.{
  outputs, spec_outputs, spec_step, pushes, pops, outputs-spec_outputs,
}
use mxrc.Control.Objects.{Env}
use mxrc.Control.Arbiter.{
  Arbiter, new, select_next_behavior, remove_timed_out_behaviors, start_task,
}
use mxrc.Control.Arbiter.Tick.{
  tick, check_critical_alarms, check_warning_alarms, decide, start_next,
}
use mxrc.Control.Objects.Observed.{Observed, observed}
use mxrc.Control.Arbiter.Modes.{Call, IsHistory, requests, ticks, transitions, run}
use mxrc.Control.Arbiter.Modes.Runs.{run-IsHistory}
use mxrc.Control.Arbiter.Faults.{tick-critical_alarm}
use mxrc.Control.Arbiter.Preemption.{IsBusy, tick-loses_request, tick-emergency, tick-suspends}
use mxrc.Control.Arbiter.Current.{Begins}
use mxrc.Control.Arbiter.Current.Ticks.{tick-Begins}

data Effect : Type 0 where
  started stopped paused resumed : ℕ → Effect

-- Objects of a bench: the two alarms, the status of every task, and the calls so far.
record Bench : Type 0 where
  critical : Bool
  warning : Bool
  status : TaskStatus
  effects : List Effect

abbrev did : Effect → Bench → Bench
did e w = record w { effects = e ∷ w.effects }

abbrev bench : Env Bench
bench = record {
  task_start = λ t w. did (started t) w;
  task_stop = λ t w. did (stopped t) w;
  task_pause = λ t w. did (paused t) w;
  task_resume = λ t w. did (resumed t) w;
  task_status = λ t w. w.status;
  task_id = λ t. "task";
  has_critical_alarm = λ w. w.critical;
  has_warning_alarm = λ w. w.warning;
  data_store = false;
  store_set = λ k v t w. (w, true);
}

abbrev quiet : Bench
quiet = record { critical = false; warning = false; status = TaskStatus.running; effects = [] }

abbrev request : String → Priority → ℕ → BehaviorRequest
request id p t = record {
  behavior_id = id;
  priority = p;
  task = t;
  timestamp = 0;
  requester_id = "";
  cancellable = true;
  timeout = 0;
}

abbrev drive : BehaviorRequest
drive = request "drive" Priority.normal_task 1

abbrev clean : BehaviorRequest
clean = request "clean" Priority.maintenance 2

abbrev halt : BehaviorRequest
halt = request "halt" Priority.emergency_stop 3

abbrev inspect : BehaviorRequest
inspect = request "inspect" Priority.safety_issue 4

abbrev no_one : Lanes.Lanes BehaviorRequest
no_one = record {
  emergency_stop = [];
  safety_issue = [];
  urgent_task = [];
  normal_task = [];
  maintenance = [];
}

-- `drive` is running in AUTO, and `queue` waits.
abbrev driving : Lanes.Lanes BehaviorRequest → Bench → Arbiter Bench
driving queue w = record {
  current_mode = ControlMode.auto;
  pending_safe_mode = false;
  pending_behaviors = queue;
  current_behavior = some drive;
  suspended_behaviors = [];
  stats = record { total_requests = 2; preemptions = 0; mode_transitions = 1; timeouts = 0 };
  paused = false;
  world = w;
}

abbrev with_clean : Lanes.Lanes BehaviorRequest
with_clean = record no_one { maintenance = clean ∷ [] }

abbrev with_halt : Lanes.Lanes BehaviorRequest
with_halt = record no_one { emergency_stop = halt ∷ [] }

abbrev with_inspect : Lanes.Lanes BehaviorRequest
with_inspect = record no_one { safety_issue = inspect ∷ [] }

outputs-spec_outputs_example :
    outputs Lanes.empty (pushes clean ∷ pushes drive ∷ pops ∷ pops ∷ pops ∷ [])
    ≡ spec_outputs [] (pushes clean ∷ pushes drive ∷ pops ∷ pops ∷ pops ∷ [])
outputs-spec_outputs_example =
    outputs-spec_outputs (pushes clean ∷ pushes drive ∷ pops ∷ pops ∷ pops ∷ [])

spec_outputs_run :
    spec_outputs [] (pushes clean ∷ pushes drive ∷ pops ∷ pops ∷ pops ∷ [])
    ≡ none ∷ none ∷ some drive ∷ some clean ∷ none ∷ []
unfolding spec_outputs spec_step
spec_outputs_run = refl

-- The bench with a data store that accepts every write.
abbrev storing : Env Bench
storing = record bench { data_store = true }

abbrev calls : List (Call Bench)
calls = requests drive ∷ ticks ∷ transitions ControlMode.maint ∷ ticks ∷ []

run-IsHistory_example :
    let s = run storing (new (record { inner = quiet; history = []; begun = [] })) calls in
    IsHistory s.current_mode s.world.history
run-IsHistory_example = run-IsHistory storing refl (λ key value type w. refl) quiet calls

abbrev alarmed : Bench
alarmed = record quiet { critical = true }

abbrev warned : Bench
warned = record quiet { warning = true }

tick-critical_alarm_example :
    (tick bench (driving with_clean alarmed)).current_mode ≡ ControlMode.fault
tick-critical_alarm_example = tick-critical_alarm bench (driving with_clean alarmed) refl

-- In FAULT, with nothing running and `clean` in the queue.
abbrev faulty : Arbiter Bench
faulty = record (driving with_clean alarmed) {
  current_mode = ControlMode.fault;
  current_behavior = none;
}

starts_clean : (tick bench faulty).current_behavior ≡ some clean
unfolding tick check_critical_alarms check_warning_alarms remove_timed_out_behaviors decide
    start_next select_next_behavior start_task BehaviorPriorityQueue.pop Lanes.pop_front
    Lanes.try_pop
starts_clean = refl

busy :
    (q : Lanes.Lanes BehaviorRequest) (r : BehaviorRequest)
    → BehaviorPriorityQueue.pop q ≡ some (r, no_one)
    → IsBusy bench (driving q quiet) drive r no_one
busy q r e = record {
  no_critical = refl;
  no_warning = refl;
  not_paused = refl;
  current = refl;
  unfinished = refl;
  next = e;
}

tick-loses_request_example : tick bench (driving with_clean quiet) ≡ driving no_one quiet
unfolding BehaviorPriorityQueue.pop Lanes.pop_front Lanes.try_pop
tick-loses_request_example =
    tick-loses_request bench (driving with_clean quiet) drive clean no_one
      (busy with_clean clean refl) (inl (omega arith))

tick-emergency_example : (tick bench (driving with_halt quiet)).current_mode ≡ ControlMode.fault
unfolding BehaviorPriorityQueue.pop Lanes.pop_front Lanes.try_pop
tick-emergency_example =
    (tick-emergency bench (driving with_halt quiet) drive halt no_one (busy with_halt halt refl)
      refl (omega arith)).0

tick-suspends_example :
    lookup "drive" (tick bench (driving with_inspect quiet)).suspended_behaviors ≡ some drive
unfolding BehaviorPriorityQueue.pop Lanes.pop_front Lanes.try_pop
tick-suspends_example =
    (tick-suspends bench (driving with_inspect quiet) drive inspect no_one
      (busy with_inspect inspect refl) (inl refl) (omega arith)).3

-- `faulty`, with the tasks observed.
abbrev watched : Arbiter (Observed Bench)
watched = record {
  current_mode = ControlMode.fault;
  pending_safe_mode = false;
  pending_behaviors = with_clean;
  current_behavior = none;
  suspended_behaviors = ("drive", drive) ∷ [];
  stats = faulty.stats;
  paused = false;
  world = record { inner = alarmed; history = []; begun = [] };
}

tick-Begins_example : Begins bench watched (tick (observed bench) watched)
tick-Begins_example = tick-Begins bench watched

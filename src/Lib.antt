-- ===== src/Lib.antt =====
-- The control core of mxrc, a controller for industrial robots in C++.
--
-- The program has an RT process with a periodic executive and a non-RT process with tasks, alarms,
-- events and supervision; both are built from the parts in src/core. This library models eight of
-- these parts as state and functions from state to state, with theorems about what they keep.
--
--   Common            shared names: tests on numbers, lists, association lists, decimal numerals.
--   Control           src/core/control: ControlMode.h (Mode), Priority.h (Priority), BehaviorRequest.h
--                     and task/dto/TaskStatus.h (Request), BehaviorPriorityQueue (Lanes holds the five
--                     queues for entries of any type, BehaviorPriorityQueue and TaskQueue are their uses),
--                     and BehaviorArbiter: Arbiter has the state and the helpers of BehaviorArbiter.cpp,
--                     Arbiter/Tick has tick, handlePreemption, the alarm checks, cancelBehavior, pause
--                     and resume. Its children are about: Modes (the history of transitions), Faults,
--                     Warnings, Preemption, Current (the tasks that a tick starts), Cancelling.
--   Alarm             src/core/alarm: Dto (AlarmSeverity.h, AlarmDto.h, Alarm.cpp), Config
--                     (AlarmConfiguration.cpp), Manager with Manager/Calls (AlarmManager.cpp). Counts
--                     and Reachable are about the counters, History the bound of the history, Raising and
--                     Resolving what happens to one alarm.
--   Ha                src/core/ha: Policy (the enumerations of HAStateMachine.h, RecoveryPolicy.cpp),
--                     StateMachine (HAStateMachine.cpp), Failover (FailoverManager.cpp); their children
--                     are about the transitions and their Trace, the attempts, the responses, and the
--                     restart limits.
--   Event             src/core/event/core: PrioritizedEvent (PrioritizedEvent.h) and PriorityQueue
--                     (PriorityQueue.cpp); its children are about drops and counts (Bounds),
--                     the order (Order), every run (Runs) and two events of one key (Coalescing).
--                     LockFreeQueue is the ring buffer of src/core/event/util/LockFreeQueue.h as the
--                     interleaved steps of its two threads; Ring, Steps and Fifo have its proofs.
--                     ThrottlingPolicy and CoalescingPolicy are those of event/adapters; Spacing and
--                     Newest are about them.
--   Rt                src/core/rt: StateMachine (RTStateMachine.cpp, its runs in Runs), ScheduleCalculator
--                     (util/ScheduleCalculator.cpp; Gcd and Cycles have its arithmetic) and Executive
--                     (RTExecutive.cpp): Watch and Loop are its heartbeat check and its main loop,
--                     Schedule, Cycles and Heartbeat are about them. DataStore (RTDataStore.cpp) has
--                     the entries behind sequence locks: Interleaving is a setter and a getter in two
--                     threads, Reading and Torn are about it, Values has the setters and getters.
--   Action            src/core/action: Result (ActionStatus.h, ExecutionResult.h), Context
--                     (ExecutionContext.h), Factory (ActionFactory.cpp) and Executor
--                     (ActionExecutor.cpp; Starting has executeAsync, Results the answers); Stale and
--                     Cancelling have its theorems.
--   Sequence          src/core/sequence: Definition (the DTOs), Registry, Condition
--                     (ConditionEvaluator.cpp), Retry (RetryPolicy.h, RetryHandler.cpp), and
--                     SequenceEngine.cpp in three files: Engine (its state, pause, resume, status),
--                     Execution (an attempt, a branch), Steps (executeSequential, execute). Turns,
--                     Counts, Bounds, Completion, Retries, Unpaused, Total and Status are about them.
--   System            the arbiter's interface filled with the alarm manager, and what they do together;
--                     Retries fills the interface of the sequence engine with the action executor.
--
-- How the parts meet: the arbiter reads the alarm manager (hasCriticalAlarm,
-- getActiveAlarmsBySeverity) and drives tasks; the alarm manager writes to the data store and
-- publishes on the event bus, whose queue is Event; Ha stands beside them and counts the restarts of
-- the RT process. What a part calls outside itself is an interface with the state `W` behind it:
-- Control.Objects.Env for the arbiter (Control.Objects.Observed puts an observer in between, for what
-- a theorem says of the calls), Alarm.Manager.Ports for the alarm manager, Action.Executor.Actions for
-- the actions that the executor runs, Sequence.Engine.Collaborators for the factory, executor,
-- context, events and clock of the sequence engine, the two callbacks of the HA state machine,
-- Ha.Failover.Checkpoints for the failover manager. A theorem holds for every implementation of these
-- that does not call the part back, unless it names what it asks of one.
--
-- How code became functions: a method that changes its object returns the changed record, with the
-- method's answer where it has one. A clock reading is an argument, one for each reading of the source.
-- A mutex makes each method one step, and a sequence of steps is a list of calls; the data `Call` of a
-- part has all its operations and, as `elsewhere`, a change of the objects behind it by others. Unsigned
-- counters wrap around as in the source (`u64_inc`, `u64_dec`, `u32_inc`); where a theorem needs that
-- they do not, it bounds the number of calls by 2^64. Loops are recursion on a list, or on fuel:
--   the loop of an RTDataStore getter answers `none` while its rounds, one for each load, are not enough;
--   four are when nobody writes;
--   the numeral of std::to_string has 20 rounds, the digits of a 64-bit number (Common.Decimal);
--   gcd has one round more than its second argument, which each round makes smaller;
--   the loop of registerAction has one round more than there are slots, since a slot interval of at
--   least 1 leaves the schedule after at most that many; out of rounds it answers `none`;
--   the retry loop has one round more than the retries that the policy allows;
--   the wait of a paused sequence has as many rounds as the caller of the model gives it (`patience`),
--   and answers `none` when a sequence stays paused longer.
--
-- Not modelled: log lines; the order of std::unordered_map and of equal keys under std::sort and
-- std::priority_queue; the interleaving of two calls within one method, but for the ring buffer and
-- the sequence lock, whose steps are sequentially consistent, and for a new task beside executeAsync;
-- the reading of YAML and JSON files, whose result is an argument instead; floating-point arithmetic,
-- which is a parameter. The other parts of the program (data store, tasks, EtherCAT, fieldbus, the
-- shared memory of the RT process, logging, monitoring, tracing) are not modelled.
pub mod Common
pub mod Control
pub mod Alarm
pub mod Ha
pub mod Event
pub mod Rt
pub mod Action
pub mod Sequence
pub mod System

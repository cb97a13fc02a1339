-- ===== src/Ha/Failover.antt =====
-- src/core/ha/FailoverManager.{h,cpp}: the restarting of a failed process, so many times within a
-- window. Times are nanoseconds of the system clock, read by the caller. `W` is the state behind the
-- checkpoint manager.
pub mod Limits
use mxrc.Common.{
  ℕ, ◌-◌, ◌*◌, String, Bool, true, false, Option, none, some, List, [], ◌∷◌, ◌&&◌, ◌==◌, not, leb,
  ltb, str_eq, if◌then◌else◌, u32_inc, lookup, insert, erase,
}

pub record FailoverPolicy : Type 0 where
  pub process_name : String
  pub health_check_interval_ms : ℕ
  pub health_check_timeout_ms : ℕ
  pub failure_threshold : ℕ
  pub restart_delay_ms : ℕ
  pub max_restart_count : ℕ
  pub restart_window_sec : ℕ
  pub enable_state_recovery : Bool
  pub checkpoint_interval_sec : ℕ
  pub enable_leader_election : Bool

unfoldable pub default_policy : FailoverPolicy
default_policy = record {
  process_name = "";
  health_check_interval_ms = 1000;
  health_check_timeout_ms = 500;
  failure_threshold = 3;
  restart_delay_ms = 100;
  max_restart_count = 5;
  restart_window_sec = 60;
  enable_state_recovery = true;
  checkpoint_interval_sec = 60;
  enable_leader_election = false;
}

unfoldable pub is_valid : FailoverPolicy → Bool
is_valid p =
    if leb p.health_check_interval_ms p.health_check_timeout_ms
    then false
    else if ltb p.failure_threshold 1
    then false
    else if p.max_restart_count == 0
    then false
    else if p.enable_state_recovery && p.checkpoint_interval_sec == 0
    then false
    else true

pub record RestartInfo : Type 0 where
  pub count : ℕ
  pub window_start : ℕ

-- The checkpoint manager, if there is one: its list and the loading of a checkpoint; `none` and
-- `false` stand for an exception.
pub record Checkpoints (W : Type 0) : Type 0 where
  pub list_checkpoints : W → W × Option (List String)
  pub load_checkpoint : String → W → W × Bool

pub record FailoverManager (W : Type 0) : Type 0 where
  pub policy : FailoverPolicy
  pub restart_tracking : List (String × RestartInfo)
  pub running : Bool
  pub world : W

-- A member of the JSON object: missing, of the type wanted, or of another type, at which `value`
-- throws.
pub data Member (A : Type 0) : Type 0 where
  missing wrong_type : Member A
  given : A → Member A

pub record PolicyJson : Type 0 where
  pub process_name : Member String
  pub health_check_interval_ms : Member ℕ
  pub health_check_timeout_ms : Member ℕ
  pub failure_threshold : Member ℕ
  pub restart_delay_ms : Member ℕ
  pub max_restart_count : Member ℕ
  pub restart_window_sec : Member ℕ
  pub enable_state_recovery : Member Bool
  pub checkpoint_interval_sec : Member ℕ
  pub enable_leader_election : Member Bool

-- One assignment, unless an earlier one has thrown.
abbrev assign :
    {A : Type 0} → Member A → (A → FailoverPolicy) → FailoverPolicy × Bool → FailoverPolicy × Bool
assign missing f (p, going) = (p, going)
assign wrong_type f (p, going) = (p, false)
assign (given a) f (p, true) = (f a, true)
assign (given a) f (p, false) = (p, false)

abbrev Assigned : Type 0
Assigned = FailoverPolicy × Bool

unfoldable pub assign_all : PolicyJson → FailoverPolicy → FailoverPolicy × Bool
assign_all j p =
    let p₁ : Assigned = assign j.process_name (λ a. record p { process_name = a }) (p, true) in
    let p₂ : Assigned =
      assign j.health_check_interval_ms (λ a. record p₁.0 { health_check_interval_ms = a }) p₁ in
    let p₃ : Assigned =
      assign j.health_check_timeout_ms (λ a. record p₂.0 { health_check_timeout_ms = a }) p₂ in
    let p₄ : Assigned =
      assign j.failure_threshold (λ a. record p₃.0 { failure_threshold = a }) p₃ in
    let p₅ : Assigned = assign j.restart_delay_ms (λ a. record p₄.0 { restart_delay_ms = a }) p₄ in
    let p₆ : Assigned =
      assign j.max_restart_count (λ a. record p₅.0 { max_restart_count = a }) p₅ in
    let p₇ : Assigned =
      assign j.restart_window_sec (λ a. record p₆.0 { restart_window_sec = a }) p₆ in
    let p₈ : Assigned =
      assign j.enable_state_recovery (λ a. record p₇.0 { enable_state_recovery = a }) p₇ in
    let p₉ : Assigned =
      assign j.checkpoint_interval_sec (λ a. record p₈.0 { checkpoint_interval_sec = a }) p₈ in
    assign j.enable_leader_election (λ a. record p₉.0 { enable_leader_election = a }) p₉

-- Whether more than the window has passed since `start`. A clock that went back has not passed it.
unfoldable pub is_expired : FailoverPolicy → ℕ → ℕ → Bool
is_expired p start now = ltb (p.restart_window_sec * 1000000000) (now - start)

abbrev last_of : List String → Option String
last_of [] = none
last_of (a ∷ rest) = elim (last_of rest) [ none ↦ some a | some b ↦ some b ]

-- The entry of a process that has none is zero.
abbrev info_or_zero : Option RestartInfo → RestartInfo
info_or_zero none = record { count = 0; window_start = 0 }
info_or_zero (some i) = i

unfoldable pub count_restart : FailoverPolicy → ℕ → RestartInfo → RestartInfo
count_restart p now i =
    if is_expired p i.window_start now
    then record { count = 1; window_start = now }
    else record { count = u32_inc i.count; window_start = i.window_start }

module _ {W : Type 0} where
  -- The constructor throws on an invalid policy.
  unfoldable pub new : FailoverPolicy → W → Option (FailoverManager W)
  new p w =
      if is_valid p
      then some (record { policy = p; restart_tracking = []; running = false; world = w })
      else none

  unfoldable pub start : FailoverManager W → FailoverManager W × Bool
  start m = if m.running then (m, false) else (record m { running = true }, true)

  unfoldable pub stop : FailoverManager W → FailoverManager W
  stop m = if m.running then record m { running = false } else m

  unfoldable pub can_restart : String → ℕ → FailoverManager W → Bool
  can_restart name now m = elim (lookup name m.restart_tracking) [
    | none ↦ true
    | some i ↦
        if is_expired m.policy i.window_start now
        then true
        else ltb i.count m.policy.max_restart_count
  ]

  unfoldable pub get_restart_count : String → ℕ → FailoverManager W → ℕ
  get_restart_count name now m = elim (lookup name m.restart_tracking) [
    | none ↦ 0
    | some i ↦ if is_expired m.policy i.window_start now then 0 else i.count
  ]

  unfoldable pub reset_restart_count : String → FailoverManager W → FailoverManager W
  reset_restart_count name m = record m { restart_tracking = erase name m.restart_tracking }

  unfoldable pub load_policy : Option PolicyJson → FailoverManager W → FailoverManager W × Bool
  load_policy none m = (m, false)
  load_policy (some j) m =
      let (p, whole) = assign_all j m.policy in
      let n = record m { policy = p } in
      if whole then (if is_valid p then (n, true) else (n, false)) else (n, false)

  unfoldable pub load_latest : Option (Checkpoints W) → W → W
  load_latest none w = w
  load_latest (some c) w =
      let (v, checkpoints) = c.list_checkpoints w in
      elim checkpoints [
        | none ↦ v
        | some ids ↦ elim (last_of ids) [ none ↦ v | some id ↦ (c.load_checkpoint id v).0 ]
      ]

  -- The restart itself is not written yet in the source: it is counted, and its checkpoint is loaded.
  unfoldable pub trigger_restart :
      Option (Checkpoints W) → String → Bool → ℕ → FailoverManager W → FailoverManager W × Bool
  trigger_restart c name recover_state now m =
      if str_eq name m.policy.process_name
      then (let info = count_restart m.policy now (info_or_zero (lookup name m.restart_tracking)) in
          (
            record m {
              restart_tracking = insert name info m.restart_tracking;
              world =
                  if recover_state && m.policy.enable_state_recovery
                  then load_latest c m.world
                  else m.world;
            },
            true,
          ))
      else (m, false)

  -- The clock is read once for the check and once for the count.
  unfoldable pub handle_process_failure :
      Option (Checkpoints W) → String → ℕ → ℕ → FailoverManager W → FailoverManager W
  handle_process_failure c name checked now m =
      if m.running
      then (if str_eq name m.policy.process_name
          then (if can_restart name checked m
              then (trigger_restart c name m.policy.enable_state_recovery now m).0
              else m)
          else m)
      else m

-- ===== src/Alarm/Manager/Counts.antt =====
-- The counters of the alarm manager and the alarms in its map.
use mxrc.Common.{
  ℕ, ◌+◌, ◌%◌, ◌^◌, ◌≤◌, ◌<◌, ◌≡◌, refl, String, true, Option, none, some, List, [], ◌∷◌, ◌==◌,
  arith, lookup, insert, if◌then◌else◌,
}
use mxrc.Alarm.Dto.{
  AlarmSeverity, AlarmDto, critical, warning, info, severity_rank, is_active, resolve, acknowledge,
}
use mxrc.Alarm.Manager.{AlarmStats, count_of, count_raised, count_resolved}
use mxrc.Alarm.Manager.Calls.{resolve_all}

abbrev pub hit : AlarmSeverity → AlarmDto → ℕ
hit sev a =
    if is_active a then (if severity_rank a.severity == severity_rank sev then 1 else 0) else 0

-- The number of active alarms of a severity.
abbrev pub active_in : AlarmSeverity → List (String × AlarmDto) → ℕ
active_in sev [] = 0
active_in sev ((id, a) ∷ rest) = hit sev a + active_in sev rest

abbrev hit_at : AlarmSeverity → Option AlarmDto → ℕ
hit_at sev none = 0
hit_at sev (some a) = hit sev a

active_in-insert :
    (sev : AlarmSeverity) (id : String) (a : AlarmDto) (l : List (String × AlarmDto))
    → active_in sev (insert id a l) + hit_at sev (lookup id l) ≡ active_in sev l + hit sev a
unfolding insert lookup
active_in-insert sev id a [] = omega arith
active_in-insert sev id a ((k, b) ∷ l) = ground (arith, active_in-insert sev id a l)

resolve-hit : (sev : AlarmSeverity) (t : ℕ) (a : AlarmDto) → hit sev (resolve t a) ≡ 0
unfolding resolve is_active
resolve-hit sev t a = ground arith

acknowledge-hit :
    (sev : AlarmSeverity) (by : String) (t : ℕ) (a : AlarmDto)
    → hit sev (acknowledge by t a) ≤ hit sev a
unfolding acknowledge is_active
acknowledge-hit sev by t a = ground arith

resolve_all_hits :
    (sev : AlarmSeverity) (now : String → ℕ) (l : List (String × AlarmDto))
    → active_in sev (resolve_all now l).0 ≡ 0
unfolding resolve_all
resolve_all_hits sev now [] = refl
resolve_all_hits sev now ((id, a) ∷ l) =
    ground (arith, resolve_all_hits sev now l, resolve-hit sev (now id) a)

-- The counters of the manager fit its alarms; at most `n` have been raised.
pub record Fits (n : ℕ) (l : List (String × AlarmDto)) (s : AlarmStats) : Type 0 where
  pub each : (sev : AlarmSeverity) → active_in sev l ≤ count_of sev s
  pub sum : s.critical_count + s.warning_count + s.info_count ≡ s.active_count
  pub total : s.active_count + s.resolved_count ≤ s.total_raised
  pub few : s.total_raised ≤ n

abbrev same : AlarmSeverity → AlarmSeverity → ℕ
same a b = if severity_rank a == severity_rank b then 1 else 0

abbrev all_counts : AlarmStats → ℕ
all_counts s = s.critical_count + s.warning_count + s.info_count

count_le_sum : (sev : AlarmSeverity) (s : AlarmStats) → count_of sev s ≤ all_counts s
count_le_sum critical s = omega arith
count_le_sum warning s = omega arith
count_le_sum info s = omega arith

count_of-count_raised :
    (t sev : AlarmSeverity) (s : AlarmStats)
    → all_counts s + 1 < 2 ^ 64
    → count_of t (count_raised sev s) ≡ count_of t s + same sev t
unfolding count_raised
count_of-count_raised t sev s h = ground arith

count_of-count_resolved :
    (t sev : AlarmSeverity) (s : AlarmStats)
    → all_counts s + 1 < 2 ^ 64
    → 0 < count_of sev s
    → count_of t (count_resolved sev s) + same sev t ≡ count_of t s
unfolding count_resolved
count_of-count_resolved t sev s h p = ground arith

hit_le_same : (sev : AlarmSeverity) (a : AlarmDto) → hit sev a ≤ same a.severity sev
unfolding is_active
hit_le_same sev a = ground arith

pub Fits-raised :
    (n : ℕ) (id : String) (a : AlarmDto) (l : List (String × AlarmDto)) (s : AlarmStats)
    → n + 1 < 2 ^ 64
    → Fits n l s
    → Fits (n + 1) (insert id a l) (count_raised a.severity s)
Fits-raised n id a l s small f = record {
  each = λ sev. omega (
    arith,
    f.sum,
    f.total,
    f.few,
    f.each sev,
    active_in-insert sev id a l,
    hit_le_same sev a,
    count_of-count_raised sev a.severity s (omega (arith, f.sum, f.total, f.few)),
  );
  sum = unfold count_raised in ground (arith, f.sum, f.total, f.few);
  total = unfold count_raised in ground (arith, f.sum, f.total, f.few);
  few = unfold count_raised in ground (arith, f.few);
}

pub Fits-resolved :
    (n : ℕ) (id : String) (t : ℕ) (a : AlarmDto) (l : List (String × AlarmDto)) (s : AlarmStats)
    → n + 1 < 2 ^ 64
    → lookup id l ≡ some a
    → is_active a ≡ true
    → Fits n l s
    → Fits (n + 1) (insert id (resolve t a) l) (count_resolved a.severity s)
Fits-resolved n id t a l s small found active f = record {
  each = λ sev. omega (
    arith,
    f.each sev,
    active_in-insert sev id (resolve t a) l,
    resolve-hit sev t a,
    count_of-count_resolved sev a.severity s (omega (arith, f.sum, f.total, f.few)) counted,
    hit_found sev,
  );
  sum = unfold count_resolved in ground (arith, f.sum, f.total, f.few, counted);
  total = unfold count_resolved in ground (arith, f.sum, f.total, f.few, counted);
  few = unfold count_resolved in ground (arith, f.few);
}
  where
    hit_found : (sev : AlarmSeverity) → hit_at sev (lookup id l) ≡ same a.severity sev
    hit_found sev = ground (arith, found, active)

    same_refl : (sev : AlarmSeverity) → same sev sev ≡ 1
    same_refl sev = ground arith

    counted : 0 < count_of a.severity s
    counted = omega (
      arith,
      f.each a.severity,
      hit_found a.severity,
      same_refl a.severity,
      active_in-insert a.severity id (resolve t a) l,
      resolve-hit a.severity t a,
    )

pub Fits-acknowledged :
    (n : ℕ) (id by : String) (t : ℕ) (a : AlarmDto) (l : List (String × AlarmDto)) (s : AlarmStats)
    → lookup id l ≡ some a
    → Fits n l s
    → Fits (n + 1) (insert id (acknowledge by t a) l) s
Fits-acknowledged n id by t a l s found f = record {
  sum = f.sum;
  total = f.total;
  each = λ sev. ground (
    arith,
    f.each sev,
    active_in-insert sev id (acknowledge by t a) l,
    acknowledge-hit sev by t a,
    found,
  );
  few = omega (arith, f.few);
}

pub Fits-reset :
    (n : ℕ) (now : String → ℕ) (l : List (String × AlarmDto)) (s : AlarmStats)
    → n + 1 < 2 ^ 64
    → Fits n l s
    → (resolve_all now l).1 ≤ s.active_count
    → Fits (n + 1) (resolve_all now l).0 (record s {
      active_count = 0;
      critical_count = 0;
      warning_count = 0;
      info_count = 0;
      resolved_count = (s.resolved_count + (resolve_all now l).1) % 2 ^ 64;
    })
Fits-reset n now l s small f fewer = record {
  each = λ sev. omega (arith, resolve_all_hits sev now l);
  sum = refl;
  total = omega (arith, f.total, f.few, fewer);
  few = omega (arith, f.few);
}

-- Each active alarm is of one severity.
pub resolved_number :
    (now : String → ℕ) (l : List (String × AlarmDto))
    → (resolve_all now l).1 ≡ active_in critical l + active_in warning l + active_in info l
unfolding resolve_all
resolved_number now [] = refl
resolved_number now ((id, a) ∷ l) = ground (arith, resolved_number now l)

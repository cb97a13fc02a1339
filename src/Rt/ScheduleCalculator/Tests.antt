-- ===== src/Rt/ScheduleCalculator/Tests.antt =====
-- Schedules of small lists of periods.
use Prim.Native.Nat.{◌∣◌}
use native.Mathlib.Nat as Nat
use mxrc.Common.{ℕ, ◌*◌, ◌≡◌, ◌↔◌, ◌⊎◌, ◌<◌, refl, none, some, List, [], ◌∷◌, true, All, arith}
use mxrc.Rt.ScheduleCalculator.{
  ScheduleParams, gcd, gcd_loop, lcm, has_zero, fold_minor, fold_major, calculate,
}
use mxrc.Rt.ScheduleCalculator.Cycles.{calculate-cycles, calculate-refused}

abbrev frames : ScheduleParams
frames = record { minor_cycle_ms = 10; major_cycle_ms = 100; num_slots = 10 }

frames_lem : calculate (10 ∷ 20 ∷ 50 ∷ []) ≡ some frames
unfolding calculate has_zero fold_minor fold_major lcm gcd gcd_loop
frames_lem = refl

-- The product 8 * 536870913 wraps to 8: periods whose least common multiple is above four billion
-- are accepted.
wrapped_lem :
    calculate (8 ∷ 536870913 ∷ [])
    ≡ some (record { minor_cycle_ms = 1; major_cycle_ms = 8; num_slots = 8 })
unfolding calculate has_zero fold_minor fold_major lcm gcd gcd_loop
wrapped_lem = refl

-- One period alone is not held against the maximum.
single_lem :
    calculate (5000 ∷ [])
    ≡ some (record { minor_cycle_ms = 5000; major_cycle_ms = 5000; num_slots = 1 })
unfolding calculate has_zero fold_minor fold_major lcm gcd gcd_loop
single_lem = refl

calculate-cycles_example :
    ((k : ℕ) → (k ∣ 10) ↔ All (λ p. k ∣ p) (10 ∷ 20 ∷ 50 ∷ []))
    × ((m : ℕ) → (100 ∣ m) ↔ All (λ p. p ∣ m) (10 ∷ 20 ∷ 50 ∷ []))
    × (10 * 10 ≡ 100)
calculate-cycles_example =
    calculate-cycles (10 ∷ 20 ∷ 50 ∷ []) frames frames_lem
      (omega arith, (omega arith, (omega arith, tt)))

refused_lem : calculate (7 ∷ 11 ∷ 13 ∷ []) ≡ none
unfolding calculate has_zero fold_minor fold_major lcm gcd gcd_loop
refused_lem = refl

calculate-refused_example :
    (◌≡◌ {A = List ℕ} (7 ∷ 11 ∷ 13 ∷ []) []) ⊎ (has_zero (7 ∷ 11 ∷ 13 ∷ []) ≡ true) ⊎ (1000 < 1001)
calculate-refused_example =
    calculate-refused (7 ∷ 11 ∷ 13 ∷ []) 1001 refused_lem
      (omega arith, (omega arith, (omega arith, tt))) (omega arith)
      (Nat.dvd-mul_right 7 143, (Nat.dvd-mul_right 11 91, (Nat.dvd-mul_right 13 77, tt)))

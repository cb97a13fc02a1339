-- ===== src/Rt/ScheduleCalculator.antt =====
-- src/core/rt/util/ScheduleCalculator.{h,cpp}: the minor and the major cycle of a list of periods,
-- in 32-bit milliseconds.
pub mod Gcd
pub mod Cycles
pub mod Tests
use mxrc.Common.{
  ℕ, zero, suc, ◌*◌, ◌/◌, ◌%◌, ◌^◌, Bool, true, false, Option, none, some, List, [], ◌∷◌, ◌||◌,
  ◌==◌, ltb, if◌then◌else◌,
}

pub record ScheduleParams : Type 0 where
  pub minor_cycle_ms : ℕ
  pub major_cycle_ms : ℕ
  pub num_slots : ℕ

-- The while loop, on fuel: a round ends with a smaller second number.
unfoldable pub gcd_loop : ℕ → ℕ → ℕ → ℕ
gcd_loop zero a b = a
gcd_loop (suc rounds) a zero = a
gcd_loop (suc rounds) a (suc k) = gcd_loop rounds (suc k) (a % suc k)

unfoldable pub gcd : ℕ → ℕ → ℕ
gcd a b = gcd_loop (suc b) a b

-- The product wraps at 32 bits.
unfoldable pub lcm : ℕ → ℕ → ℕ
lcm a b = if a == 0 || b == 0 then 0 else (a / gcd a b) * b % 2 ^ 32

unfoldable pub has_zero : List ℕ → Bool
has_zero [] = false
has_zero (period ∷ periods) = period == 0 || has_zero periods

unfoldable pub fold_minor : ℕ → List ℕ → ℕ
fold_minor minor [] = minor
fold_minor minor (period ∷ periods) = fold_minor (gcd minor period) periods

-- `none` is the exception on a major cycle of more than a second.
unfoldable pub fold_major : ℕ → List ℕ → Option ℕ
fold_major major [] = some major
fold_major major (period ∷ periods) =
    let rest = fold_major (lcm major period) periods in
    if ltb 1000 (lcm major period) then none else rest

unfoldable pub calculate : List ℕ → Option ScheduleParams
calculate [] = none
calculate (period ∷ periods) =
    let minor = fold_minor period periods in
    if has_zero (period ∷ periods) then none else elim (fold_major period periods) [
      | none ↦ none
      | some major ↦
          some
            (record { minor_cycle_ms = minor; major_cycle_ms = major; num_slots = major / minor })
    ]

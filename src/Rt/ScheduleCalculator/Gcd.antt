-- ===== src/Rt/ScheduleCalculator/Gcd.antt =====
-- src/core/rt/util/ScheduleCalculator.cpp: gcd and lcm against divisibility.
use Prim.Native.Nat.{◌∣◌}
use native.Mathlib.Nat as Nat
use mxrc.Common.{
  ℕ, zero, suc, ◌+◌, ◌*◌, ◌/◌, ◌%◌, ◌^◌, ◌≤◌, ◌<◌, ◌≡◌, sym, ap, ◌∙◌, ◌↔◌, subst, arith,
}
use mxrc.Rt.ScheduleCalculator.{gcd, gcd_loop, lcm}

-- With enough rounds the loop's result is a common divisor.
gcd_loop-dvd : (rounds a b : ℕ) → b < rounds → (gcd_loop rounds a b ∣ a) × (gcd_loop rounds a b ∣ b)
unfolding gcd_loop
gcd_loop-dvd zero a b h = absurd (omega arith)
gcd_loop-dvd (suc rounds) a zero h = (Nat.dvd_refl a, Nat.dvd-zero a)
gcd_loop-dvd (suc rounds) a (suc k) h =
    let small : a % suc k < suc k = Nat.mod-lt a (omega arith) in
    let ih = gcd_loop-dvd rounds (suc k) (a % suc k) (omega arith) in
    ((Nat.dvd-mod_iff _ ih.0).0 ih.1, ih.0)

scaled : (q b r a c : ℕ) → q * b + r ≡ a → q * (b * c) + r * c ≡ a * c
scaled q b r a c e = rw (← e, Nat.add-mul, Nat.mul_assoc q b c)

remainder-dvd : (k a b c : ℕ) → k ∣ a * c → k ∣ b * c → k ∣ (a % b) * c
remainder-dvd k a b c ha hb =
    let whole = scaled (a / b) b (a % b) a c (Nat.div-add-mod' a b) in
    (Nat.dvd-add_iff_right k (Nat.dvd-mul_left_of_dvd k hb (a / b))).1
      (subst (λ (n : ℕ). k ∣ n) (sym whole) ha)

loop-is_divided :
    (k c rounds a b : ℕ) → b < rounds → k ∣ a * c → k ∣ b * c → k ∣ gcd_loop rounds a b * c
unfolding gcd_loop
loop-is_divided k c zero a b h ha hb = ha
loop-is_divided k c (suc rounds) a zero h ha hb = ha
loop-is_divided k c (suc rounds) a (suc d) h ha hb =
    let small : a % suc d < suc d = Nat.mod-lt a (omega arith) in
    loop-is_divided k c rounds (suc d) (a % suc d) (omega arith) hb
      (remainder-dvd k a (suc d) c ha hb)

pub common : (a b : ℕ) → (gcd a b ∣ a) × (gcd a b ∣ b)
unfolding gcd
common a b = gcd_loop-dvd (suc b) a b (omega arith)

-- The loop ends, and its result is divided by exactly the common divisors.
pub dvd-gcd_iff : (k a b : ℕ) → (k ∣ gcd a b) ↔ (k ∣ a × k ∣ b)
unfolding gcd
dvd-gcd_iff k a b = (
  (λ d. (Nat.dvd_trans k d (common a b).0, Nat.dvd_trans k d (common a b).1)),
  λ both. rw Nat.mul-one at (
      loop-is_divided k 1 (suc b) a b (omega arith) (Nat.dvd-mul_right_of_dvd k both.0 1)
        (Nat.dvd-mul_right_of_dvd k both.1 1)),
)

pub gcd-pos : (a b : ℕ) → 0 < a → 0 < gcd a b
gcd-pos a b h = Nat.pos_of_dvd_of_pos (common a b).0 h

times : (a g b : ℕ) → g ∣ a → g * ((a / g) * b) ≡ a * b
times a g b d = rw (← Nat.mul_assoc g (a / g) b, Nat.mul-div_cancel' g d)

-- A common multiple of two numbers is a multiple of their product over their divisor.
quotient-dvd : (a b m : ℕ) → 0 < a → a ∣ m → b ∣ m → (a / gcd a b) * b ∣ m
unfolding gcd
quotient-dvd a b m h da db = Nat.dvd_of_mul-dvd-mul_left (a / gcd a b * b) (gcd-pos a b h) (
    subst (λ (n : ℕ). n ∣ gcd a b * m) (sym (times a (gcd a b) b (common a b).0))
      (loop-is_divided (a * b) m (suc b) a b (omega arith) (Nat.mul-dvd-mul_left b a db)
        (subst (λ (n : ℕ). n ∣ b * m) (Nat.mul_comm b a) (Nat.mul-dvd-mul_left a b da))))

quotient_moves : (a b g : ℕ) → g ∣ a → g ∣ b → a * (b / g) ≡ (a / g) * b
quotient_moves a b g da db =
    sym (ap (λ (n : ℕ). n * (b / g)) (Nat.div-mul_cancel g da))
    ∙ Nat.mul_assoc (a / g) g (b / g)
    ∙ ap (λ (n : ℕ). a / g * n) (Nat.mul-div_cancel' g db)

dvd-quotient : (a b : ℕ) → a ∣ (a / gcd a b) * b
dvd-quotient a b =
    subst (λ (n : ℕ). a ∣ n) (quotient_moves a b (gcd a b) (common a b).0 (common a b).1)
      (Nat.dvd-mul_right a (b / gcd a b))

lcm-no_wrap : (a b : ℕ) → 0 < a → 0 < b → a * b < 2 ^ 32 → lcm a b ≡ (a / gcd a b) * b
unfolding lcm
lcm-no_wrap a b ha hb h =
    let less : (a / gcd a b) * b ≤ a * b = Nat.mul-le-mul_right b (Nat.div-le_self a (gcd a b)) in
    ground (arith, Nat.mod-eq_of_lt {n = (a / gcd a b) * b} {m = 2 ^ 32})

-- Where the product of the numbers fits into 32 bits, the multiples of `lcm` are the common ones.
pub lcm-dvd_iff : (a b m : ℕ) → 0 < a → 0 < b → a * b < 2 ^ 32 → (lcm a b ∣ m) ↔ (a ∣ m × b ∣ m)
lcm-dvd_iff a b m ha hb h = rw (lcm-no_wrap a b ha hb h) (
  (λ d.
      (Nat.dvd_trans a (dvd-quotient a b) d, Nat.dvd_trans b (Nat.dvd-mul_left b (a / gcd a b)) d)),
  λ both. quotient-dvd a b m ha both.0 both.1,
)

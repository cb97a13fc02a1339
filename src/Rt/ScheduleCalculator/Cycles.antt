-- ===== src/Rt/ScheduleCalculator/Cycles.antt =====
-- src/core/rt/util/ScheduleCalculator.cpp: what `calculate` finds for periods of 16 bits, whose
-- products do not wrap.
use Prim.Native.Nat.{◌∣◌}
use native.Mathlib.Nat as Nat
use mxrc.Common.{
  ℕ, ◌*◌, ◌/◌, ◌^◌, ◌≤◌, ◌<◌, ◌≡◌, refl, ◌↔◌, ◌⊎◌, inl, inr, true, false, none, some, List, [], ◌∷◌,
  All, Bool-cases, Option-cases, dec_lt, subst, arith,
}
use mxrc.Rt.ScheduleCalculator.{
  ScheduleParams, gcd, lcm, has_zero, fold_minor, fold_major, calculate,
}
use mxrc.Rt.ScheduleCalculator.Gcd.{dvd-gcd_iff, lcm-dvd_iff}

abbrev pub IsPeriod : ℕ → Type 0
IsPeriod p = 0 < p × p < 2 ^ 16

fold_minor-dvd_iff :
    (k minor : ℕ) (periods : List ℕ)
    → (k ∣ fold_minor minor periods) ↔ (k ∣ minor × All (λ p. k ∣ p) periods)
unfolding fold_minor
fold_minor-dvd_iff k minor [] = ((λ d. (d, tt)), λ both. both.0)
fold_minor-dvd_iff k minor (period ∷ periods) =
    let ih = fold_minor-dvd_iff k (gcd minor period) periods in
    let here = dvd-gcd_iff k minor period in
    (
      (λ d. ((here.0 (ih.0 d).0).0, ((here.0 (ih.0 d).0).1, (ih.0 d).1))),
      λ all. ih.1 (here.1 (all.0, all.1.0), all.1.1),
    )

has_zero-false :
    (periods : List ℕ)
    → has_zero periods ≡ false
    → All (λ p. p < 2 ^ 16) periods
    → All IsPeriod periods
unfolding has_zero
has_zero-false [] e small = tt
has_zero-false (period ∷ periods) e small =
    ((ground arith, small.0), has_zero-false periods (ground arith) small.1)

-- The first step of the fold over positive numbers below 2 ^ 16.
lcm-step :
    (major period m : ℕ)
    → IsPeriod major
    → IsPeriod period
    → (lcm major period ∣ m) ↔ (major ∣ m × period ∣ m)
lcm-step major period m a b = lcm-dvd_iff major period m a.0 b.0 (
    let bound : major * period ≤ 65535 * 65535 =
      Nat.mul-le-mul {n₂ = 65535} {m₂ = 65535} (omega arith) (omega arith) in
    omega arith)

lcm-pos : (major period : ℕ) → IsPeriod major → IsPeriod period → 0 < lcm major period
lcm-pos major period a b =
    let product =
      (lcm-step major period (major * period) a b).1
        (Nat.dvd-mul_right major period, Nat.dvd-mul_left period major) in
    Nat.pos_of_dvd_of_pos product (Nat.mul-pos a.0 b.0)

fold_major-dvd_iff :
    (major : ℕ) (periods : List ℕ) (r : ℕ)
    → fold_major major periods ≡ some r
    → IsPeriod major
    → All IsPeriod periods
    → (m : ℕ) → (r ∣ m) ↔ (major ∣ m × All (λ p. p ∣ m) periods)
unfolding fold_major
fold_major-dvd_iff major [] r e h hs m =
    let same : major ≡ r = cc in
    subst (λ (n : ℕ). (n ∣ m) ↔ (major ∣ m × Unit)) same ((λ d. (d, tt)), λ both. both.0)
fold_major-dvd_iff major (period ∷ periods) r e h hs m =
    let small : lcm major period ≤ 1000 = ground arith in
    let ih =
      fold_major-dvd_iff (lcm major period) periods r (ground arith)
        (lcm-pos major period h hs.0, omega arith) hs.1 m in
    let here = lcm-step major period m h hs.0 in
    (
      (λ d. ((here.0 (ih.0 d).0).0, ((here.0 (ih.0 d).0).1, (ih.0 d).1))),
      λ all. ih.1 (here.1 (all.0, all.1.0), all.1.1),
    )

fold_major-none :
    (major : ℕ) (periods : List ℕ) (m : ℕ)
    → fold_major major periods ≡ none
    → IsPeriod major
    → All IsPeriod periods
    → 0 < m
    → major ∣ m
    → All (λ p. p ∣ m) periods
    → 1000 < m
unfolding fold_major
fold_major-none major [] m e h hs hm d ds = absurd (cc)
fold_major-none major (period ∷ periods) m e h hs hm d ds =
    let next = (lcm-step major period m h hs.0).1 (d, ds.0) in
    let above : lcm major period ≤ m = Nat.le_of_dvd hm next in
    elim (dec_lt 1000 (lcm major period)) [
      | yes large ↦ omega arith
      | no small ↦
          fold_major-none (lcm major period) periods m (ground arith)
            (lcm-pos major period h hs.0, omega arith) hs.1 hm next ds.1
    ]

abbrev schedule : ℕ → ℕ → ScheduleParams
schedule minor major = record {
  minor_cycle_ms = minor;
  major_cycle_ms = major;
  num_slots = major / minor;
}

-- The two ways in which `calculate` ends on periods that are given.
calculate-ends :
    (period : ℕ) (periods : List ℕ)
    → ((has_zero (period ∷ periods) ≡ true) × (calculate (period ∷ periods) ≡ none))
      ⊎ ((has_zero (period ∷ periods) ≡ false)
          × (fold_major period periods ≡ none)
          × (calculate (period ∷ periods) ≡ none))
      ⊎ ((has_zero (period ∷ periods) ≡ false)
          × ((major : ℕ) × (fold_major period periods ≡ some major)
              × (calculate (period ∷ periods) ≡ some (schedule (fold_minor period periods) major))))
unfolding calculate
calculate-ends period periods = elim (Bool-cases (has_zero (period ∷ periods))) [
  | inl z ↦ inl (z, rw z)
  | inr z ↦ elim (Option-cases (fold_major period periods)) [
    | inl f ↦ inr (inl (z, f, rw (z, f)))
    | inr (major, f) ↦ inr (inr (z, (major, f, rw (z, f))))
  ]
]

slots-fill :
    (period : ℕ) (periods : List ℕ) (major : ℕ)
    → fold_major period periods ≡ some major
    → All IsPeriod (period ∷ periods)
    → (major / fold_minor period periods) * fold_minor period periods ≡ major
slots-fill period periods major f hs =
    let divides =
      (fold_minor-dvd_iff (fold_minor period periods) period periods).0 (Nat.dvd_refl _) in
    let covers =
      (fold_major-dvd_iff period periods major f hs.0 hs.1 major).0 (Nat.dvd_refl major) in
    Nat.div-mul_cancel (fold_minor period periods)
      (Nat.dvd_trans (fold_minor period periods) divides.0 covers.0)

-- A schedule found for periods below 2 ^ 16: its minor cycle is their greatest common divisor, its
-- major cycle their least common multiple, and its slots fill the major cycle.
pub calculate-cycles :
    (periods : List ℕ) (s : ScheduleParams)
    → calculate periods ≡ some s
    → All (λ p. p < 2 ^ 16) periods
    → ((k : ℕ) → (k ∣ s.minor_cycle_ms) ↔ All (λ p. k ∣ p) periods)
      × ((m : ℕ) → (s.major_cycle_ms ∣ m) ↔ All (λ p. p ∣ m) periods)
      × (s.num_slots * s.minor_cycle_ms ≡ s.major_cycle_ms)
unfolding calculate
calculate-cycles [] s e small = absurd (cc)
calculate-cycles (period ∷ periods) s e small = elim (calculate-ends period periods) [
  | inl (z, f) ↦ absurd (cc)
  | inr (inl (z, f, g)) ↦ absurd (cc)
  | inr (inr (z, (major, f, g))) ↦
      let hs = has_zero-false (period ∷ periods) z small in
      let same : schedule (fold_minor period periods) major ≡ s = cc in
      subst
        (λ (t : ScheduleParams).
          ((k : ℕ) → (k ∣ t.minor_cycle_ms) ↔ All (λ p. k ∣ p) (period ∷ periods))
          × ((m : ℕ) → (t.major_cycle_ms ∣ m) ↔ All (λ p. p ∣ m) (period ∷ periods))
          × (t.num_slots * t.minor_cycle_ms ≡ t.major_cycle_ms))
        same
        (
          (λ k. fold_minor-dvd_iff k period periods),
          (λ m. fold_major-dvd_iff period periods major f hs.0 hs.1 m),
          slots-fill period periods major f hs,
        )
]

-- Where `calculate` refuses periods below 2 ^ 16, there are none, one is zero, or every positive
-- common multiple is above the second.
pub calculate-refused :
    (periods : List ℕ) (m : ℕ)
    → calculate periods ≡ none
    → All (λ p. p < 2 ^ 16) periods
    → 0 < m
    → All (λ p. p ∣ m) periods
    → (periods ≡ []) ⊎ (has_zero periods ≡ true) ⊎ (1000 < m)
calculate-refused [] m e small h ds = inl refl
calculate-refused (period ∷ periods) m e small h ds = elim (calculate-ends period periods) [
  | inl (z, f) ↦ inr (inl z)
  | inr (inl (z, f, g)) ↦
      let hs = has_zero-false (period ∷ periods) z small in
      inr (inr (fold_major-none period periods m f hs.0 hs.1 h ds.0 ds.1))
  | inr (inr (z, (major, f, g))) ↦ absurd (cc)
]

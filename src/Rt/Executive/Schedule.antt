-- ===== src/Rt/Executive/Schedule.antt =====
-- src/core/rt/RTExecutive.cpp: which slots `registerAction` gives to an action.
use native.Mathlib.Nat as Nat
use mxrc.Common.{
  ℕ, zero, suc, ◌+◌, ◌-◌, ◌/◌, ◌%◌, ◌^◌, ◌≤◌, ◌<◌, ◌≡◌, ◌≢◌, refl, ap, ◌∙◌, String, Bool, true,
  false, ◌&&◌, Option, none, some, List, [], ◌∷◌, ◌++◌, length, ◌==◌, leb, if◌then◌else◌, dec_lt,
  ℕ_discrete, arith,
}
use mxrc.Rt.StateMachine.{RtStateMachine}
use mxrc.Rt.Executive.{
  Context, new_action, RtExecutive, push_at, items_of, register_loop, register_action,
}

-- What a registration from `slot` on adds to slot `s`.
abbrev is_due : ℕ → ℕ → ℕ → Bool
is_due slot interval s = leb slot s && ((s - slot) % interval == 0)

module _ {A : Type 0} where
  length-push_at :
      (slot : ℕ) (a : A) (slots : List (List A)) → length (push_at slot a slots) ≡ length slots
  unfolding push_at
  length-push_at slot a [] = refl
  length-push_at zero a (items ∷ slots) = refl
  length-push_at (suc slot) a (items ∷ slots) = ap suc (length-push_at slot a slots)

  items_of-push_same :
      (slot : ℕ) (a : A) (slots : List (List A))
      → slot < length slots
      → items_of slot (push_at slot a slots) ≡ items_of slot slots ++ a ∷ []
  unfolding push_at items_of
  items_of-push_same slot a [] h = absurd (omega arith)
  items_of-push_same zero a (items ∷ slots) h = refl
  items_of-push_same (suc slot) a (items ∷ slots) h = items_of-push_same slot a slots (omega arith)

  items_of-push_other :
      (s slot : ℕ) (a : A) (slots : List (List A))
      → s ≢ slot
      → items_of s (push_at slot a slots) ≡ items_of s slots
  unfolding push_at items_of
  items_of-push_other s slot a [] h = refl
  items_of-push_other zero zero a (items ∷ slots) h = absurd (h refl)
  items_of-push_other (suc s) zero a (items ∷ slots) h = refl
  items_of-push_other zero (suc slot) a (items ∷ slots) h = refl
  items_of-push_other (suc s) (suc slot) a (items ∷ slots) h =
      items_of-push_other s slot a slots (omega arith)

is_due-here : (slot interval : ℕ) → is_due slot interval slot ≡ true
is_due-here slot interval =
    let none_left : slot - slot ≡ 0 = omega arith in
    ground (arith, none_left, Nat.zero-mod interval)

is_due-past : (slot interval : ℕ) → 0 < interval → is_due (slot + interval) interval slot ≡ false
is_due-past slot interval h = ground arith

is_due-first : (interval s : ℕ) → is_due 0 interval s ≡ (s % interval == 0)
is_due-first interval s = let same : s - 0 ≡ s = omega arith in ground (arith, same)

-- The slot after `slot` is due with it, unless it is `slot`.
is_due-later :
    (slot interval s : ℕ)
    → 0 < interval
    → s ≢ slot
    → is_due (slot + interval) interval s ≡ is_due slot interval s
is_due-later slot interval s h other = elim (dec_lt s (slot + interval)) [
  | yes before ↦ elim (dec_lt s slot) [
    | yes below ↦ ground arith
    | no above ↦ ground (arith, Nat.mod-eq_of_lt {n = s - slot} {m = interval} (omega arith))
  ]
  | no after ↦
      let same : (s - slot) % interval ≡ (s - slot - interval) % interval =
        Nat.mod-eq-sub-mod {n = s - slot} {m = interval} (omega arith) in
      let less : s - slot - interval ≡ s - (slot + interval) = omega arith in
      ground (arith, same, less)
]

module _ {A : Type 0} where
  -- Enough rounds for the loop, whatever slot it starts at.
  register_loop-adds :
      (rounds slot interval : ℕ) (a : A) (n : ℕ) (slots : List (List A))
      → 0 < interval
      → n + interval ≤ 2 ^ 32
      → n ≤ length slots
      → n - slot < rounds
      → (result : List (List A)) × (register_loop rounds slot interval a n slots ≡ some result)
        × (length result ≡ length slots)
        × ((s : ℕ)
            → s < n
            → items_of s result
              ≡ (if is_due slot interval s then items_of s slots ++ a ∷ [] else items_of s slots))
  unfolding register_loop
  register_loop-adds zero slot interval a n slots h bound fits enough = absurd (omega arith)
  register_loop-adds (suc rounds) slot interval a n slots h bound fits enough =
      elim (dec_lt slot n) [
        | yes inside ↦
            let next : (slot + interval) % 2 ^ 32 ≡ slot + interval =
              Nat.mod-eq_of_lt (omega arith) in
            let (result, made, long, found) =
              register_loop-adds rounds (slot + interval) interval a n (push_at slot a slots) h
                bound (omega (arith, length-push_at slot a slots)) (omega arith) in
            (
              result,
              rw next (ground arith),
              long ∙ length-push_at slot a slots,
              λ s below. found s below ∙ elim (ℕ_discrete s slot) [
                | yes e ↦ rw e (
                    rw (is_due-here slot interval, is_due-past slot interval h)
                      (items_of-push_same slot a slots (omega arith)))
                | no other ↦
                    rw
                      (
                        is_due-later slot interval s h other,
                        items_of-push_other s slot a slots other,
                      )
                      refl
              ],
            )
        | no outside ↦ (slots, ground arith, refl, λ s below. ground arith)
      ]

pub interval-pos : (period minor : ℕ) → 0 < period → period % minor ≡ 0 → 0 < period / minor
interval-pos period minor h e = elim (dec_lt 0 (period / minor)) [
  | yes above ↦ above
  | no none_left ↦
      let q : period / minor ≡ 0 = omega arith in
      let whole = Nat.div-add-mod' period minor in
      absurd (omega (arith, rw (q, e, Nat.zero-mul) at whole))
]

module _ {W : Type 0} where
  -- A period of at least one minor cycle that is a multiple of it: the registration ends, and the
  -- action is added to a slot of the schedule exactly where the interval divides its number.
  pub register_action-slots :
      (name : String) (period : ℕ) (callback : Option (Context → W → Context × W))
      (guard : Option (RtStateMachine W → Bool)) (e : RtExecutive W) (s : ℕ)
      → 0 < e.minor_cycle_ms
      → 0 < period
      → period % e.minor_cycle_ms ≡ 0
      → e.num_slots + period / e.minor_cycle_ms ≤ 2 ^ 32
      → length e.schedule ≡ e.num_slots
      → s < e.num_slots
      → (e' : RtExecutive W) × (e'.num_slots ≡ e.num_slots)
        × (register_action (suc e.num_slots) name period callback guard e ≡ some (e', true))
        × (length e'.schedule ≡ e.num_slots)
        × (items_of s e'.schedule ≡ (
            if s % (period / e.minor_cycle_ms) == 0
            then items_of s e.schedule
              ++ new_action name period callback guard (period / e.minor_cycle_ms) ∷ []
            else items_of s e.schedule))
  unfolding register_action
  register_action-slots name period callback guard e s minor_pos period_pos divides bound fits
        below =
      let interval : ℕ = period / e.minor_cycle_ms in
      let (result, made, long, found) =
        register_loop-adds (suc e.num_slots) 0 interval
          (new_action name period callback guard interval) e.num_slots e.schedule
          (interval-pos period e.minor_cycle_ms period_pos divides) bound (omega arith)
          (omega arith) in
      (
        record e { schedule = result },
        refl,
        rw (divides, made) refl,
        long ∙ fits,
        found s below ∙ rw (is_due-first interval s) refl,
      )

module _ {A : Type 0} where
  zero-turns :
      (rounds : ℕ) (a : A) (n : ℕ) (slots : List (List A))
      → 0 < n
      → register_loop rounds 0 0 a n slots ≡ none
  unfolding register_loop
  zero-turns zero a n slots h = refl
  zero-turns (suc rounds) a n slots h =
      let ih = zero-turns rounds a n (push_at 0 a slots) h in ground (arith, ih)

module _ {W : Type 0} where
  -- With at least one slot, the registration of a period of zero does not end within any number of
  -- rounds.
  pub register_action-zero :
      (rounds : ℕ) (name : String) (callback : Option (Context → W → Context × W))
      (guard : Option (RtStateMachine W → Bool)) (e : RtExecutive W)
      → 0 < e.num_slots
      → register_action rounds name 0 callback guard e ≡ none
  unfolding register_action
  register_action-zero rounds name callback guard e h =
      rw
        (
          Nat.zero-mod e.minor_cycle_ms,
          Nat.zero-div e.minor_cycle_ms,
          zero-turns rounds (new_action name 0 callback guard 0) e.num_slots e.schedule h,
        )
        refl

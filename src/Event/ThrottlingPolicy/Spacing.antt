-- ===== src/Event/ThrottlingPolicy/Spacing.antt =====
-- The times at which a throttling policy lets the events of one type through.
use mxrc.Common.{
  ℕ, ◌+◌, ◌^◌, ◌≤◌, ◌<◌, ◌≡◌, refl, sym, ap, ◌∙◌, subst, inl, inr, String, true, Option, none, some,
  List, [], ◌∷◌, arith, leb, if◌then◌else◌, ◌&&◌, str_eq, eq_iff, lookup, lookup-insert, Bool-cases,
  Option-cases,
}
use mxrc.Event.ThrottlingPolicy.{ThrottlingPolicy, new, since, note_sent, should_send}

-- The times of the events of one type that are let through, in a sequence of events.
unfoldable pub sends : String → ThrottlingPolicy → List (String × ℕ) → List ℕ
sends key p [] = []
sends key p ((event_type, now) ∷ rest) =
    let (q, sent) = should_send event_type now p in
    let more = sends key q rest in if str_eq event_type key && sent then now ∷ more else more

-- Every time is at least the interval after the one before.
abbrev pub IsSpaced : ℕ → Option ℕ → List ℕ → Type 0
IsSpaced interval last [] = Unit
IsSpaced interval none (time ∷ times) = IsSpaced interval (some time) times
IsSpaced interval (some last) (time ∷ times) =
    (last + interval ≤ time) × IsSpaced interval (some time) times

-- The clock does not go back, and is a 64-bit number.
abbrev pub Rises : ℕ → List (String × ℕ) → Type 0
Rises clock [] = Unit
Rises clock ((event_type, now) ∷ rest) = (clock ≤ now) × (now < 2 ^ 64) × Rises now rest

should_send-lookup :
    (event_type key : String) (now : ℕ) (p : ThrottlingPolicy)
    → lookup key (should_send event_type now p).0.last_sent_time ≡ (
        if str_eq event_type key && (should_send event_type now p).1
        then some now
        else lookup key p.last_sent_time)
unfolding should_send note_sent
should_send-lookup event_type key now p =
    let noted = lookup-insert event_type key now p.last_sent_time in
    elim (Option-cases (lookup event_type p.last_sent_time)) [
      | inl e ↦ ground (arith, e, noted)
      | inr (last, e) ↦ elim (Bool-cases (leb p.throttle_interval_ms (since now last))) [
        | inl h ↦ ground (arith, e, h, noted)
        | inr h ↦ ground (arith, e, h, noted)
      ]
    ]

should_send-interval :
    (event_type : String) (now : ℕ) (p : ThrottlingPolicy)
    → (should_send event_type now p).0.throttle_interval_ms ≡ p.throttle_interval_ms
unfolding should_send note_sent
should_send-interval event_type now p = elim (Option-cases (lookup event_type p.last_sent_time)) [
  | inl e ↦ rw (should_send, e) refl
  | inr (last, e) ↦ elim (Bool-cases (leb p.throttle_interval_ms (since now last))) [
    | inl h ↦ rw (should_send, e, h) refl
    | inr h ↦ rw (should_send, e, h) refl
  ]
]

-- An event is let through only when the interval has passed since the last.
should_send-spaced :
    (event_type : String) (now last : ℕ) (p : ThrottlingPolicy)
    → lookup event_type p.last_sent_time ≡ some last
    → (should_send event_type now p).1 ≡ true
    → last ≤ now
    → now < 2 ^ 64
    → last + p.throttle_interval_ms ≤ now
unfolding should_send since
should_send-spaced event_type now last p e h old fits =
    elim (Bool-cases (leb p.throttle_interval_ms (since now last))) [
      | inl passed ↦ ground (arith, passed)
      | inr early ↦ absurd (ground (arith, e, h, early))
    ]

sends_from :
    (key : String) (calls : List (String × ℕ)) (clock : ℕ) (p : ThrottlingPolicy)
    → ((t : ℕ) → lookup key p.last_sent_time ≡ some t → t ≤ clock)
    → Rises clock calls
    → IsSpaced p.throttle_interval_ms (lookup key p.last_sent_time) (sends key p calls)
unfolding sends
sends_from key [] clock p old rises = tt
sends_from key ((event_type, now) ∷ rest) clock p old rises =
    let q : ThrottlingPolicy = (should_send event_type now p).0 in
    let noted = should_send-lookup event_type key now p in
    let kept = should_send-interval event_type now p in
    elim (Bool-cases (str_eq event_type key && (should_send event_type now p).1)) [
      | inl sent ↦
          let now_last : lookup key q.last_sent_time ≡ some now = noted ∙ rw sent refl in
          let named : str_eq event_type key ≡ true = ground (arith, sent) in
          let through : (should_send event_type now p).1 ≡ true = ground (arith, sent) in
          let later =
            subst (λ (i : ℕ). IsSpaced i (some now) (sends key q rest)) kept
              (subst (λ (o : Option ℕ). IsSpaced q.throttle_interval_ms o (sends key q rest))
                now_last
                (sends_from key rest now q (λ t e. ground (arith, now_last, e)) rises.2)) in
          rw sent (elim (Option-cases (lookup key p.last_sent_time)) [
            | inl e ↦ rw e later
            | inr (last, e) ↦
                let same =
                  ap (λ (k : String). lookup k p.last_sent_time)
                    ((eq_iff event_type key).0 named) in
                rw e (
                  should_send-spaced event_type now last p (same ∙ e) through
                      (omega (arith, old last e)) rises.1,
                  later,
                )
          ])
      | inr silent ↦
          let same : lookup key q.last_sent_time ≡ lookup key p.last_sent_time =
            noted ∙ rw silent refl in
          rw silent (
            subst (λ (i : ℕ). IsSpaced i (lookup key p.last_sent_time) (sends key q rest)) kept
              (subst (λ (o : Option ℕ). IsSpaced q.throttle_interval_ms o (sends key q rest)) same
                (sends_from key rest now q (λ t e. omega (arith, old t (sym same ∙ e))) rises.2)))
    ]

-- For every sequence of events at times that do not go back and are 64-bit numbers, given to a new
-- policy: of the events of one type, each that is let through comes at least the interval after the
-- one let through before it.
pub sends-IsSpaced :
    (interval clock : ℕ) (key : String) (events : List (String × ℕ))
    → Rises clock events
    → IsSpaced interval none (sends key (new interval) events)
unfolding new lookup
sends-IsSpaced interval clock key events rises =
    sends_from key events clock (new interval) (λ t e. absurd cc) rises

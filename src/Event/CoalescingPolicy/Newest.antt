-- ===== src/Event/CoalescingPolicy/Newest.antt =====
-- What a coalescing policy hands out.
pub mod Tests
use mxrc.Common.{
  ℕ, ◌+◌, ◌-◌, ◌%◌, ◌^◌, ◌≡◌, refl, sym, ap, ◌∙◌, inl, inr, String, Bool, true, false, Option, none,
  some, List, [], ◌∷◌, ◌++◌, arith, leb, if◌then◌else◌, str_eq, eq_iff, lookup, insert,
  lookup-insert, Bool-cases, Option-cases,
}
use mxrc.Event.PrioritizedEvent.{PrioritizedEvent}
use mxrc.Event.CoalescingPolicy.{
  PendingEvent, CoalescingPolicy, new, keep, coalesce, flush_event_type,
}

module _ {P : Type 0} where
  unfoldable pub run : List (PrioritizedEvent P × ℕ) → CoalescingPolicy P → CoalescingPolicy P
  run [] p = p
  run ((e, now) ∷ rest) p = run rest (coalesce e now p).0

  -- The specification: the last event of a type.
  unfoldable pub newest :
      String
      → List (PrioritizedEvent P × ℕ)
      → Option (PrioritizedEvent P)
      → Option (PrioritizedEvent P)
  newest key [] last = last
  newest key ((e, now) ∷ rest) last = newest key rest (if str_eq e.type key then some e else last)

  abbrev event_of : Option (PendingEvent P) → Option (PrioritizedEvent P)
  event_of none = none
  event_of (some pending) = some pending.event

  coalesce-event_of :
      (key : String) (e : PrioritizedEvent P) (now : ℕ) (p : CoalescingPolicy P)
      → event_of (lookup key (coalesce e now p).0.pending_events)
        ≡ (if str_eq e.type key then some e else event_of (lookup key p.pending_events))
  unfolding coalesce keep
  coalesce-event_of key e now p = elim (Option-cases (lookup e.type p.pending_events)) [
    | inl none_yet ↦ ground (
      arith,
      none_yet,
      lookup-insert e.type key (record { event = e; timestamp_ms = now }) p.pending_events,
    )
    | inr (pending, there) ↦
        elim (Bool-cases
          (leb p.coalesce_window_ms ((now + 2 ^ 64 - pending.timestamp_ms) % 2 ^ 64))) [
            | inl over ↦ ground (
              arith,
              there,
              over,
              lookup-insert e.type key (record { event = e; timestamp_ms = now }) p.pending_events,
            )
            | inr within ↦ ground (
              arith,
              there,
              within,
              lookup-insert e.type key (record { event = e; timestamp_ms = pending.timestamp_ms })
                  p.pending_events,
            )
          ]
  ]

  newest_from :
      (key : String) (events : List (PrioritizedEvent P × ℕ)) (p : CoalescingPolicy P)
      → event_of (lookup key (run events p).pending_events)
        ≡ newest key events (event_of (lookup key p.pending_events))
  unfolding run newest
  newest_from key [] p = refl
  newest_from key ((e, now) ∷ rest) p =
      newest_from key rest (coalesce e now p).0
      ∙ ap (newest key rest) (coalesce-event_of key e now p)

  flush-event_of :
      (key : String) (p : CoalescingPolicy P)
      → (flush_event_type key p).1 ≡ event_of (lookup key p.pending_events)
  unfolding flush_event_type
  flush-event_of key p = elim (Option-cases (lookup key p.pending_events)) [
    | inl e ↦ rw (flush_event_type, e) refl
    | inr (pending, e) ↦ rw (flush_event_type, e) refl
  ]

  -- After any sequence of events, at any times, on a new policy: flushing a type hands out the last
  -- event of that type in the sequence, and nothing if there was none.
  pub flush_event_type-newest :
      (window : ℕ) (key : String) (events : List (PrioritizedEvent P × ℕ))
      → (flush_event_type key (run events (new window))).1 ≡ newest key events none
  unfolding new lookup
  flush_event_type-newest window key events =
      flush-event_of key (run events (new window)) ∙ newest_from key events (new window)

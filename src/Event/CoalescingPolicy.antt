-- ===== src/Event/CoalescingPolicy.antt =====
-- src/core/event/adapters/CoalescingPolicy.{h,cpp}: at most one waiting event for each type. The clock,
-- in milliseconds, is read by the caller; the order of a flush is that of the map.
pub mod Newest
use mxrc.Common.{
  ℕ, ◌+◌, ◌-◌, ◌%◌, ◌^◌, String, Bool, Option, none, some, List, [], ◌∷◌, leb, if◌then◌else◌,
  lookup, insert, erase, length,
}
use mxrc.Event.PrioritizedEvent.{PrioritizedEvent}

pub record PendingEvent (P : Type 0) : Type 0 where
  pub event : PrioritizedEvent P
  pub timestamp_ms : ℕ

pub record CoalescingPolicy (P : Type 0) : Type 0 where
  pub coalesce_window_ms : ℕ
  pub pending_events : List (String × PendingEvent P)

module _ {P : Type 0} where
  unfoldable pub new : ℕ → CoalescingPolicy P
  new window = record { coalesce_window_ms = window; pending_events = [] }

  unfoldable pub keep : PrioritizedEvent P → ℕ → CoalescingPolicy P → CoalescingPolicy P
  keep e time p = record p {
    pending_events = insert e.type (record { event = e; timestamp_ms = time }) p.pending_events;
  }

  unfoldable pub coalesce :
      PrioritizedEvent P → ℕ → CoalescingPolicy P → CoalescingPolicy P × Option (PrioritizedEvent P)
  coalesce e now p = elim (lookup e.type p.pending_events) [
    | none ↦ (keep e now p, none)
    | some pending ↦
        if leb p.coalesce_window_ms ((now + 2 ^ 64 - pending.timestamp_ms) % 2 ^ 64)
        then (keep e now p, some pending.event)
        else (keep e pending.timestamp_ms p, none)
  ]

  abbrev events_of : List (String × PendingEvent P) → List (PrioritizedEvent P)
  events_of [] = []
  events_of ((type, pending) ∷ rest) = pending.event ∷ events_of rest

  unfoldable pub flush : CoalescingPolicy P → CoalescingPolicy P × List (PrioritizedEvent P)
  flush p = (record p { pending_events = [] }, events_of p.pending_events)

  unfoldable pub flush_event_type :
      String → CoalescingPolicy P → CoalescingPolicy P × Option (PrioritizedEvent P)
  flush_event_type type p = elim (lookup type p.pending_events) [
    | none ↦ (p, none)
    | some pending ↦ (record p { pending_events = erase type p.pending_events }, some pending.event)
  ]

  unfoldable pub get_pending_count : CoalescingPolicy P → ℕ
  get_pending_count p = length p.pending_events

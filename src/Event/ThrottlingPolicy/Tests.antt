-- ===== src/Event/ThrottlingPolicy/Tests.antt =====
-- A throttling policy on a short sequence of events.
use mxrc.Common.{ℕ, String, ◌≡◌, refl, List, [], ◌∷◌, none, arith, lookup, insert}
use mxrc.Event.ThrottlingPolicy.{new, should_send, note_sent, since}
use mxrc.Event.ThrottlingPolicy.Spacing.{sends, IsSpaced, sends-IsSpaced}

abbrev events : List (String × ℕ)
events = ("task", 1000) ∷ ("alarm", 1040) ∷ ("task", 1060) ∷ ("task", 1100) ∷ ("alarm", 1150) ∷ []

times_lem : sends "task" (new 100) events ≡ 1000 ∷ 1100 ∷ []
unfolding sends should_send new note_sent since lookup insert
times_lem = refl

sends-IsSpaced_example : IsSpaced 100 none (sends "task" (new 100) events)
sends-IsSpaced_example = sends-IsSpaced 100 0 "task" events (
  omega arith,
  omega arith,
  (
    omega arith,
    omega arith,
    (omega arith, omega arith, (omega arith, omega arith, (omega arith, omega arith, tt))),
  ),
)

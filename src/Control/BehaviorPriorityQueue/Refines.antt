-- ===== src/Control/BehaviorPriorityQueue/Refines.antt =====
-- BehaviorPriorityQueue against a list that is kept in the order of the priorities.
use mxrc.Common.{
  ℕ, ◌≡◌, refl, ◌∙◌, inl, inr, ap, Option, none, some, List, [], ◌∷◌, head?, tail, arith,
}
use mxrc.Control.Priority.{rank}
use mxrc.Control.Request.{BehaviorRequest}
use mxrc.Control.Lanes.{to_list, empty}
use mxrc.Control.Lanes.Order.{
  IsHomed, insert_by, to_list-push_back, push_back-IsHomed, empty-IsHomed,
}
use mxrc.Control.Lanes.Pop.{pop_front-Splits, pop_front-IsHomed}
use mxrc.Control.BehaviorPriorityQueue.{BehaviorPriorityQueue, push, pop, clear}

abbrev pub urgency : BehaviorRequest → ℕ
urgency r = rank r.priority

pub data Call : Type 0 where
  pushes : BehaviorRequest → Call
  pops clears : Call

-- One call on the queue, with what it hands out.
abbrev popped :
    BehaviorPriorityQueue
    → Option (BehaviorRequest × BehaviorPriorityQueue)
    → BehaviorPriorityQueue × Option BehaviorRequest
popped q none = (q, none)
popped q (some (r, rest)) = (rest, some r)

unfoldable pub step : BehaviorPriorityQueue → Call → BehaviorPriorityQueue × Option BehaviorRequest
step q (pushes r) = ((push r q).0, none)
step q pops = popped q (pop q)
step q clears = (clear q, none)

unfoldable pub outputs : BehaviorPriorityQueue → List Call → List (Option BehaviorRequest)
outputs q [] = []
outputs q (c ∷ cs) = let (q', r) = step q c in r ∷ outputs q' cs

-- The same on the specification: one list, the most urgent first and the oldest first among equals.
unfoldable pub spec_step :
    List BehaviorRequest → Call → List BehaviorRequest × Option BehaviorRequest
spec_step l (pushes r) = (insert_by urgency r l, none)
spec_step l pops = (tail l, head? l)
spec_step l clears = ([], none)

unfoldable pub spec_outputs : List BehaviorRequest → List Call → List (Option BehaviorRequest)
spec_outputs l [] = []
spec_outputs l (c ∷ cs) = let (l', r) = spec_step l c in r ∷ spec_outputs l' cs

clear_left : to_list {A = BehaviorRequest} empty ≡ []
unfolding to_list empty
clear_left = refl

record Refines (q : BehaviorPriorityQueue) (c : Call) : Type 0 where
  left : to_list (step q c).0 ≡ (spec_step (to_list q) c).0
  out : (step q c).1 ≡ (spec_step (to_list q) c).1
  homed : IsHomed urgency (step q c).0

step-Refines : (q : BehaviorPriorityQueue) (c : Call) → IsHomed urgency q → Refines q c
unfolding step spec_step push pop clear
step-Refines q (pushes r) h = record {
  left = to_list-push_back urgency r r.priority q h refl;
  out = refl;
  homed = push_back-IsHomed urgency r r.priority q h refl;
}
step-Refines q pops h = elim (pop_front-Splits q) [
  | inl (e, none_left) ↦ record {
    left = ground (arith, e, none_left);
    out = ground (arith, e, none_left);
    homed = ground (arith, none_left, h);
  }
  | inr (r, rest, e, found) ↦ record {
    left = ground (arith, e, found);
    out = ground (arith, e, found);
    homed = ground (arith, found, pop_front-IsHomed urgency q h found);
  }
]
step-Refines q clears h = record { left = clear_left; out = refl; homed = empty-IsHomed urgency }

outputs-from :
    (q : BehaviorPriorityQueue) (cs : List Call)
    → IsHomed urgency q
    → outputs q cs ≡ spec_outputs (to_list q) cs
unfolding outputs spec_outputs
outputs-from q [] h = refl
outputs-from q (c ∷ cs) h =
    let r = step-Refines q c h in rw (r.out, outputs-from (step q c).0 cs r.homed, r.left) refl

-- Any calls on an empty queue hand out what the ordered list hands out: the most urgent entry
-- first, the oldest first among equals, and none if nothing waits.
pub outputs-spec_outputs : (cs : List Call) → outputs empty cs ≡ spec_outputs [] cs
outputs-spec_outputs cs =
    outputs-from empty cs (empty-IsHomed urgency) ∙ ap (λ l. spec_outputs l cs) clear_left

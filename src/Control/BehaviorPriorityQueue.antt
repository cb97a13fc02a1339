-- ===== src/Control/BehaviorPriorityQueue.antt =====
-- src/core/control/impl/BehaviorPriorityQueue.{h,cpp}. A tbb::concurrent_queue is a first-in-
-- first-out list: each operation of it is one atomic step.
pub mod Refines
use mxrc.Common.{
  ◌≡◌, refl, ℕ, ◌+◌, ◌≡◌, refl, sym, ◌∙◌, ◌⊎◌, inl, inr, Bool, true, Option, none, some, List, [],
  ◌∷◌, length, is_empty, arith, head?, tail,
}
use mxrc.Control.Priority.{Priority, rank}
use mxrc.Control.Request.{BehaviorRequest}
use mxrc.Control.Lanes
use mxrc.Control.Lanes.{Lanes, lane, push_back, pop_front}
use mxrc.Control.Lanes.Order.{
  IsHomed, insert_by, to_list-push_back, push_back-IsHomed, empty-IsHomed,
}
use mxrc.Control.Lanes.Pop.{pop_front-Splits, pop_front-IsHomed, size-length, all_empty-to_list}

abbrev pub BehaviorPriorityQueue : Type 0
BehaviorPriorityQueue = Lanes BehaviorRequest

-- The `default` branch of the source is for values outside the enumeration.
unfoldable pub push : BehaviorRequest → BehaviorPriorityQueue → BehaviorPriorityQueue × Bool
push r q = (push_back r.priority r q, true)

unfoldable pub pop : BehaviorPriorityQueue → Option (BehaviorRequest × BehaviorPriorityQueue)
pop q = pop_front q

unfoldable pub is_empty_queue : BehaviorPriorityQueue → Bool
is_empty_queue q = Lanes.all_empty q

unfoldable pub size : BehaviorPriorityQueue → ℕ
size q = Lanes.size q

unfoldable pub clear : BehaviorPriorityQueue → BehaviorPriorityQueue
clear q = Lanes.empty

unfoldable pub size_of : Priority → BehaviorPriorityQueue → ℕ
size_of p q = length (lane p q)

pub pop-empty : pop Lanes.empty ≡ none
unfolding pop pop_front Lanes.try_pop Lanes.empty
pop-empty = refl

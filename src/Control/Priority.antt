-- ===== src/Control/Priority.antt =====
-- src/core/control/dto/Priority.h.
use mxrc.Common.{ℕ, String, Bool, leb}

pub data Priority : Type 0 where
  emergency_stop safety_issue urgent_task normal_task maintenance : Priority

-- The enumerator's value; a smaller one comes first.
abbrev pub rank : Priority → ℕ
rank emergency_stop = 0
rank safety_issue = 1
rank urgent_task = 2
rank normal_task = 3
rank maintenance = 4

unfoldable pub to_string : Priority → String
to_string emergency_stop = "EMERGENCY_STOP"
to_string safety_issue = "SAFETY_ISSUE"
to_string urgent_task = "URGENT_TASK"
to_string normal_task = "NORMAL_TASK"
to_string maintenance = "MAINTENANCE"

unfoldable pub can_preempt : Priority → Bool
can_preempt p = leb (rank p) (rank urgent_task)

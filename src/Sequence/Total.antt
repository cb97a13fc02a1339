-- ===== src/Sequence/Total.antt =====
-- src/core/sequence/core/SequenceEngine.cpp: an execution that nobody pauses ends.
use mxrc.Action.Result as Action
use mxrc.Action.Result.{Outcome-cases}

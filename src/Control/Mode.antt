-- ===== src/Control/Mode.antt =====
-- src/core/control/dto/ControlMode.h.
use mxrc.Common.{String, Bool, true, false}

pub data ControlMode : Type 0 where
  boot init standby manual ready auto fault maint charging : ControlMode

unfoldable pub to_string : ControlMode → String
to_string boot = "BOOT"
to_string init = "INIT"
to_string standby = "STANDBY"
to_string manual = "MANUAL"
to_string ready = "READY"
to_string auto = "AUTO"
to_string fault = "FAULT"
to_string maint = "MAINT"
to_string charging = "CHARGING"

-- The first clause of the source, `to == FAULT`, is the clause of each mode for `fault`.
unfoldable pub is_valid_transition : ControlMode → ControlMode → Bool
is_valid_transition _ fault = true
is_valid_transition boot init = true
is_valid_transition init standby = true
is_valid_transition standby manual = true
is_valid_transition standby ready = true
is_valid_transition standby auto = true
is_valid_transition standby maint = true
is_valid_transition manual standby = true
is_valid_transition ready auto = true
is_valid_transition ready standby = true
is_valid_transition auto ready = true
is_valid_transition auto standby = true
is_valid_transition auto charging = true
is_valid_transition fault standby = true
is_valid_transition maint standby = true
is_valid_transition charging standby = true
is_valid_transition charging auto = true
is_valid_transition _ _ = false

-- ===== src/Alarm.antt =====
-- src/core/alarm: alarm data, the configuration of the alarm codes, and the alarm manager.
pub mod Dto
pub mod Config
pub mod Manager
pub mod Tests

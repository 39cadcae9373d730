-- ===== src/Actuator.antt =====
-- safa-core/src/actuator/: the actuators, which carry the actions out.
pub mod Http
pub mod Shell
pub mod File

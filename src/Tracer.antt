-- ===== src/Tracer.antt =====
-- src/fuzz/trace.py and src/fuzz/condition.py: how the log of an instrumented run is read back.
pub mod Python
pub mod Line
pub mod Condition
pub mod State

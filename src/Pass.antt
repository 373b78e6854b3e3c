-- ===== src/Pass.antt =====
-- trace/trace-pass.so.cc: the LLVM pass that inserts the logging calls.
pub mod Ir
pub mod BlockIds
pub mod Condition
pub mod Instrument

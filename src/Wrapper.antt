-- ===== src/Wrapper.antt =====
-- trace/clang-trace.c: the compiler wrapper.
pub mod Base
pub mod Safe
pub mod FindObj
pub mod Params
pub mod Main

-- ===== src/Tests.antt =====
-- Runs of the model at concrete inputs.
pub mod Sample
pub mod Pass
pub mod Tracer
pub mod Alloc
pub mod Track
pub mod Fuzzer
pub mod Loop
pub mod Debug
pub mod EndToEnd
pub mod Wrapper

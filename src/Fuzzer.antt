-- ===== src/Fuzzer.antt =====
-- What src/fuzz keeps of the fuzzers' runs: the map of covered edges, the saved seeds, and the
-- constraints of the concolic executor.
pub mod Bitmap
pub mod Constraints
pub mod Depot
pub mod CrackMap
pub mod Hits
pub mod Order
pub mod Loop
pub mod Stats
pub mod Mutant
pub mod Names
pub mod Executor
pub mod Cracking

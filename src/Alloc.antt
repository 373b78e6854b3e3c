-- ===== src/Alloc.antt =====
-- trace/include/alloc-inl.h: the error-checking allocator of the compiler wrapper.
pub mod Heap
pub mod Libc
pub mod Check
pub mod Dfl
pub mod Cells
pub mod Owns
pub mod Ends
pub mod Track

-- ===== src/Alloc/Check.antt =====
-- The macros of trace/include/alloc-inl.h that check sizes, results and pointers.
use co_fuzz.Prelude.{ℕ, Option, none, some, ◌==◌, ltb, get_elem?, if◌then◌else◌}
use co_fuzz.Alloc.Heap.{
  bad_alloc_request, out_of_memory, use_after_free, corrupted_head, corrupted_tail, fault, Cmd,
  pure, stop, ◌>>=◌, ◌>>◌, null, peek, set_head, set_size, set_tail,
}

-- MAX_ALLOC of trace/include/config.h
abbrev pub max_alloc : ℕ
max_alloc = 0x40000000

-- ALLOC_MAGIC_C1, ALLOC_MAGIC_F, ALLOC_MAGIC_C2
abbrev pub magic_c1 : ℕ
magic_c1 = 0xFF00FF00

abbrev pub magic_f : ℕ
magic_f = 0xFE00FE00

abbrev pub magic_c2 : ℕ
magic_c2 = 0xF0

-- ALLOC_CHECK_SIZE(size)
unfoldable pub alloc_check_size : ℕ → Cmd (Unit {0})
alloc_check_size size = if ltb max_alloc size then stop (bad_alloc_request size) else pure tt

-- ALLOC_CHECK_RESULT(ret, size)
unfoldable pub alloc_check_result : ℕ → ℕ → Cmd (Unit {0})
alloc_check_result ret size = if ret == null then stop (out_of_memory size) else pure tt

-- The test of the tail canary, on the byte at ALLOC_C2.
unfoldable pub check_tail : Option ℕ → Cmd (Unit {0})
check_tail none = λ h. fault
check_tail (some tail) = if tail == magic_c2 then pure tt else stop corrupted_tail

-- The test of the head canary.
unfoldable pub check_head : ℕ → Cmd (Unit {0})
check_head head =
    if head == magic_c1
    then pure tt
    else if head == magic_f
    then stop use_after_free
    else stop corrupted_head

-- CHECK_PTR(p)
unfoldable pub check_ptr : ℕ → Cmd (Unit {0})
unfolding check_head check_tail peek
check_ptr p =
    if p == null
    then pure tt
    else do c ← peek p; check_head c.head; check_tail (get_elem? c.body c.size)

-- The three assignments behind every allocation: ALLOC_C1, ALLOC_S, ALLOC_C2.
unfoldable pub stamp : ℕ → ℕ → Cmd (Unit {0})
stamp p size = set_head p magic_c1 >> set_size p size >> set_tail p magic_c2

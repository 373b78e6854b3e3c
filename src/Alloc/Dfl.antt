-- ===== src/Alloc/Dfl.antt =====
-- The DFL_ck_ functions of trace/include/alloc-inl.h. `debug_build` is whether DEBUG_BUILD is set.
-- A size is a u32, so what is added to it wraps.
use co_fuzz.Prelude.{
  ℕ, ◌+◌, ◌-◌, ◌%◌, ◌^◌, min, Bool, ◌||◌, [], ◌∷◌, ◌++◌, Option, none, some, ◌==◌, leb, ltb, length,
  take, replicate, if◌then◌else◌,
}
use co_fuzz.Prelude.Text.{Bytes}
use co_fuzz.Alloc.Heap.{
  Cmd, pure, ◌>>=◌, ◌>>◌, null, off_head, off_total, peek, set_head, set_byte, write_bytes,
  read_bytes,
}
use co_fuzz.Alloc.Libc.{Libc, malloc, realloc, free}
use co_fuzz.Alloc.Check.{magic_f, alloc_check_size, alloc_check_result, check_ptr, stamp}

abbrev pub wrap32 : ℕ → ℕ
wrap32 n = n % 2 ^ 32

-- ALLOC_BLK_INC
abbrev pub alloc_blk_inc : ℕ
alloc_blk_inc = 256

module _ (libc : Libc) where
  -- The common start of the allocating functions: a stamped block for `size` bytes, with `extra`
  -- bytes behind the canary.
  unfoldable pub new_block : (size extra : ℕ) → Cmd ℕ
  new_block size extra = do
    alloc_check_size size
    ret ← malloc libc (wrap32 (size + off_total + extra))
    alloc_check_result ret size
    stamp (ret + off_head) size
    pure (ret + off_head)

  unfoldable pub ck_alloc_nozero : ℕ → Cmd ℕ
  ck_alloc_nozero size = if size == 0 then pure null else new_block size 0

  unfoldable pub ck_alloc : ℕ → Cmd ℕ
  ck_alloc size =
      if size == 0
      then pure null
      else do mem ← ck_alloc_nozero size; write_bytes mem 0 (replicate size 0); pure mem

  -- `str` is the C string at a pointer, or nothing for NULL.
  unfoldable pub ck_strdup : Option Bytes → Cmd ℕ
  ck_strdup none = pure null
  ck_strdup (some str) = do
    let size = wrap32 (length str + 1)
    ret ← new_block size 0
    write_bytes ret 0 (take size (str ++ 0 ∷ []))
    pure ret

  -- `mem` is the `size` bytes at a pointer, or nothing for NULL.
  unfoldable pub ck_memdup : Option Bytes → Cmd ℕ
  ck_memdup none = pure null
  ck_memdup (some mem) =
      if length mem == 0
      then pure null
      else do ret ← new_block (length mem) 0; write_bytes ret 0 mem; pure ret

  unfoldable pub ck_memdup_str : Option Bytes → Cmd ℕ
  ck_memdup_str none = pure null
  ck_memdup_str (some mem) = if length mem == 0 then pure null else do
    ret ← new_block (length mem) 1
    write_bytes ret 0 mem
    set_byte ret (length mem) 0
    pure ret

  module _ (debug_build : Bool) where
    -- The part of DFL_ck_free under DEBUG_BUILD, and of DFL_ck_realloc: memset(mem, 0xFF, size).
    unfoldable pub clobber : (mem size : ℕ) → Cmd (Unit {0})
    clobber mem size = write_bytes mem 0 (replicate size 0xFF)

    unfoldable pub ck_free : ℕ → Cmd (Unit {0})
    ck_free mem = if mem == null then pure tt else do
      check_ptr mem
      c ← peek mem
      if debug_build then clobber mem c.size else pure tt
      set_head mem magic_f
      free libc (mem - off_head)

    -- `if (orig) { … }` at the start of DFL_ck_realloc: the old size.
    unfoldable pub realloc_check : ℕ → Cmd ℕ
    realloc_check orig = if orig == null then pure 0 else do
      check_ptr orig
      if debug_build then pure tt else set_head orig magic_f
      c ← peek orig
      alloc_check_size c.size
      pure c.size

    -- The part under DEBUG_BUILD: always a new block, and the old one is wiped.
    unfoldable pub realloc_copy : (orig size old_size : ℕ) → Cmd ℕ
    realloc_copy orig size old_size = do
      ret ← malloc libc (wrap32 (size + off_total))
      alloc_check_result ret size
      if orig == null then pure tt else do
        bs ← read_bytes orig (min size old_size)
        write_bytes (ret + off_head) 0 bs
        clobber orig old_size
        set_head orig magic_f
        free libc (orig - off_head)
      pure ret

    -- The part without DEBUG_BUILD. A NULL pointer is passed on.
    unfoldable pub realloc_in_place : (orig size : ℕ) → Cmd ℕ
    realloc_in_place orig size = do
      ret ← realloc libc (orig - off_head) (wrap32 (size + off_total))
      alloc_check_result ret size
      pure ret

    unfoldable pub ck_realloc : (orig size : ℕ) → Cmd ℕ
    ck_realloc orig size = if size == 0 then ck_free orig >> pure null else do
      old_size ← realloc_check orig
      alloc_check_size size
      base ← if debug_build then realloc_copy orig size old_size else realloc_in_place orig size
      stamp (base + off_head) size
      if ltb old_size size
          then write_bytes (base + off_head) old_size (replicate (size - old_size) 0)
          else pure tt
      pure (base + off_head)

    unfoldable pub ck_realloc_block : (orig size : ℕ) → Cmd ℕ
    ck_realloc_block orig size = if debug_build || orig == null then ck_realloc orig size else do
      check_ptr orig
      c ← peek orig
      if leb size c.size then pure orig else ck_realloc orig (wrap32 (size + alloc_blk_inc))

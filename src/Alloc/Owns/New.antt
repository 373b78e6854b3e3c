-- ===== src/Alloc/Owns/New.antt =====
-- What the allocating functions of trace/include/alloc-inl.h give.
use co_fuzz.Prelude.{
  ℕ, ◌+◌, ◌<◌, ◌≤◌, ◌≡◌, refl, [], ◌∷◌, ◌++◌, none, some, length, arith, replicate, length-append,
  length-replicate, ◌∙◌, sym,
}
use co_fuzz.Prelude.Text.{Bytes}
use co_fuzz.Alloc.Heap.{
  Heap, ok, abort, out_of_memory, bad_alloc_request, off_head, off_total, null,
}
use co_fuzz.Alloc.Libc.{Libc, malloc}
use co_fuzz.Alloc.Check.{max_alloc, alloc_check_size, alloc_check_result}
use co_fuzz.Alloc.Dfl.{wrap32, new_block, ck_alloc_nozero, ck_alloc, ck_strdup, ck_memdup}
use co_fuzz.Alloc.Owns.Fresh.{new_block-Laid, Gives, take_all, write_all, Gives-new}

module _ (libc : Libc) (h : Heap) where
  -- DFL_ck_alloc gives a zeroed buffer of the size asked for, if that is positive, within MAX_ALLOC,
  -- and there is memory.
  pub ck_alloc-Gives :
      (size base : ℕ)
      → 0 < size
      → size ≤ max_alloc
      → libc.place h (size + off_total + 0) ≡ some base
      → Gives h (replicate size 0) (ck_alloc libc size h)
  unfolding ck_alloc ck_alloc_nozero
  ck_alloc-Gives size base some_size small e =
      let b = new_block-Laid libc h size 0 base small (omega arith) e in
      let zeros = replicate size 0 in
      let full : length zeros ≡ size = length-replicate size 0 in
      Gives-new libc h size 0 base zeros b.behind small e full (
        ground (
          arith,
          b.run,
          write_all h (base + off_head) b.contents zeros b.behind (full ∙ sym b.contents_length),
        ))

  -- DFL_ck_strdup gives a copy of the string with its NUL, if that is within MAX_ALLOC and there
  -- is memory.
  pub ck_strdup-Gives :
      (str : Bytes) (base : ℕ)
      → length str < max_alloc
      → libc.place h (length str + 1 + off_total + 0) ≡ some base
      → Gives h (str ++ 0 ∷ []) (ck_strdup libc (some str) h)
  unfolding ck_strdup
  ck_strdup-Gives str base small e =
      let text = str ++ 0 ∷ [] in
      let len : length text ≡ length str + 1 = length-append str (0 ∷ []) in
      let whole : wrap32 (length str + 1) ≡ length text = omega arith in
      let e' : libc.place h (length text + off_total + 0) ≡ some base = rw len e in
      let b = new_block-Laid libc h (length text) 0 base (omega arith) (omega arith) e' in
      Gives-new libc h (length text) 0 base text b.behind (omega arith) e' refl (
        ground (
          arith,
          whole,
          b.run,
          take_all text,
          write_all h (base + off_head) b.contents text b.behind (sym b.contents_length),
        ))

  -- DFL_ck_memdup gives a copy of the bytes, if their number is positive and within MAX_ALLOC and
  -- there is memory.
  pub ck_memdup-Gives :
      (mem : Bytes) (base : ℕ)
      → 0 < length mem
      → length mem ≤ max_alloc
      → libc.place h (length mem + off_total + 0) ≡ some base
      → Gives h mem (ck_memdup libc (some mem) h)
  unfolding ck_memdup
  ck_memdup-Gives mem base some_size small e =
      let b = new_block-Laid libc h (length mem) 0 base small (omega arith) e in
      Gives-new libc h (length mem) 0 base mem b.behind small e refl (
        ground (
          arith,
          b.run,
          write_all h (base + off_head) b.contents mem b.behind (sym b.contents_length),
        ))

  pub ck_alloc_too_big :
      (size : ℕ) → max_alloc < size → ck_alloc libc size h ≡ abort (bad_alloc_request size)
  unfolding ck_alloc ck_alloc_nozero new_block alloc_check_size
  ck_alloc_too_big size over = ground arith

  pub ck_alloc_no_memory :
      (size : ℕ)
      → 0 < size
      → size ≤ max_alloc
      → libc.place h (size + off_total + 0) ≡ none
      → ck_alloc libc size h ≡ abort (out_of_memory size)
  unfolding ck_alloc ck_alloc_nozero new_block alloc_check_size alloc_check_result malloc
  ck_alloc_no_memory size some_size small e =
      let whole : wrap32 (size + off_total + 0) ≡ size + off_total + 0 = omega arith in
      ground (arith, whole, e)

  -- DFL_ck_alloc returns NULL and changes nothing at size 0, stops above MAX_ALLOC, and stops when
  -- there is no memory.
  pub ck_alloc_refuses :
      (big size : ℕ)
      → max_alloc < big
      → 0 < size
      → size ≤ max_alloc
      → libc.place h (size + off_total + 0) ≡ none
      → (ck_alloc libc 0 h ≡ ok null h)
        × (ck_alloc libc big h ≡ abort (bad_alloc_request big))
        × (ck_alloc libc size h ≡ abort (out_of_memory size))
  unfolding ck_alloc
  ck_alloc_refuses big size over some_size small e =
      (refl, ck_alloc_too_big big over, ck_alloc_no_memory size some_size small e)

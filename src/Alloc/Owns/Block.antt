-- ===== src/Alloc/Owns/Block.antt =====
-- DFL_ck_realloc_block of trace/include/alloc-inl.h, without DEBUG_BUILD.
use co_fuzz.Prelude.{
  ℕ, ◌+◌, ◌-◌, ◌≤◌, ◌≡◌, true, false, List, some, length, leb, refl, arith, if◌then◌else◌,
  Bool-cases, inl, inr,
}
use co_fuzz.Alloc.Heap.{Heap, ok, off_head, off_total}
use co_fuzz.Alloc.Libc.{Libc}
use co_fuzz.Alloc.Check.{max_alloc}
use co_fuzz.Alloc.Cells.{written, peek-cell}
use co_fuzz.Alloc.Dfl.{wrap32, alloc_blk_inc, ck_realloc, ck_realloc_block}
use co_fuzz.Alloc.Owns.{block, Owns, check_ptr-Owns}
use co_fuzz.Alloc.Owns.Grown.{grown}
use co_fuzz.Alloc.Owns.Resize.{Moves, marked, ck_realloc-Moves}

-- What a buffer holds after a call: more room than asked for, and only if it had too little.
abbrev pub with_room : ℕ → List ℕ → List ℕ
with_room size contents =
    if leb size (length contents) then contents else grown (size + alloc_blk_inc) contents

module _ (libc : Libc) (h : Heap) (p size base : ℕ) (contents : List ℕ)
    (o : Owns h p contents) where
  block_fits : leb size (length contents) ≡ true → ck_realloc_block libc false p size h ≡ ok p h
  unfolding ck_realloc_block
  block_fits fits =
      ground (arith, o.above, check_ptr-Owns o, peek-cell h p (block contents o.extra) o.cell)

  block_grows :
      leb size (length contents) ≡ false
      → size + alloc_blk_inc ≤ max_alloc
      → ck_realloc_block libc false p size h ≡ ck_realloc libc false p (size + alloc_blk_inc) h
  unfolding ck_realloc_block
  block_grows full small =
      let whole : wrap32 (size + alloc_blk_inc) ≡ size + alloc_blk_inc = omega arith in
      ground
        (arith, whole, o.above, check_ptr-Owns o, peek-cell h p (block contents o.extra) o.cell)

  -- DFL_ck_realloc_block of an owned pointer, where the C library has room for the larger size: a
  -- buffer with room for `size` bytes is left where it is and as it is, and any other gives a pointer
  -- to its bytes followed by zeros, of `size` + ALLOC_BLK_INC bytes in all; every other owner keeps
  -- its bytes.
  pub ck_realloc_block-Moves :
      size + alloc_blk_inc ≤ max_alloc
      → libc.replace
          (written h p (marked contents o.extra))
          (p - off_head)
          (size + alloc_blk_inc + off_total)
        ≡ some base
      → Moves h p (with_room size contents) (ck_realloc_block libc false p size h)
        × (size ≤ length contents → ck_realloc_block libc false p size h ≡ ok p h)
  ck_realloc_block-Moves small e = (moves, λ fits. block_fits (ground (arith, fits)))
    where
      stays : Moves h p contents (ok p h)
      stays = record {
        pointer = p;
        heap = h;
        run = refl;
        owned = o;
        frame = λ q ds differ other. other;
      }

      moves : Moves h p (with_room size contents) (ck_realloc_block libc false p size h)
      moves = elim (Bool-cases (leb size (length contents))) [
        | inl fits ↦ rw (block_fits fits, fits) stays
        | inr full ↦
            rw (block_grows full small, full)
              (ck_realloc-Moves libc h p (size + alloc_blk_inc) base contents o (omega arith) small
                e)
      ]

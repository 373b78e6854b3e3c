-- ===== src/Alloc/Owns/Relocate.antt =====
-- DFL_ck_realloc of an owned pointer, in a debug build of trace/include/alloc-inl.h.

use mathlib.Core.Path.{fun_ext}
use co_fuzz.Prelude.{
  ℕ, zero, suc, ◌+◌, ◌-◌, ◌<◌, ◌≤◌, ◌≡◌, ◌≢◌, refl, true, List, [], ◌∷◌, ◌++◌, some, length, arith,
  replicate, take, drop, min, length-append, length-replicate, ==_self, ◌∙◌,
}
use co_fuzz.Alloc.Heap.{Chunk, Heap, ok, read_bytes, set_head, ◌>>◌, off_head, off_total, overwrite}
use co_fuzz.Alloc.Libc.{Libc, freed, free}
use co_fuzz.Alloc.Check.{magic_f, magic_c2, max_alloc, alloc_check_size, alloc_check_result}
use co_fuzz.Alloc.Cells.{
  written, update-update, peek-cell, set_head-written, write_bytes-written, write_bytes-cell,
}
use co_fuzz.Alloc.Dfl.{wrap32, clobber, realloc_check, realloc_copy, ck_realloc}
use co_fuzz.Alloc.Owns.{block, Owns, Owns-written, Owns_frame, check_ptr-Owns}
use co_fuzz.Alloc.Owns.Grown.{
  grown, length-grown, length-take, take-append_le, take-take_le, finish-grown,
}
use co_fuzz.Alloc.Owns.Fresh.{length-unwritten, raw, malloc-place, vacant_unowned, overwrite_front}
use co_fuzz.Alloc.Owns.Release.{wiped}
use co_fuzz.Alloc.Owns.Resize.{Moves}

length-drop : (n : ℕ) (xs : List ℕ) → length (drop n xs) ≡ length xs - n
length-drop zero xs = omega arith
length-drop (suc n) [] = omega arith
length-drop (suc n) (x ∷ xs) = omega (arith, length-drop n xs)

-- Writes to two blocks commute.
written_comm :
    (h : Heap) (p q : ℕ) (c d : Chunk)
    → off_head < p
    → off_head < q
    → p ≢ q
    → written (written h p c) q d ≡ written (written h q d) p c
written_comm h p q c d above above' differ = fun_ext λ a. ground arith

-- DFL_ck_realloc of a block that is wiped, marked and freed.
clear-cell :
    (libc : Libc) (h : Heap) (p : ℕ) (contents extra : List ℕ)
    → h (p - off_head) ≡ some (block contents extra)
    → (clobber libc true p (length contents) >> (set_head p magic_f >> free libc (p - off_head))) h
      ≡ ok tt (written h p (freed libc (wiped true contents extra)))
unfolding clobber wiped free
clear-cell libc h p contents extra cell =
    let fill = replicate (length contents) 0xFF in
    let full : length fill ≡ length contents = length-replicate (length contents) 0xFF in
    let c = block contents extra in
    let c' = record c { body = fill ++ magic_c2 ∷ extra } in
    let fits : 0 + length fill ≤ length c.body =
      omega (arith, full, length-append contents (magic_c2 ∷ extra)) in
    ground (
      arith,
      ==_self (p - off_head),
      write_bytes-cell h p c cell 0 fill refl fits,
      overwrite_front contents fill (magic_c2 ∷ extra) full,
      set_head-written h p c' magic_f refl,
      update-update h (p - off_head) (record c' { head = magic_f })
          (freed libc (record c' { head = magic_f })),
    )

module _ (libc : Libc) (h : Heap) (p size base : ℕ) (contents : List ℕ) (o : Owns h p contents)
    (some_size : 0 < size) (small : size ≤ max_alloc)
    (e : libc.place h (size + off_total) ≡ some base) where
  -- The new block, with the old bytes that fit.
  copied : List ℕ
  copied =
      overwrite (raw libc (size + off_total)).body 0 (take (min size (length contents)) contents)

  length-fresh : length (raw libc (size + off_total)).body ≡ size + 1
  unfolding raw
  length-fresh = omega (arith, length-unwritten libc.garbage (size + off_total - off_head))

  length-copied : length copied ≡ size + 1
  unfolding copied
  length-copied =
      let bs = take (min size (length contents)) contents in
      omega (
        arith,
        length-append bs (drop (0 + length bs) (raw libc (size + off_total)).body),
        length-drop (0 + length bs) (raw libc (size + off_total)).body,
        length-fresh,
        length-take (min size (length contents)) contents,
      )

  take-copied : (k : ℕ) → k ≤ size → k ≤ length contents → take k copied ≡ take k contents
  unfolding copied
  take-copied k h1 h2 =
      let bs = take (min size (length contents)) contents in
      take-append_le k bs _ (omega (arith, length-take (min size (length contents)) contents))
      ∙ take-take_le k (min size (length contents)) contents (omega arith)

  -- The pointer that is returned is not the old one.
  moved : base + off_head ≢ p
  moved same = vacant_unowned h base p contents (omega arith) (libc.place_vacant h _ base e) o

  fresh_chunk : Chunk
  fresh_chunk = record (raw libc (size + off_total)) { body = copied }

  -- The heap without the new block.
  without_new : Heap
  without_new = written h p (freed libc (wiped true contents o.extra))

  -- The old block is where it was.
  other-cell :
      (d : Chunk) → written h (base + off_head) d (p - off_head) ≡ some (block contents o.extra)
  other-cell d = ground (arith, o.above, moved, o.cell)

  copy-run :
      realloc_copy libc true p size (length contents) h
      ≡ ok base (written without_new (base + off_head) fresh_chunk)
  unfolding realloc_copy alloc_check_result without_new fresh_chunk copied read_bytes raw
  copy-run =
      let np = base + off_head in
      let above : off_head < np = omega (arith, libc.place_ne_null h _ base e) in
      let whole : wrap32 (size + off_total) ≡ size + off_total = omega arith in
      let n = min size (length contents) in
      let bs = take n contents in
      let c = block contents o.extra in
      let r = raw libc (size + off_total) in
      let h1 = written h np r in
      let h2 = written h np (record r { body = overwrite r.body 0 bs }) in
      let o1 = Owns_frame np r above moved o in
      let fits : 0 + length bs ≤ length r.body =
        omega (arith, length-fresh, length-take n contents) in
      ground (
        arith,
        whole,
        malloc-place libc h (size + off_total) base e,
        libc.place_ne_null h _ base e,
        o.above,
        peek-cell h1 p c (other-cell r),
        take-append_le n contents (magic_c2 ∷ o.extra) (omega arith),
        length-append contents (magic_c2 ∷ o.extra),
        write_bytes-written h np r 0 bs refl fits,
        clear-cell libc h2 p contents o.extra
            (other-cell (record r { body = overwrite r.body 0 bs })),
        written_comm h np p (record r { body = overwrite r.body 0 bs })
            (freed libc (wiped true contents o.extra)) above o.above moved,
      )

  ck_realloc_debug-run :
      ck_realloc libc true p size h
      ≡ ok
          (base + off_head)
          (written without_new (base + off_head) (block (grown size contents) []))
  unfolding ck_realloc realloc_check alloc_check_size fresh_chunk raw
  ck_realloc_debug-run = ground (
    arith,
    some_size,
    small,
    o.above,
    o.small,
    check_ptr-Owns o,
    peek-cell h p (block contents o.extra) o.cell,
    copy-run,
    finish-grown size contents copied length-copied take-copied without_new (base + off_head)
        fresh_chunk refl refl,
  )

  -- In a debug build, DFL_ck_realloc of an owned pointer, to a positive size within MAX_ALLOC that
  -- the C library can give, returns a pointer that nobody had, to the old bytes as far as they fit,
  -- followed by zeros, and leaves every other owner's bytes as they were.
  pub ck_realloc_debug-Moves :
      (m : Moves h p (grown size contents) (ck_realloc libc true p size h)) × ((es : List ℕ)
        → ¬ (Owns h m.pointer es))
  unfolding without_new
  ck_realloc_debug-Moves =
      let above : off_head < base + off_head = omega (arith, libc.place_ne_null h _ base e) in
      (
        record {
          pointer = base + off_head;
          heap = written without_new (base + off_head) (block (grown size contents) []);
          run = ck_realloc_debug-run;
          owned =
              Owns-written without_new (base + off_head) (grown size contents) [] above
                (omega (arith, length-grown size contents));
          frame = λ q ds differ old.
              Owns_frame (base + off_head) _ above
                (λ same.
                  vacant_unowned h base q ds (omega (arith, same)) (libc.place_vacant h _ base e)
                    old)
                (Owns_frame p _ o.above differ old);
        },
        λ es.
            vacant_unowned h base (base + off_head) es (omega arith) (libc.place_vacant h _ base e),
      )

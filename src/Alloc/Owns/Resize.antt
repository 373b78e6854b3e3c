-- ===== src/Alloc/Owns/Resize.antt =====
-- DFL_ck_realloc of trace/include/alloc-inl.h, without DEBUG_BUILD.
use co_fuzz.Prelude.{
  ℕ, ◌+◌, ◌-◌, ◌<◌, ◌≤◌, ◌≡◌, ◌≢◌, refl, false, List, [], ◌∷◌, ◌++◌, some, length, arith, replicate,
  take, length-append, ==_self, if◌then◌else◌, inl, inr, ◌∙◌, ltb,
}
use co_fuzz.Alloc.Heap.{Chunk, Heap, Run, ok, pure, write_bytes, ◌>>◌, off_head, off_total}
use co_fuzz.Alloc.Libc.{Libc, freed, realloc, resized, unwritten}
use co_fuzz.Alloc.Check.{magic_f, magic_c2, max_alloc, alloc_check_size, alloc_check_result, stamp}
use co_fuzz.Alloc.Cells.{written, peek-written, set_head-cell}
use co_fuzz.Alloc.Dfl.{wrap32, realloc_check, realloc_in_place, ck_realloc}
use co_fuzz.Alloc.Owns.{block, Owns, Owns-written, Owns_frame, check_ptr-Owns}
use co_fuzz.Alloc.Owns.Grown.{
  grown, length-grown, length-take, take-append_le, take-take_le, finish-grown,
}
use co_fuzz.Alloc.Owns.Fresh.{length-unwritten, back_to_base, vacant_unowned}

module _ (libc : Libc) (size : ℕ) (contents extra : List ℕ) where
  -- The bytes that realloc leaves.
  bytes : List ℕ
  bytes = resized libc (size + off_total) (contents ++ magic_c2 ∷ extra)

  length-bytes : length bytes ≡ size + 1
  unfolding bytes
  length-bytes =
      let old = contents ++ magic_c2 ∷ extra in
      let n = size + off_total - off_head in
      omega (
        arith,
        length-append (take n old) (unwritten libc.garbage (n - length old)),
        length-take n old,
        length-unwritten libc.garbage (n - length old),
      )

  take-bytes : (k : ℕ) → k ≤ size → k ≤ length contents → take k bytes ≡ take k contents
  unfolding bytes
  take-bytes k h h' =
      let old = contents ++ magic_c2 ∷ extra in
      let n = size + off_total - off_head in
      take-append_le k (take n old) _
        (omega (arith, length-take n old, length-append contents (magic_c2 ∷ extra)))
      ∙ take-take_le k n old (omega arith)
      ∙ take-append_le k contents (magic_c2 ∷ extra) h'

-- A buffer that moved or stayed: a pointer to these bytes, and every other owner's as they were.
pub record Moves (h : Heap) (p : ℕ) (contents : List ℕ) (r : Run ℕ) : Type 0 where
  pub pointer : ℕ
  pub heap : Heap
  pub run : r ≡ ok pointer heap
  pub owned : Owns heap pointer contents
  pub frame : (q : ℕ) (ds : List ℕ) → p ≢ q → Owns h q ds → Owns heap q ds

-- The block that DFL_ck_realloc hands to realloc.
abbrev pub marked : List ℕ → List ℕ → Chunk
marked contents extra = record (block contents extra) { head = magic_f }

module _ (libc : Libc) (h : Heap) (p size base : ℕ) (contents : List ℕ) (o : Owns h p contents)
    (some_size : 0 < size) (small : size ≤ max_alloc)
    (e : libc.replace (written h p (marked contents o.extra)) (p - off_head) (size + off_total)
      ≡ some base) where
  resized_chunk : Chunk
  resized_chunk = record (marked contents o.extra) { body = bytes libc size contents o.extra }

  after_realloc : Heap
  after_realloc =
      written
        (written (written h p (marked contents o.extra)) p (freed libc (marked contents o.extra)))
        (base + off_head) resized_chunk

  realloc-run :
      realloc libc (p - off_head) (size + off_total) (written h p (marked contents o.extra))
      ≡ ok base after_realloc
  unfolding realloc after_realloc resized_chunk bytes
  realloc-run = ground (arith, o.above, ==_self (p - off_head), e, back_to_base base)

  -- The heap without the new block.
  before_new : Heap
  before_new =
      written (written h p (marked contents o.extra)) p (freed libc (marked contents o.extra))

  final : Heap
  final = written before_new (base + off_head) (block (grown size contents) [])

  -- The stamp and the zeros behind realloc.
  finish-run :
      (stamp (base + off_head) size
          >> (if ltb (length contents) size
              then write_bytes
                  (base + off_head)
                  (length contents)
                  (replicate (size - length contents) 0)
              else pure tt))
        after_realloc
      ≡ ok tt final
  unfolding after_realloc before_new resized_chunk final
  finish-run =
      finish-grown size contents (bytes libc size contents o.extra)
        (length-bytes libc size contents o.extra) (take-bytes libc size contents o.extra) before_new
        (base + off_head) resized_chunk refl refl

  ck_realloc-run : ck_realloc libc false p size h ≡ ok (base + off_head) final
  unfolding ck_realloc realloc_check realloc_in_place alloc_check_size alloc_check_result
  ck_realloc-run =
      let c = marked contents o.extra in
      let whole : wrap32 (size + off_total) ≡ size + off_total = omega arith in
      ground (
        arith,
        some_size,
        small,
        o.above,
        o.small,
        whole,
        check_ptr-Owns o,
        set_head-cell h p (block contents o.extra) o.cell magic_f refl,
        peek-written h p c,
        realloc-run,
        libc.replace_ne_null _ _ _ base e,
        finish-run,
      )

  -- In a build without DEBUG_BUILD, DFL_ck_realloc of an owned pointer, to a positive size within
  -- MAX_ALLOC that the C library can give, returns a pointer to the old bytes as far as they fit,
  -- followed by zeros, and leaves every other owner's bytes as they were.
  pub ck_realloc-Moves : Moves h p (grown size contents) (ck_realloc libc false p size h)
  unfolding final before_new
  ck_realloc-Moves = record {
    pointer = base + off_head;
    heap = final;
    run = ck_realloc-run;
    owned =
        Owns-written before_new (base + off_head) (grown size contents) []
          (omega (arith, libc.replace_ne_null _ _ _ base e))
          (omega (arith, length-grown size contents));
    frame = λ q ds differ old. kept q ds differ (Owns_frame p _ o.above differ old);
  }
    where
      unowned :
          (q : ℕ) (ds : List ℕ)
          → p ≢ q
          → Owns (written h p (marked contents o.extra)) q ds
          → base + off_head ≢ q
      unowned q ds differ old same = elim (libc.replace_vacant _ _ _ base e) [
        | inl stays ↦ differ (omega (arith, o.above))
        | inr vacant ↦
            vacant_unowned (written h p (marked contents o.extra)) base q ds (omega arith) vacant
              old
      ]

      kept :
          (q : ℕ) (ds : List ℕ)
          → p ≢ q
          → Owns (written h p (marked contents o.extra)) q ds
          → Owns final q ds
      kept q ds differ old =
          Owns_frame (base + off_head) _ (omega (arith, libc.replace_ne_null _ _ _ base e))
            (unowned q ds differ old) (Owns_frame p _ o.above differ old)

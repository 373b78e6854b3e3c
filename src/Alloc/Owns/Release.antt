-- ===== src/Alloc/Owns/Release.antt =====
-- DFL_ck_free of trace/include/alloc-inl.h, and what its checks catch.
use co_fuzz.Prelude.{
  ℕ, ◌+◌, ◌-◌, ◌<◌, ◌≤◌, ◌≡◌, ◌≢◌, refl, Bool, true, false, List, ◌∷◌, ◌++◌, some, ◌==◌, length,
  arith, replicate, length-append, set-append_length, get_elem?-append_length, length-replicate,
  ==_self, if◌then◌else◌, sym,
}
use co_fuzz.Prelude.Text.{Bytes}
use co_fuzz.Alloc.Heap.{
  Chunk, Heap, Run, ok, abort, Reason, ◌>>=◌, ◌>>◌, off_total, set_byte, use_after_free,
  corrupted_head, corrupted_tail, off_head, null,
}
use co_fuzz.Alloc.Libc.{Libc, freed, free}
use co_fuzz.Alloc.Check.{magic_c1, magic_f, magic_c2, max_alloc, check_ptr, check_head, check_tail}
use co_fuzz.Alloc.Cells.{
  written, update-update, peek-written, peek-cell, set_head-cell, set_byte-cell, write_bytes-cell,
  set_head-written, set_byte-written,
}
use co_fuzz.Alloc.Owns.Fresh.{overwrite_front, new_block-Laid, write_all}
use co_fuzz.Alloc.Dfl.{clobber, ck_free, ck_memdup_str}
use co_fuzz.Alloc.Owns.{block, Owns, Owns_frame, check_ptr-Owns}

-- A release: the pointer has no owner any more, and every other owner's bytes are as they were.
pub record Releases (h : Heap) (p : ℕ) (r : Run (Unit {0})) : Type 0 where
  pub heap : Heap
  pub run : r ≡ ok tt heap
  pub unowned : (ds : List ℕ) → ¬ (Owns heap p ds)
  pub frame : (q : ℕ) (ds : List ℕ) → p ≢ q → Owns h q ds → Owns heap q ds

free-written :
    (libc : Libc) (h : Heap) (p : ℕ) (c : Chunk)
    → c.live ≡ true
    → free libc (p - off_head) (written h p c) ≡ ok tt (written h p (freed libc c))
unfolding free
free-written libc h p c live =
    ground (arith, ==_self (p - off_head), update-update h (p - off_head) c (freed libc c))

dead_unowned :
    (h : Heap) (p : ℕ) (c : Chunk) (ds : List ℕ) → c.live ≡ false → ¬ (Owns (written h p c) p ds)
dead_unowned h p c ds dead o = ground (arith, ==_self (p - off_head), o.cell)

-- The block just before free: wiped in a debug build, with the head of a freed block.
unfoldable pub wiped : Bool → List ℕ → List ℕ → Chunk
wiped debug contents extra =
    record (block (if debug then replicate (length contents) 0xFF else contents) extra) {
      head = magic_f;
      size = length contents;
    }

ck_free-run :
    (libc : Libc) (debug_build : Bool) (h : Heap) (p : ℕ) (contents : List ℕ)
    (o : Owns h p contents)
    → ck_free libc debug_build p h
      ≡ ok tt (written h p (freed libc (wiped debug_build contents o.extra)))
unfolding ck_free clobber wiped
ck_free-run libc false h p contents o =
    let c = block contents o.extra in
    ground (
      arith,
      o.above,
      check_ptr-Owns o,
      peek-cell h p c o.cell,
      set_head-cell h p c o.cell magic_f refl,
      free-written libc h p (record c { head = magic_f }) refl,
    )
ck_free-run libc true h p contents o =
    let c = block contents o.extra in
    let fill = replicate (length contents) 0xFF in
    let full : length fill ≡ length contents = length-replicate (length contents) 0xFF in
    let c' = record c { body = fill ++ magic_c2 ∷ o.extra } in
    let fits : 0 + length fill ≤ length c.body =
      omega (arith, full, length-append contents (magic_c2 ∷ o.extra)) in
    ground (
      arith,
      o.above,
      check_ptr-Owns o,
      peek-cell h p c o.cell,
      write_bytes-cell h p c o.cell 0 fill refl fits,
      overwrite_front contents fill (magic_c2 ∷ o.extra) full,
      set_head-written h p c' magic_f refl,
      free-written libc h p (record c' { head = magic_f }) refl,
    )

module _ (libc : Libc) (debug_build : Bool) where
  -- DFL_ck_free of an owned pointer returns, in either build, and releases it.
  pub ck_free-Releases :
      (h : Heap) (p : ℕ) (contents : List ℕ)
      → Owns h p contents
      → Releases h p (ck_free libc debug_build p h)
  ck_free-Releases h p contents o =
      let c = freed libc (wiped debug_build contents o.extra) in
      record {
        heap = written h p c;
        run = ck_free-run libc debug_build h p contents o;
        unowned = λ ds. dead_unowned h p c ds refl;
        frame = λ q ds differ. Owns_frame p c o.above differ;
      }

  ck_free-spoiled :
      (h : Heap) (p : ℕ) (contents behind : List ℕ) (v : ℕ)
      → off_head < p
      → v ≢ magic_c2
      → ck_free libc debug_build p
          (written h p (record (block contents behind) { body = contents ++ v ∷ behind }))
        ≡ abort corrupted_tail
  unfolding ck_free check_ptr check_head check_tail
  ck_free-spoiled h p contents behind v above differ =
      let c = record (block contents behind) { body = contents ++ v ∷ behind } in
      ground (arith, peek-written h p c, get_elem?-append_length contents v behind)

  -- If the owner of a buffer writes another value than the tail canary's into the first byte
  -- behind the owned ones, DFL_ck_free of the buffer stops.
  pub ck_free_overrun :
      (h : Heap) (p : ℕ) (contents : List ℕ) (v : ℕ)
      → Owns h p contents
      → v ≢ magic_c2
      → (set_byte p (length contents) v >> ck_free libc debug_build p) h ≡ abort corrupted_tail
  ck_free_overrun h p contents v o differ =
      let c = block contents o.extra in
      ground (
        arith,
        set_byte-cell h p c o.cell (length contents) v refl
            (omega (arith, length-append contents (magic_c2 ∷ o.extra))),
        set-append_length contents magic_c2 v o.extra,
        ck_free-spoiled h p contents o.extra v o.above differ,
      )

  -- A pointer that is not NULL and has a block whose head word is not that of a live one makes
  -- DFL_ck_free stop: as a use after free where the word is the one that DFL_ck_free leaves, as a
  -- corruption otherwise.
  pub ck_free_bad_head :
      (h : Heap) (p : ℕ) (c : Chunk)
      → p ≢ null
      → h (p - off_head) ≡ some c
      → c.head ≢ magic_c1
      → ck_free libc debug_build p h
        ≡ abort (if c.head == magic_f then use_after_free else corrupted_head)
  unfolding ck_free check_ptr check_head
  ck_free_bad_head h p c ne cell bad = ground (arith, peek-cell h p c cell)

  -- Freeing an owned pointer twice stops, unless the C library puts the word of a live block where
  -- DFL_ck_free left that of a freed one.
  pub ck_free_twice :
      (h : Heap) (p : ℕ) (contents : List ℕ)
      → Owns h p contents
      → ((c : Chunk) → c.head ≡ magic_f → (libc.leftover c).head ≢ magic_c1)
      → (why : Reason) × ((ck_free libc debug_build p >> ck_free libc debug_build p) h ≡ abort why)
  unfolding wiped
  ck_free_twice h p contents o kept =
      let c = freed libc (wiped debug_build contents o.extra) in
      let again =
        ck_free_bad_head (written h p c) p c (omega (arith, o.above))
          (ground (arith, ==_self (p - off_head)))
          (kept (wiped debug_build contents o.extra) refl) in
      (
        if c.head == magic_f then use_after_free else corrupted_head,
        rw (ck_free-run libc debug_build h p contents o) again,
      )

  -- The buffer that DFL_ck_memdup_str makes of some bytes, within MAX_ALLOC and with memory there,
  -- cannot be freed: its terminator stands where the tail canary was, so DFL_ck_free stops.
  pub ck_free-memdup_str :
      (h : Heap) (mem : Bytes) (base : ℕ)
      → 0 < length mem
      → length mem ≤ max_alloc
      → libc.place h (length mem + off_total + 1) ≡ some base
      → (ck_memdup_str libc (some mem) >>= ck_free libc debug_build) h ≡ abort corrupted_tail
  unfolding ck_memdup_str
  ck_free-memdup_str h mem base some_size small e =
      let b = new_block-Laid libc h (length mem) 1 base small (omega arith) e in
      let p = base + off_head in
      let above : off_head < p = omega (arith, libc.place_ne_null h _ base e) in
      let c = block mem b.behind in
      ground (
        arith,
        b.run,
        write_all h p b.contents mem b.behind (sym b.contents_length),
        set_byte-written h p c (length mem) 0 refl
            (omega (arith, length-append mem (magic_c2 ∷ b.behind))),
        set-append_length mem magic_c2 0 b.behind,
        ck_free-spoiled h p mem b.behind 0 above (omega arith),
      )

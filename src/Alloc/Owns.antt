-- ===== src/Alloc/Owns.antt =====
-- The contract of trace/include/alloc-inl.h: a pointer that the allocator gave out stands for the
-- bytes its owner may use.
pub mod Fresh
pub mod New
pub mod Release
pub mod Grown
pub mod Resize
pub mod Relocate
pub mod Null
pub mod Block
use co_fuzz.Prelude.{
  ℕ, ◌+◌, ◌-◌, ◌<◌, ◌≤◌, ◌≡◌, ◌≢◌, refl, Bool, true, false, List, [], ◌∷◌, ◌++◌, Option, none, some,
  ◌==◌, length, arith, get_elem?, get_elem?-append_length, ==_self, if◌then◌else◌,
}
use co_fuzz.Alloc.Heap.{Chunk, Heap, update, ok, peek, off_head, null}
use co_fuzz.Alloc.Check.{magic_c1, magic_c2, max_alloc, check_ptr, check_head, check_tail}
use co_fuzz.Alloc.Cells.{written}

-- A block with intact canaries, its user's bytes and what lies behind the tail canary.
abbrev pub block : List ℕ → List ℕ → Chunk
block contents extra = record {
  head = magic_c1;
  size = length contents;
  body = contents ++ magic_c2 ∷ extra;
  live = true;
}

-- The pointer is not NULL, and its block is live, intact and holds these bytes.
pub record Owns (h : Heap) (p : ℕ) (contents : List ℕ) : Type 0 where
  pub above : off_head < p
  pub extra : List ℕ
  pub cell : h (p - off_head) ≡ some (block contents extra)
  pub small : length contents ≤ max_alloc

pub Owns-written :
    (h : Heap) (p : ℕ) (contents extra : List ℕ)
    → off_head < p
    → length contents ≤ max_alloc
    → Owns (written h p (block contents extra)) p contents
Owns-written h p contents extra above small = record {
  above = above;
  extra = extra;
  cell = ground (arith, ==_self (p - off_head));
  small = small;
}

-- A write to one block leaves the others to their owners.
pub Owns_frame :
    {h : Heap} {q : ℕ} {contents : List ℕ} (p : ℕ) (c : Chunk)
    → off_head < p
    → p ≢ q
    → Owns h q contents
    → Owns (written h p c) q contents
Owns_frame {q} p c above differ o = record {
  above = o.above;
  extra = o.extra;
  cell = ground (arith, o.above, o.cell);
  small = o.small;
}

-- CHECK_PTR passes a pointer that is owned.
pub check_ptr-Owns :
    {h : Heap} {p : ℕ} {contents : List ℕ} → Owns h p contents → check_ptr p h ≡ ok tt h
unfolding check_ptr check_head check_tail
check_ptr-Owns {contents} o =
    ground (arith, o.above, o.cell, get_elem?-append_length contents magic_c2 o.extra)

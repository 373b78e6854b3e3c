-- ===== src/Tests/Alloc.antt =====
-- The allocator on a heap with two places.
use co_fuzz.Prelude.{ℕ, ◌≡◌, ◌≢◌, refl, true, false, List, [], ◌∷◌, some, arith, replicate}
use co_fuzz.Alloc.Heap.{Chunk, Heap, abort, Reason, ◌>>=◌, ◌>>◌, set_byte, corrupted_tail}
use co_fuzz.Alloc.Check.{magic_c1, magic_f}
use co_fuzz.Alloc.Cells.{written}
use co_fuzz.Alloc.Dfl.{ck_alloc, ck_memdup_str, ck_free, ck_realloc}
use co_fuzz.Alloc.Owns.{block, Owns, Owns-written}
use co_fuzz.Alloc.Owns.Fresh.{Gives}
use co_fuzz.Alloc.Owns.New.{ck_alloc-Gives}
use co_fuzz.Alloc.Owns.Release.{
  Releases, ck_free-Releases, ck_free_overrun, ck_free_twice, ck_free-memdup_str,
}
use co_fuzz.Alloc.Owns.Grown.{grown}
use co_fuzz.Alloc.Owns.Resize.{Moves, ck_realloc-Moves}
use co_fuzz.Alloc.Owns.Relocate.{ck_realloc_debug-Moves}
use co_fuzz.Tests.Sample.{two_places, no_blocks}

ck_alloc-Gives_example : Gives no_blocks (replicate 3 0) (ck_alloc two_places 3 no_blocks)
ck_alloc-Gives_example = ck_alloc-Gives two_places no_blocks 3 16 (omega arith) (omega arith) refl

-- A heap with one block, of three bytes.
abbrev one_block : Heap
one_block = written no_blocks 24 (block (1 ∷ 2 ∷ 3 ∷ []) [])

one_owner : Owns one_block 24 (1 ∷ 2 ∷ 3 ∷ [])
one_owner = Owns-written no_blocks 24 (1 ∷ 2 ∷ 3 ∷ []) [] (omega arith) (omega arith)

ck_free-Releases_example : Releases one_block 24 (ck_free two_places true 24 one_block)
ck_free-Releases_example = ck_free-Releases two_places true one_block 24 (1 ∷ 2 ∷ 3 ∷ []) one_owner

ck_free_overrun_example :
    (set_byte 24 3 7 >> ck_free two_places false 24) one_block ≡ abort corrupted_tail
ck_free_overrun_example =
    ck_free_overrun two_places false one_block 24 (1 ∷ 2 ∷ 3 ∷ []) 7 one_owner (omega arith)

-- A freed block, as DFL_ck_free leaves it.
abbrev stale : Chunk
stale = record (block (1 ∷ []) []) { head = magic_f; live = false }

kept : (c : Chunk) → c.head ≡ magic_f → (two_places.leftover c).head ≢ magic_c1
kept c e = omega (arith, e)

ck_free_twice_example :
    (why : Reason) × ((ck_free two_places false 24 >> ck_free two_places false 24) one_block
      ≡ abort why)
ck_free_twice_example = ck_free_twice two_places false one_block 24 (1 ∷ 2 ∷ 3 ∷ []) one_owner kept

ck_free-memdup_str_example :
    (ck_memdup_str two_places (some (1 ∷ 2 ∷ [])) >>= ck_free two_places false) no_blocks
    ≡ abort corrupted_tail
ck_free-memdup_str_example =
    ck_free-memdup_str two_places false no_blocks (1 ∷ 2 ∷ []) 16 (omega arith) (omega arith) refl

ck_realloc-Moves_example :
    Moves one_block 24 (grown 5 (1 ∷ 2 ∷ 3 ∷ [])) (ck_realloc two_places false 24 5 one_block)
ck_realloc-Moves_example =
    ck_realloc-Moves two_places one_block 24 5 16 (1 ∷ 2 ∷ 3 ∷ []) one_owner (omega arith)
      (omega arith) refl

-- A debug build moves the buffer to the free place.
ck_realloc_debug-Moves_example :
    (m : Moves one_block 24 (grown 5 (1 ∷ 2 ∷ 3 ∷ [])) (ck_realloc two_places true 24 5 one_block))
    × ((es : List ℕ) → ¬ (Owns one_block m.pointer es))
ck_realloc_debug-Moves_example =
    ck_realloc_debug-Moves two_places one_block 24 5 4096 (1 ∷ 2 ∷ 3 ∷ []) one_owner (omega arith)
      (omega arith) refl

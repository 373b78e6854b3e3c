-- ===== src/Alloc/Libc.antt =====
-- malloc, realloc and free of the C library. Where a block goes, what a fresh block holds and what
-- is left in a freed one are the library's choice.
use co_fuzz.Prelude.{
  ℕ, zero, suc, ◌+◌, ◌-◌, ◌≡◌, ◌≢◌, ◌⊎◌, true, false, List, [], ◌∷◌, ◌++◌, Option, none, some, ◌==◌,
  length, take, if◌then◌else◌,
}
use co_fuzz.Alloc.Heap.{Chunk, Heap, update, ok, fault, Cmd, null, off_head}

-- No live block starts here.
abbrev pub IsVacant : Heap → ℕ → Type 0
IsVacant h base = (c : Chunk) → h base ≡ some c → c.live ≡ false

pub record Libc : Type 0 where
  -- the address of a new block of n bytes, if there is memory
  pub place : Heap → (n : ℕ) → Option ℕ
  -- the address of a block that is made n bytes long
  pub replace : Heap → (base n : ℕ) → Option ℕ
  -- what nothing has written
  pub garbage : ℕ → ℕ
  -- what free leaves in a block
  pub leftover : Chunk → Chunk
  pub place_ne_null : (h : Heap) (n base : ℕ) → place h n ≡ some base → base ≢ null
  pub place_vacant : (h : Heap) (n base : ℕ) → place h n ≡ some base → IsVacant h base
  pub replace_ne_null : (h : Heap) (old n base : ℕ) → replace h old n ≡ some base → base ≢ null
  pub replace_vacant :
      (h : Heap) (old n base : ℕ) → replace h old n ≡ some base → (base ≡ old) ⊎ IsVacant h base

-- A list of n bytes that nothing has written.
abbrev pub unwritten : (ℕ → ℕ) → ℕ → List ℕ
unwritten garbage zero = []
unwritten garbage (suc n) = garbage n ∷ unwritten garbage n

-- A freed block.
abbrev pub freed : Libc → Chunk → Chunk
freed libc c = record (libc.leftover c) { live = false }

module _ (libc : Libc) where
  -- malloc(n), for n ≥ 8
  unfoldable pub malloc : ℕ → Cmd ℕ
  malloc n h = elim (libc.place h n) [
    | none ↦ ok null h
    | some base ↦ ok base (
        update h base (record {
          head = libc.garbage n;
          size = libc.garbage (n + 1);
          body = unwritten libc.garbage (n - off_head);
          live = true;
        }))
  ]

  -- free(base)
  unfoldable pub free : ℕ → Cmd (Unit {0})
  free base h = elim (h base) [
    | none ↦ fault
    | some c ↦ if c.live then ok tt (update h base (freed libc c)) else fault
  ]

  -- The user's bytes of a block that is made n bytes long.
  abbrev pub resized : ℕ → List ℕ → List ℕ
  resized n body = take (n - off_head) body ++ unwritten libc.garbage (n - off_head - length body)

  -- realloc(base, n), for n ≥ 8. The old block is freed if the new one is elsewhere.
  unfoldable pub realloc : ℕ → ℕ → Cmd ℕ
  unfolding malloc
  realloc base n h = if base == null then malloc n h else elim (h base) [
    | none ↦ fault
    | some c ↦
        if c.live
        then elim (libc.replace h base n) [
          | none ↦ ok null h
          | some new ↦
              ok new
                (update (update h base (freed libc c)) new (record c { body = resized n c.body }))
        ]
        else fault
  ]

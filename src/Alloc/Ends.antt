-- ===== src/Alloc/Ends.antt =====
-- How a command of trace/include/alloc-inl.h may end: with a result, or by ABORT where there is no
-- memory or too much is asked; and what each function then gives.
use native.Mathlib.Nat.{add-zero}
use co_fuzz.Prelude.{
  length-replicate, ℕ, ◌+◌, ◌^◌, ◌<◌, ◌≤◌, ◌≡◌, ◌≢◌, ◌⊎◌, inl, inr, refl, take, ◌-◌, true, List, [],
  ◌∷◌, ◌++◌, none, some, ltb, length, replicate, arith, Option-cases, Bool-cases, ltb→lt, ltb-le,
}
use co_fuzz.Prelude.Text.{Bytes}
use co_fuzz.Alloc.Heap.{
  Heap, Run, ok, abort, fault, Reason, bad_alloc_request, out_of_memory, use_after_free,
  corrupted_head, corrupted_tail, off_total, null,
}
use co_fuzz.Alloc.Libc.{Libc, malloc}
use co_fuzz.Alloc.Check.{max_alloc, alloc_check_size, alloc_check_result}
use co_fuzz.Alloc.Dfl.{
  wrap32, new_block, ck_alloc_nozero, ck_alloc, ck_strdup, ck_memdup, realloc_check, realloc_copy,
  ck_realloc,
}
use co_fuzz.Alloc.Cells.{peek-cell}
use co_fuzz.Alloc.Owns.{block, Owns, check_ptr-Owns}
use co_fuzz.Alloc.Owns.Grown.{grown, length-grown}
use co_fuzz.Alloc.Owns.Fresh.{Gives}
use co_fuzz.Alloc.Owns.New.{ck_alloc-Gives, ck_strdup-Gives, ck_memdup-Gives}
use co_fuzz.Alloc.Owns.Relocate.{ck_realloc_debug-Moves}
use co_fuzz.Alloc.Owns.Null.{ck_realloc-null-Gives}

-- ABORT stops an allocation only above MAX_ALLOC, or where the C library has no memory.
abbrev pub Starves : Libc → Reason → Type 0
Starves libc (bad_alloc_request size) = max_alloc < size
Starves libc (out_of_memory size) =
    (h : Heap) × (extra : ℕ) × (libc.place h (size + off_total + extra) ≡ none)
Starves libc use_after_free = ⊥
Starves libc corrupted_head = ⊥
Starves libc corrupted_tail = ⊥

-- The command returns with P, or an allocation fails.
abbrev pub Ends : Libc → {A : Type 0} → (A → Heap → Type 0) → Run A → Type 0
Ends libc P (ok a h) = P a h
Ends libc P (abort why) = Starves libc why
Ends libc P fault = ⊥

-- A pointer that was nobody's in `h`, to these bytes, with every owner's bytes but that of `p` kept.
abbrev pub IsMoved : Heap → ℕ → ℕ → Heap → Bytes → Type 0
IsMoved h p np g ds =
    Owns g np ds
    × ((es : List ℕ) → ¬ (Owns h np es))
    × ((q : ℕ) (es : List ℕ) → p ≢ q → Owns h q es → Owns g q es)

Gives-IsMoved :
    (libc : Libc) (h : Heap) (p : ℕ) (ds : Bytes) (r : Run ℕ)
    → Gives h ds r
    → Ends libc (λ np g. IsMoved h p np g ds) r
Gives-IsMoved libc h p ds r g = rw g.run (g.owned, g.unowned, λ q es differ o. g.frame q es o)

-- An allocation of `size` bytes, from its three outcomes.
new-Ends :
    (libc : Libc) (h : Heap) (size : ℕ) (ds : Bytes) (r : Run ℕ)
    → (max_alloc < size → r ≡ abort (bad_alloc_request size))
    → (size ≤ max_alloc
        → libc.place h (size + off_total + 0) ≡ none
        → r ≡ abort (out_of_memory size))
    → ((base : ℕ)
        → size ≤ max_alloc
        → libc.place h (size + off_total + 0) ≡ some base
        → Gives h ds r)
    → Ends libc (λ np g. IsMoved h null np g ds) r
new-Ends libc h size ds r big full gives = elim (Bool-cases (ltb max_alloc size)) [
  | inl over ↦ rw (big (ltb→lt max_alloc size over)) (ltb→lt max_alloc size over)
  | inr within ↦
      let small = ltb-le max_alloc size within in
      elim (Option-cases (libc.place h (size + off_total + 0))) [
        | inl e ↦ rw (full small e) (h, 0, e)
        | inr (base, e) ↦ Gives-IsMoved libc h null ds r (gives base small e)
      ]
]

module _ (libc : Libc) (h : Heap) where
  pub new_block_too_big :
      (size extra : ℕ)
      → max_alloc < size
      → new_block libc size extra h ≡ abort (bad_alloc_request size)
  unfolding new_block alloc_check_size
  new_block_too_big size extra over = ground arith

  pub new_block_no_memory :
      (size : ℕ)
      → size ≤ max_alloc
      → libc.place h (size + off_total + 0) ≡ none
      → new_block libc size 0 h ≡ abort (out_of_memory size)
  unfolding new_block alloc_check_size alloc_check_result malloc
  new_block_no_memory size small e =
      let whole : wrap32 (size + off_total + 0) ≡ size + off_total + 0 = omega arith in
      ground (arith, whole, e)

  pub ck_alloc-Ends :
      (size : ℕ)
      → 0 < size
      → Ends libc (λ np g. IsMoved h null np g (replicate size 0)) (ck_alloc libc size h)
  unfolding ck_alloc ck_alloc_nozero
  ck_alloc-Ends size some_size =
      new-Ends libc h size (replicate size 0) _
        (λ over. ground (arith, new_block_too_big size 0 over))
        (λ small e. ground (arith, new_block_no_memory size small e))
        (λ base small e. ck_alloc-Gives libc h size base some_size small e)

  pub ck_strdup-Ends :
      (str : Bytes)
      → length str + 1 < 2 ^ 32
      → Ends libc (λ np g. IsMoved h null np g (str ++ 0 ∷ [])) (ck_strdup libc (some str) h)
  unfolding ck_strdup
  ck_strdup-Ends str short =
      let size = length str + 1 in
      let whole : wrap32 size ≡ size = omega arith in
      new-Ends libc h size (str ++ 0 ∷ []) _
        (λ over. ground (arith, whole, new_block_too_big size 0 over))
        (λ small e. ground (arith, whole, new_block_no_memory size small e))
        (λ base small e. ck_strdup-Gives libc h str base (omega arith) e)

  pub ck_memdup-Ends :
      (mem : Bytes)
      → 0 < length mem
      → Ends libc (λ np g. IsMoved h null np g mem) (ck_memdup libc (some mem) h)
  unfolding ck_memdup
  ck_memdup-Ends mem some_size =
      new-Ends libc h (length mem) mem _
        (λ over. ground (arith, new_block_too_big (length mem) 0 over))
        (λ small e. ground (arith, new_block_no_memory (length mem) small e))
        (λ base small e. ck_memdup-Gives libc h mem base some_size small e)

-- The pointer is NULL, or somebody's.
abbrev pub IsGiven : Heap → ℕ → Type 0
IsGiven h p = (p ≡ null) ⊎ ((ds : List ℕ) × Owns h p ds)

-- The bytes that DFL_ck_realloc gives for `p`: zeros for NULL, and otherwise the bytes of `p` as far
-- as they fit, and zeros.
abbrev pub IsResized : Heap → (p size : ℕ) → Bytes → Type 0
IsResized h p size ds =
    ((p ≡ null) × (ds ≡ replicate size 0))
    ⊎ ((old : Bytes) × Owns h p old × (ds ≡ take size old ++ replicate (size - length old) 0))

pub length-IsResized :
    (h : Heap) (p size : ℕ) (ds : Bytes) → IsResized h p size ds → length ds ≡ size
length-IsResized h p size ds (inl (at, e)) = rw e (length-replicate {A = ℕ} size 0)
length-IsResized h p size ds (inr (old, o, e)) = rw e (length-grown size old)

module _ (libc : Libc) (h : Heap) where
  realloc_no_memory :
      (p size : ℕ)
      → IsGiven h p
      → 0 < size
      → size ≤ max_alloc
      → libc.place h (size + off_total + 0) ≡ none
      → ck_realloc libc true p size h ≡ abort (out_of_memory size)
  unfolding ck_realloc realloc_check realloc_copy alloc_check_size alloc_check_result malloc
  realloc_no_memory p size (inl e) some_size small full =
      let whole : wrap32 (size + off_total) ≡ size + off_total = omega arith in
      let full' : libc.place h (size + off_total) ≡ none = rw add-zero at full in
      ground (arith, whole)
  realloc_no_memory p size (inr (ds, o)) some_size small full =
      let whole : wrap32 (size + off_total) ≡ size + off_total = omega arith in
      let full' : libc.place h (size + off_total) ≡ none = rw add-zero at full in
      ground
        (arith, whole, o.above, o.small, check_ptr-Owns o, peek-cell h p (block ds o.extra) o.cell)

  realloc_too_big :
      (p size : ℕ)
      → IsGiven h p
      → max_alloc < size
      → ck_realloc libc true p size h ≡ abort (bad_alloc_request size)
  unfolding ck_realloc realloc_check alloc_check_size
  realloc_too_big p size (inl e) over = ground arith
  realloc_too_big p size (inr (ds, o)) over =
      ground (arith, o.above, o.small, check_ptr-Owns o, peek-cell h p (block ds o.extra) o.cell)

  -- Where the C library has memory.
  realloc_given :
      (p size base : ℕ)
      → IsGiven h p
      → 0 < size
      → size ≤ max_alloc
      → libc.place h (size + off_total + 0) ≡ some base
      → Ends libc
          (λ np g. (ds : List ℕ) × IsResized h p size ds × IsMoved h p np g ds)
          (ck_realloc libc true p size h)
  realloc_given p size base (inl e) some_size small place = rw e (null-Ends (rw add-zero at place))
    where
      null-Ends :
          libc.place h (size + off_total) ≡ some base
          → Ends libc
              (λ np g. (ds : List ℕ) × IsResized h null size ds × IsMoved h null np g ds)
              (ck_realloc libc true null size h)
      null-Ends at =
          let g = ck_realloc-null-Gives libc h size base some_size small at true in
          rw g.run (
            replicate size 0,
            inl (refl, refl),
            (g.owned, g.unowned, λ q es differ o. g.frame q es o),
          )
  realloc_given p size base (inr (ds, o)) some_size small place =
      let at : libc.place h (size + off_total) ≡ some base = rw add-zero at place in
      let (g, unowned) = ck_realloc_debug-Moves libc h p size base ds o some_size small at in
      rw g.run (grown size ds, inr (ds, o, refl), (g.owned, unowned, g.frame))

  -- DFL_ck_realloc in a debug build: a fresh pointer to the old bytes, resized.
  pub ck_realloc-Ends :
      (p size : ℕ)
      → IsGiven h p
      → 0 < size
      → Ends libc
          (λ np g. (ds : List ℕ) × IsResized h p size ds × IsMoved h p np g ds)
          (ck_realloc libc true p size h)
  ck_realloc-Ends p size given some_size = elim (Bool-cases (ltb max_alloc size)) [
    | inl over ↦ let big = ltb→lt max_alloc size over in rw (realloc_too_big p size given big) big
    | inr within ↦
        let small = ltb-le max_alloc size within in
        elim (Option-cases (libc.place h (size + off_total + 0))) [
          | inl e ↦ rw (realloc_no_memory p size given some_size small e) (h, 0, e)
          | inr (base, e) ↦ realloc_given p size base given some_size small e
        ]
  ]

-- ===== src/Alloc/Owns/Null.antt =====
-- DFL_ck_realloc of NULL, in either build of trace/include/alloc-inl.h.
use native.Mathlib.Nat.{add-zero}
use co_fuzz.Prelude.{
  ℕ, zero, suc, ◌+◌, ◌-◌, ◌<◌, ◌≤◌, ◌≡◌, refl, false, Bool, List, [], some, length, arith,
  replicate, take, length-replicate, ◌==◌, if◌then◌else◌, ltb,
}
use co_fuzz.Alloc.Heap.{
  Heap, Run, ok, abort, fault, run_on, Cmd, pure, ◌>>◌, off_head, off_total, null,
}
use co_fuzz.Alloc.Libc.{Libc, realloc}
use co_fuzz.Alloc.Check.{max_alloc, alloc_check_size, alloc_check_result, stamp}
use co_fuzz.Alloc.Cells.{written}
use co_fuzz.Alloc.Dfl.{wrap32, realloc_check, realloc_copy, realloc_in_place, ck_realloc}
use co_fuzz.Alloc.Owns.{block}
use co_fuzz.Alloc.Owns.Grown.{grown, finish-grown}
use co_fuzz.Alloc.Owns.Fresh.{length-unwritten, Gives, Gives-new, raw, malloc-place}

-- A result behind two steps.
then_pure :
    {A : Type 0} (first second : Cmd (Unit {0})) (a : A) (h g : Heap)
    → (first >> second) h ≡ ok tt g
    → (first >> (second >> pure a)) h ≡ ok a g
then_pure first second a h g = go (first h)
  where
    go :
        (r : Run (Unit {0}))
        → run_on (λ _. second) r ≡ ok tt g
        → run_on (λ _. second >> pure a) r ≡ ok a g
    go (ok u h') e = rw e refl
    go (abort why) e = absurd (cc)
    go fault e = absurd (cc)

grown-nil : (size : ℕ) → grown size [] ≡ replicate size 0
grown-nil zero = refl
grown-nil (suc n) = let same : suc n - 0 ≡ suc n = omega arith in rw same refl

take_of_nil : (k : ℕ) (xs : List ℕ) → k ≤ 0 → take k xs ≡ take k []
take_of_nil zero xs h = refl
take_of_nil (suc k) xs h = absurd (omega arith)

module _ (libc : Libc) (h : Heap) (size base : ℕ) (some_size : 0 < size) (small : size ≤ max_alloc)
    (e : libc.place h (size + off_total) ≡ some base) where
  null_base :
      (debug_build : Bool)
      → (if debug_build
            then realloc_copy libc debug_build null size 0
            else realloc_in_place libc debug_build null size)
          h
        ≡ ok base (written h (base + off_head) (raw libc (size + off_total)))
  unfolding alloc_check_result realloc_copy realloc_in_place realloc
  null_base debug_build =
      let whole : wrap32 (size + off_total) ≡ size + off_total = omega arith in
      ground
        (arith, whole, malloc-place libc h (size + off_total) base e, libc.place_ne_null h _ base e)

  ck_realloc-null-run :
      (debug_build : Bool)
      → ck_realloc libc debug_build null size h
        ≡ ok (base + off_head) (written h (base + off_head) (block (replicate size 0) []))
  unfolding ck_realloc realloc_check alloc_check_size raw
  ck_realloc-null-run debug_build =
      let r = raw libc (size + off_total) in
      let full : length r.body ≡ size + 1 =
        omega (arith, length-unwritten libc.garbage (size + off_total - off_head)) in
      let done = rw (grown-nil size) at (
        finish-grown size [] r.body full (λ k h1 h2. take_of_nil k r.body h2) h (base + off_head) r
          refl refl) in
      let positive : (size == 0) ≡ false = ground arith in
      let within : ltb max_alloc size ≡ false = ground arith in
      rw (positive, within, null_base debug_build)
        (then_pure (stamp (base + off_head) size) _ (base + off_head) _ _ done)

  -- DFL_ck_realloc of NULL is an allocation of zeros, in either build.
  pub ck_realloc-null-Gives :
      (debug_build : Bool) → Gives h (replicate size 0) (ck_realloc libc debug_build null size h)
  ck_realloc-null-Gives debug_build =
      Gives-new libc h size 0 base (replicate size 0) [] small (rw (add-zero) e)
        (length-replicate {A = ℕ} size 0) (ck_realloc-null-run debug_build)

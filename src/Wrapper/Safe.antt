-- ===== src/Wrapper/Safe.antt =====
-- How a step of trace/clang-trace.c may end, and the allocator's part in it.
use co_fuzz.Prelude.{
  ◌==◌, ◌-◌, false, ℕ, ◌+◌, ◌^◌, ◌<◌, ◌≤◌, ◌≡◌, refl, inl, inr, List, [], ◌∷◌, ◌++◌, leb, length,
  replicate, length-append, length-replicate, arith, Bool-cases,
}
use co_fuzz.Prelude.Text.{Bytes}
use co_fuzz.Alloc.Heap.{Heap, Run, ok, abort, fault, null, write_bytes}
use co_fuzz.Alloc.Libc.{Libc}
use co_fuzz.Alloc.Ends.{Starves, Ends, IsMoved, ck_alloc-Ends}
use co_fuzz.Alloc.Check.{magic_c2}
use co_fuzz.Alloc.Cells.{written, write_bytes-cell}
use co_fuzz.Alloc.Dfl.{ck_alloc}
use co_fuzz.Alloc.Owns.{block, Owns, Owns-written, Owns_frame}
use co_fuzz.Alloc.Owns.Fresh.{overwrite_front}
use co_fuzz.Wrapper.Base.{
  Fatal, Out, done, exits, died, undefined, Wr, and_then, from_run, alloc_printf,
}

-- No undefined behaviour: the step returns with P, or stops by FATAL with Q, or an allocation fails.
abbrev pub Safe : Libc → {A : Type 0} → (A → Heap → Type 0) → (Fatal → Type 0) → Out A → Type 0
Safe libc P Q (done a h) = P a h
Safe libc P Q (exits why) = Q why
Safe libc P Q (died why) = Starves libc why
Safe libc P Q undefined = ⊥

pub Safe-bind :
    (libc : Libc) {A B : Type 0} (P : A → Heap → Type 0) (R : B → Heap → Type 0)
    (Q : Fatal → Type 0) (m : Out A) (k : A → Wr B)
    → Safe libc P Q m
    → ((a : A) (h : Heap) → P a h → Safe libc R Q (k a h))
    → Safe libc R Q (and_then m k)
Safe-bind libc P R Q (done a h) k p next = next a h p
Safe-bind libc P R Q (exits why) k p next = p
Safe-bind libc P R Q (died why) k p next = p
Safe-bind libc P R Q undefined k p next = p

-- Every owner of `h` still owns the same bytes in `g`.
abbrev pub Keeps : Heap → Heap → Type 0
Keeps h g = (q : ℕ) (ds : List ℕ) → Owns h q ds → Owns g q ds

-- A buffer that was nobody's in `h`.
abbrev pub IsFresh : Heap → ℕ → Heap → Bytes → Type 0
IsFresh h p g text = Owns g p text × ((ds : List ℕ) → ¬ (Owns h p ds)) × Keeps h g

-- A command of the allocator that hands out a buffer.
pub Ends-Safe :
    (libc : Libc) (h : Heap) (text : Bytes) (Q : Fatal → Type 0) (r : Run ℕ)
    → Ends libc (λ p g. IsMoved h null p g text) r
    → Safe libc (λ p g. IsFresh h p g text) Q (from_run r)
Ends-Safe libc h text Q (ok p g) (owned, unowned, kept) =
    (owned, unowned, λ q ds o. kept q ds (λ at. omega (arith, at, o.above)) o)
Ends-Safe libc h text Q (abort why) starves = starves
Ends-Safe libc h text Q fault ends = ends

pub ck_alloc-Safe :
    (libc : Libc) (h : Heap) (size : ℕ) (Q : Fatal → Type 0)
    → 0 < size
    → Safe libc (λ p g. IsFresh h p g (replicate size 0)) Q (from_run (ck_alloc libc size h))
ck_alloc-Safe libc h size Q some_size =
    Ends-Safe libc h (replicate size 0) Q (ck_alloc libc size h)
      (ck_alloc-Ends libc h size some_size)

-- A fresh buffer written from its start to its end.
fill-Safe :
    (libc : Libc) (h g : Heap) (p : ℕ) (zeros text : Bytes) (Q : Fatal → Type 0)
    → length text ≡ length zeros
    → IsFresh h p g zeros
    → Safe libc (λ _ g'. IsFresh h p g' text) Q (from_run (write_bytes p 0 text g))
fill-Safe libc h g p zeros text Q size (o, unowned, keeps) =
    let c = block zeros o.extra in
    let fits : 0 + length text ≤ length c.body =
      omega (arith, size, length-append zeros (magic_c2 ∷ o.extra)) in
    let run : write_bytes p 0 text g ≡ ok tt (written g p (block text o.extra)) = ground (
      arith,
      write_bytes-cell g p c o.cell 0 text refl fits,
      overwrite_front zeros text (magic_c2 ∷ o.extra) size,
    ) in
    rw run (
      Owns-written g p text o.extra o.above (omega (arith, o.small, size)),
      unowned,
      λ q ds old. Owns_frame p _ o.above (λ same. unowned ds (rw same old)) (keeps q ds old),
    )

-- alloc_printf of a text of less than INT_MAX bytes gives a fresh buffer with the text and its NUL, or stops.
pub alloc_printf-Safe :
    (libc : Libc) (h : Heap) (text : Bytes) (Q : Fatal → Type 0)
    → length text + 1 < 2 ^ 31
    → Safe libc (λ p g. IsFresh h p g (text ++ 0 ∷ [])) Q (alloc_printf libc text h)
unfolding alloc_printf
alloc_printf-Safe libc h text Q short = elim (Bool-cases (leb (2 ^ 31) (length text))) [
  | inl long ↦ absurd (ground (arith, long))
  | inr fits ↦
      let below : (length text == 2 ^ 31 - 1) ≡ false = ground arith in
      rw (fits, below)
        (Safe-bind libc (λ p g. IsFresh h p g (replicate (length text + 1) 0)) _ Q
          (from_run (ck_alloc libc (length text + 1) h)) _
          (ck_alloc-Safe libc h (length text + 1) Q (omega arith))
          (λ p g fresh.
            Safe-bind libc (λ _ g'. IsFresh h p g' (text ++ 0 ∷ [])) _ Q
              (from_run (write_bytes p 0 (text ++ 0 ∷ []) g)) _
              (fill-Safe libc h g p (replicate (length text + 1) 0) (text ++ 0 ∷ []) Q
                (omega (
                  arith,
                  length-append text (0 ∷ []),
                  length-replicate {A = ℕ} (length text + 1) 0,
                ))
                fresh)
              (λ _ g' r. r)))
]

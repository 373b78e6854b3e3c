-- ===== src/Alloc/Owns/Grown.antt =====
-- The bytes of a buffer that DFL_ck_realloc of trace/include/alloc-inl.h has made longer or shorter.
use co_fuzz.Prelude.{
  ltb→lt, ltb-le, ℕ, zero, suc, ◌+◌, ◌-◌, ◌<◌, ◌≤◌, ◌≡◌, refl, true, List, [], ◌∷◌, ◌++◌, length,
  arith, replicate, set, take, drop, min, length-append, length-replicate, append_assoc, append-nil,
  drop-append, if◌then◌else◌, Bool-cases, inl, inr, ap, ◌∙◌, sym, ltb,
}
use co_fuzz.Alloc.Heap.{Chunk, Heap, ok, pure, write_bytes, overwrite, ◌>>◌}
use co_fuzz.Alloc.Check.{magic_c1, magic_c2, stamp}
use co_fuzz.Alloc.Cells.{written, stamp-written, write_bytes-written}
use co_fuzz.Alloc.Owns.{block}

pub length-take : (n : ℕ) (xs : List ℕ) → length (take n xs) ≡ min n (length xs)
length-take zero xs = omega arith
length-take (suc n) [] = omega arith
length-take (suc n) (x ∷ xs) = omega (arith, length-take n xs)

pub take-append_le : (n : ℕ) (xs ys : List ℕ) → n ≤ length xs → take n (xs ++ ys) ≡ take n xs
take-append_le zero xs ys h = refl
take-append_le (suc n) [] ys h = absurd (omega arith)
take-append_le (suc n) (x ∷ xs) ys h = ap (◌∷◌ x) (take-append_le n xs ys (omega arith))

pub take-take_le : (n m : ℕ) (xs : List ℕ) → n ≤ m → take n (take m xs) ≡ take n xs
take-take_le zero m xs h = refl
take-take_le (suc n) zero xs h = absurd (omega arith)
take-take_le (suc n) (suc m) [] h = refl
take-take_le (suc n) (suc m) (x ∷ xs) h = ap (◌∷◌ x) (take-take_le n m xs (omega arith))

pub set_last : (xs : List ℕ) (n v : ℕ) → length xs ≡ n + 1 → set xs n v ≡ take n xs ++ v ∷ []
set_last [] n v e = absurd (omega arith)
set_last (x ∷ []) zero v e = refl
set_last (x ∷ y ∷ xs) zero v e = absurd (omega arith)
set_last (x ∷ xs) (suc n) v e = ap (◌∷◌ x) (set_last xs n v (omega arith))

pub take_ge : (n : ℕ) (xs : List ℕ) → length xs ≤ n → take n xs ≡ xs
take_ge zero [] h = refl
take_ge (suc n) [] h = refl
take_ge zero (x ∷ xs) h = absurd (omega arith)
take_ge (suc n) (x ∷ xs) h = ap (◌∷◌ x) (take_ge n xs (omega arith))

pub drop_at : (n : ℕ) (xs ys : List ℕ) → length xs ≡ n → drop n (xs ++ ys) ≡ ys
drop_at n xs ys e = rw (← e) (drop-append xs ys)

-- The bytes of a buffer that is made `size` bytes long: the old ones as far as they go, then zeros.
abbrev pub grown : ℕ → List ℕ → List ℕ
grown size contents = take size contents ++ replicate (size - length contents) 0

pub length-grown : (size : ℕ) (contents : List ℕ) → length (grown size contents) ≡ size
length-grown size contents = omega (
  arith,
  length-append (take size contents) (replicate (size - length contents) 0),
  length-take size contents,
  length-replicate {A = ℕ} (size - length contents) 0,
)

-- A body of `size + 1` bytes that begins with the old bytes, as far as they fit.
module _ (size : ℕ) (contents body : List ℕ) (full : length body ≡ size + 1)
    (same : (k : ℕ) → k ≤ size → k ≤ length contents → take k body ≡ take k contents) where
  stamped_shrunk :
      size ≤ length contents
      → take size body ++ magic_c2 ∷ [] ≡ grown size contents ++ magic_c2 ∷ []
  stamped_shrunk h =
      let none_added : size - length contents ≡ 0 = omega arith in
      rw (none_added, append-nil, same size (omega arith) h)

  -- The same where zeros are written behind the old bytes.
  stamped_grown :
      length contents < size
      → overwrite
          (take size body ++ magic_c2 ∷ [])
          (length contents)
          (replicate (size - length contents) 0)
        ≡ grown size contents ++ magic_c2 ∷ []
  stamped_grown h =
      let old = length contents in
      let zeros = replicate {A = ℕ} (size - old) 0 in
      let kept : length (take size body) ≡ size = omega (arith, length-take size body, full) in
      let end : old + length zeros ≡ size =
        omega (arith, length-replicate {A = ℕ} (size - old) 0) in
      let start =
        take-append_le old (take size body) (magic_c2 ∷ []) (omega (arith, kept))
        ∙ take-take_le old size body (omega arith)
        ∙ same old (omega arith) (omega arith)
        ∙ take_ge old contents (omega arith)
        ∙ sym (take_ge size contents (omega arith)) in
      rw (start, end, drop_at size (take size body) (magic_c2 ∷ []) kept)
        (sym (append_assoc (take size contents) zeros (magic_c2 ∷ [])))

  -- The block after the stamp.
  stamped_chunk : Chunk
  stamped_chunk = record {
    head = magic_c1;
    size = size;
    body = take size body ++ magic_c2 ∷ [];
    live = true;
  }

  -- The stamp and the zeros at the end of DFL_ck_realloc.
  pub finish-grown :
      (g : Heap) (p : ℕ) (c : Chunk)
      → c.live ≡ true
      → c.body ≡ body
      → (stamp p size
            >> (if ltb (length contents) size
                then write_bytes p (length contents) (replicate (size - length contents) 0)
                else pure tt))
          (written g p c)
        ≡ ok tt (written g p (block (grown size contents) []))
  unfolding stamped_chunk
  finish-grown g p c live e = elim (Bool-cases (ltb (length contents) size)) [
    | inl more ↦
        let fits : length contents + length (replicate {A = ℕ} (size - length contents) 0)
            ≤ length stamped_chunk.body =
          omega (
            arith,
            length-replicate {A = ℕ} (size - length contents) 0,
            length-append (take size body) (magic_c2 ∷ []),
            length-take size body,
            full,
            ltb→lt (length contents) size more,
          ) in
        ground (
          arith,
          more,
          stamp-written g p c size live (omega (arith, full, ap length e)),
          e,
          set_last body size magic_c2 full,
          write_bytes-written g p stamped_chunk (length contents)
              (replicate (size - length contents) 0) refl fits,
          stamped_grown (ltb→lt (length contents) size more),
          length-grown size contents,
        )
    | inr enough ↦ ground (
      arith,
      enough,
      stamp-written g p c size live (omega (arith, full, ap length e)),
      e,
      set_last body size magic_c2 full,
      stamped_shrunk (ltb-le (length contents) size enough),
      length-grown size contents,
    )
  ]

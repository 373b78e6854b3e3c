-- ===== src/Alloc/Owns/Fresh.antt =====
-- A fresh block of trace/include/alloc-inl.h: what malloc and the stamp of the canaries leave.
use co_fuzz.Prelude.{
  ℕ, zero, suc, ◌+◌, ◌-◌, ◌<◌, ◌≤◌, ◌≡◌, refl, true, List, [], ◌∷◌, ◌++◌, some, length, arith, set,
  set-append_length, length-append, drop-append, take, drop, ap, ◌∙◌, subst,
}
use co_fuzz.Alloc.Heap.{Chunk, Heap, update, Run, ok, off_head, off_total, overwrite, write_bytes}
use co_fuzz.Alloc.Libc.{Libc, malloc, unwritten, IsVacant}
use co_fuzz.Alloc.Check.{magic_c2, max_alloc, alloc_check_size, alloc_check_result}
use co_fuzz.Alloc.Cells.{written, stamp-written, write_bytes-written}
use co_fuzz.Alloc.Dfl.{wrap32, new_block}
use co_fuzz.Alloc.Owns.{block, Owns, Owns-written, Owns_frame}

pub length-unwritten : (garbage : ℕ → ℕ) (n : ℕ) → length (unwritten garbage n) ≡ n
length-unwritten garbage zero = refl
length-unwritten garbage (suc n) = ap suc (length-unwritten garbage n)

-- A list is cut in front of an entry.
record Cut (xs : List ℕ) (n k : ℕ) : Type 0 where
  front : List ℕ
  entry : ℕ
  back : List ℕ
  whole : xs ≡ front ++ entry ∷ back
  front_length : length front ≡ n
  back_length : length back ≡ k

cut : (xs : List ℕ) (n k : ℕ) → length xs ≡ n + suc k → Cut xs n k
cut [] n k e = absurd (omega arith)
cut (x ∷ xs) zero k e = record {
  front = [];
  entry = x;
  back = xs;
  whole = refl;
  front_length = refl;
  back_length = omega arith;
}
cut (x ∷ xs) (suc n) k e =
    let c = cut xs n k (omega arith) in
    record {
      front = x ∷ c.front;
      entry = c.entry;
      back = c.back;
      whole = ap (◌∷◌ x) c.whole;
      front_length = ap suc c.front_length;
      back_length = c.back_length;
    }

set-Cut : {xs : List ℕ} {n k : ℕ} (c : Cut xs n k) (v : ℕ) → set xs n v ≡ c.front ++ v ∷ c.back
set-Cut {xs} {n} c v =
    ap (λ ys. set ys n v) c.whole
    ∙ subst (λ m. set (c.front ++ c.entry ∷ c.back) m v ≡ c.front ++ v ∷ c.back) c.front_length
        (set-append_length c.front c.entry v c.back)

-- What malloc returns.
unfoldable pub raw : Libc → ℕ → Chunk
raw libc n = record {
  head = libc.garbage n;
  size = libc.garbage (n + 1);
  body = unwritten libc.garbage (n - off_head);
  live = true;
}

pub back_to_base : (base : ℕ) → base + off_head - off_head ≡ base
back_to_base base = omega arith

pub malloc-place :
    (libc : Libc) (h : Heap) (n base : ℕ)
    → libc.place h n ≡ some base
    → malloc libc n h ≡ ok base (written h (base + off_head) (raw libc n))
unfolding malloc raw
malloc-place libc h n base e =
    ground (arith, e, ap (λ b. update h b (raw libc n)) (back_to_base base))

-- A stamped block of fresh memory, as new_block returns it.
pub record Laid (libc : Libc) (h : Heap) (size extra : ℕ) (base : ℕ) : Type 0 where
  pub contents : List ℕ
  pub behind : List ℕ
  pub contents_length : length contents ≡ size
  pub behind_length : length behind ≡ extra
  pub run :
      new_block libc size extra h
      ≡ ok (base + off_head) (written h (base + off_head) (block contents behind))

pub new_block-Laid :
    (libc : Libc) (h : Heap) (size extra base : ℕ)
    → size ≤ max_alloc
    → extra ≤ 1
    → libc.place h (size + off_total + extra) ≡ some base
    → Laid libc h size extra base
unfolding new_block alloc_check_size alloc_check_result raw
new_block-Laid libc h size extra base small few e =
    let n = size + off_total + extra in
    let fits : length (raw libc n).body ≡ size + suc extra =
      omega (arith, length-unwritten libc.garbage (n - off_head)) in
    let c = cut (raw libc n).body size extra fits in
    let whole : wrap32 n ≡ n = omega arith in
    record {
      contents = c.front;
      behind = c.back;
      contents_length = c.front_length;
      behind_length = c.back_length;
      run = ground (
        arith,
        whole,
        small,
        malloc-place libc h n base e,
        libc.place_ne_null h n base e,
        stamp-written h (base + off_head) (raw libc n) size refl (omega (arith, fits)),
        set-Cut c magic_c2,
        c.front_length,
      );
    }

-- An allocation: a pointer that nobody owned, to these bytes, with every other owner's bytes as they
-- were.
pub record Gives (h : Heap) (contents : List ℕ) (r : Run ℕ) : Type 0 where
  pub pointer : ℕ
  pub heap : Heap
  pub run : r ≡ ok pointer heap
  pub owned : Owns heap pointer contents
  pub unowned : (ds : List ℕ) → ¬ (Owns h pointer ds)
  pub frame : (q : ℕ) (ds : List ℕ) → Owns h q ds → Owns heap q ds

pub vacant_unowned :
    (h : Heap) (base p : ℕ) (ds : List ℕ) → p - off_head ≡ base → IsVacant h base → ¬ (Owns h p ds)
vacant_unowned h base p ds at vacant o =
    let cell : h base ≡ some (block ds o.extra) = rw (← at) o.cell in
    let dead = vacant (block ds o.extra) cell in cc

pub overwrite_front :
    (contents bs rest : List ℕ)
    → length bs ≡ length contents
    → overwrite (contents ++ rest) 0 bs ≡ bs ++ rest
overwrite_front contents bs rest e =
    let at : 0 + length bs ≡ length contents = omega arith in
    ap (λ n. bs ++ drop n (contents ++ rest)) at ∙ ap (λ t. bs ++ t) (drop-append contents rest)

pub take_all : (xs : List ℕ) → take (length xs) xs ≡ xs
take_all [] = refl
take_all (x ∷ xs) = ap (◌∷◌ x) (take_all xs)

-- Writing all of a block's bytes.
pub write_all :
    (h : Heap) (p : ℕ) (contents bs behind : List ℕ)
    → length bs ≡ length contents
    → write_bytes p 0 bs (written h p (block contents behind))
      ≡ ok tt (written h p (block bs behind))
write_all h p contents bs behind e =
    let c = block contents behind in
    let fits : 0 + length bs ≤ length c.body =
      omega (arith, length-append contents (magic_c2 ∷ behind)) in
    ground (
      arith,
      write_bytes-written h p c 0 bs refl fits,
      overwrite_front contents bs (magic_c2 ∷ behind) e,
    )

pub Gives-new :
    (libc : Libc) (h : Heap) (size extra base : ℕ) (contents behind : List ℕ) {r : Run ℕ}
    → size ≤ max_alloc
    → libc.place h (size + off_total + extra) ≡ some base
    → length contents ≡ size
    → r ≡ ok (base + off_head) (written h (base + off_head) (block contents behind))
    → Gives h contents r
Gives-new libc h size extra base contents behind small e full run =
    let back = back_to_base base in
    let unowned = λ (ds : List ℕ).
      vacant_unowned h base (base + off_head) ds back (libc.place_vacant h _ base e) in
    let above : off_head < base + off_head = omega (arith, libc.place_ne_null h _ base e) in
    record {
      pointer = base + off_head;
      heap = written h (base + off_head) (block contents behind);
      run = run;
      owned = Owns-written h (base + off_head) contents behind above (omega arith);
      unowned = unowned;
      frame = λ q ds o. Owns_frame (base + off_head) _ above (λ same. unowned ds (rw same o)) o;
    }

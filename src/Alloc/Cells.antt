-- ===== src/Alloc/Cells.antt =====
-- The commands of the memory, run on a heap whose last change was to the block at hand.
use mathlib.Core.Path.{fun_ext}
use co_fuzz.Prelude.{ℕ, ◌+◌, ◌-◌, ◌<◌, ◌≤◌, ◌≡◌, true, List, some, length, set, arith, ==_self}
use co_fuzz.Alloc.Heap.{
  Chunk, Heap, update, ok, off_head, peek, poke, set_head, set_size, set_byte, set_tail, overwrite,
  write_bytes,
}
use co_fuzz.Alloc.Check.{magic_c1, magic_c2, stamp}

pub update-update : (h : Heap) (b : ℕ) (c d : Chunk) → update (update h b c) b d ≡ update h b d
update-update h b c d = fun_ext λ a. ground arith

-- A heap is itself with one of its blocks written again.
pub update_self : (h : Heap) (b : ℕ) (c : Chunk) → h b ≡ some c → h ≡ update h b c
update_self h b c e = fun_ext λ a. at a
  where
    at : (a : ℕ) → h a ≡ update h b c a
    at a = ground (arith, ==_self b)

-- Two heaps that differ in one block only.
abbrev pub written : Heap → ℕ → Chunk → Heap
written h p c = update h (p - off_head) c

module _ (h : Heap) (p : ℕ) (c : Chunk) where
  pub peek-written : peek p (written h p c) ≡ ok c (written h p c)
  unfolding peek
  peek-written = ground (arith, ==_self (p - off_head))

  pub poke-written :
      (f : Chunk → Chunk) → c.live ≡ true → poke p f (written h p c) ≡ ok tt (written h p (f c))
  unfolding poke
  poke-written f live =
      ground (arith, ==_self (p - off_head), update-update h (p - off_head) c (f c))

  pub set_head-written :
      (v : ℕ)
      → c.live ≡ true
      → set_head p v (written h p c) ≡ ok tt (written h p (record c { head = v }))
  unfolding set_head
  set_head-written v live = poke-written (λ c. record c { head = v }) live

  pub set_size-written :
      (v : ℕ)
      → c.live ≡ true
      → set_size p v (written h p c) ≡ ok tt (written h p (record c { size = v }))
  unfolding set_size
  set_size-written v live = poke-written (λ c. record c { size = v }) live

  pub set_byte-written :
      (i v : ℕ)
      → c.live ≡ true
      → i < length c.body
      → set_byte p i v (written h p c) ≡ ok tt (written h p (record c { body = set c.body i v }))
  unfolding set_byte
  set_byte-written i v live fits =
      ground (arith, peek-written, poke-written (λ c. record c { body = set c.body i v }) live)

  pub set_tail-written :
      (v : ℕ)
      → c.live ≡ true
      → c.size < length c.body
      → set_tail p v (written h p c) ≡ ok tt (written h p (record c { body = set c.body c.size v }))
  unfolding set_tail
  set_tail-written v live fits = ground (arith, peek-written, set_byte-written c.size v live fits)

  pub write_bytes-written :
      (i : ℕ) (bs : List ℕ)
      → c.live ≡ true
      → i + length bs ≤ length c.body
      → write_bytes p i bs (written h p c)
        ≡ ok tt (written h p (record c { body = overwrite c.body i bs }))
  unfolding write_bytes
  write_bytes-written i bs live fits =
      ground
        (arith, peek-written, poke-written (λ c. record c { body = overwrite c.body i bs }) live)

module _ (h : Heap) (p : ℕ) (c : Chunk) where
  pub stamp-written :
      (size : ℕ)
      → c.live ≡ true
      → size < length c.body
      → stamp p size (written h p c)
        ≡ ok tt (
            written h p (record {
              head = magic_c1;
              size = size;
              body = set c.body size magic_c2;
              live = true;
            }))
  unfolding stamp
  stamp-written size live fits = ground (
    arith,
    set_head-written h p c magic_c1 live,
    set_size-written h p (record c { head = magic_c1 }) size live,
    set_tail-written h p (record c { head = magic_c1; size = size }) magic_c2 live fits,
  )

-- The same where only the block is known.
module _ (h : Heap) (p : ℕ) (c : Chunk) (cell : h (p - off_head) ≡ some c) where
  pub peek-cell : peek p h ≡ ok c h
  unfolding peek
  peek-cell = ground arith

  pub set_head-cell :
      (v : ℕ) → c.live ≡ true → set_head p v h ≡ ok tt (written h p (record c { head = v }))
  unfolding set_head poke
  set_head-cell v live = ground arith

  pub write_bytes-cell :
      (i : ℕ) (bs : List ℕ)
      → c.live ≡ true
      → i + length bs ≤ length c.body
      → write_bytes p i bs h ≡ ok tt (written h p (record c { body = overwrite c.body i bs }))
  unfolding write_bytes poke peek
  write_bytes-cell i bs live fits = ground arith

  pub set_byte-cell :
      (i v : ℕ)
      → c.live ≡ true
      → i < length c.body
      → set_byte p i v h ≡ ok tt (written h p (record c { body = set c.body i v }))
  unfolding set_byte poke peek
  set_byte-cell i v live fits = ground arith

-- ===== src/Alloc/Heap.antt =====
-- The memory that trace/include/alloc-inl.h works on: the blocks of malloc, each with the two words
-- in front of the user's bytes, and commands that may abort or be undefined.
use co_fuzz.Prelude.{
  ℕ, ◌+◌, ◌-◌, Bool, ◌&&◌, List, ◌++◌, Option, none, some, ◌==◌, leb, ltb, length, set, take, drop,
  if◌then◌else◌,
}

-- A block of malloc. `head` and `size` are the words at ALLOC_C1 and ALLOC_S, `body` the bytes from
-- the user's pointer on.
pub record Chunk : Type 0 where
  pub head : ℕ
  pub size : ℕ
  pub body : List ℕ
  pub live : Bool

-- Blocks by the address that malloc returned. A freed block stays, with `live` false.
abbrev pub Heap : Type 0
Heap = ℕ → Option Chunk

abbrev pub update : Heap → ℕ → Chunk → Heap
update h base c a = if a == base then some c else h a

-- The messages of ABORT.
pub data Reason : Type 0 where
  bad_alloc_request : ℕ → Reason
  out_of_memory : ℕ → Reason
  use_after_free : Reason
  corrupted_head : Reason
  corrupted_tail : Reason

-- `fault` is undefined behaviour: an access outside a block, a write to a freed one.
pub data Run (A : Type 0) : Type 0 where
  ok : A → Heap → Run A
  abort : Reason → Run A
  fault : Run A

abbrev pub Cmd : Type 0 → Type 0
Cmd A = Heap → Run A

abbrev pub pure : {A : Type 0} → A → Cmd A
pure = ok

abbrev pub stop : {A : Type 0} → Reason → Cmd A
stop why h = abort why

-- An access that is in bounds, or undefined.
abbrev pub checked : {A : Type 0} → Bool → Cmd A → Cmd A
checked in_bounds m h = if in_bounds then m h else fault

module _ {A B : Type 0} where
  abbrev pub run_on : (A → Cmd B) → Run A → Run B
  run_on next (ok a h) = next a h
  run_on next (abort why) = abort why
  run_on next fault = fault

  infixl 5 ◌>>=◌ ◌>>◌
  abbrev pub ◌>>=◌ : Cmd A → (A → Cmd B) → Cmd B
  first >>= next = λ h. run_on next (first h)

  abbrev pub ◌>>◌ : Cmd A → Cmd B → Cmd B
  first >> second = first >>= λ _. second

abbrev pub null : ℕ
null = 0

-- ALLOC_OFF_HEAD and ALLOC_OFF_TOTAL
abbrev pub off_head : ℕ
off_head = 8

abbrev pub off_total : ℕ
off_total = off_head + 1

-- The block of a user's pointer, also if it is freed: CHECK_PTR reads such blocks on purpose.
unfoldable pub peek : ℕ → Cmd Chunk
peek p h = elim (h (p - off_head)) [ none ↦ fault | some c ↦ ok c h ]

-- A write to a block.
unfoldable pub poke : ℕ → (Chunk → Chunk) → Cmd (Unit {0})
poke p f h = elim (h (p - off_head)) [
  | none ↦ fault
  | some c ↦ if c.live then ok tt (update h (p - off_head) (f c)) else fault
]

-- ALLOC_C1(p) = v
unfoldable pub set_head : ℕ → ℕ → Cmd (Unit {0})
set_head p v = poke p (λ c. record c { head = v })

-- ALLOC_S(p) = v
unfoldable pub set_size : ℕ → ℕ → Cmd (Unit {0})
set_size p v = poke p (λ c. record c { size = v })

-- ((u8*)p)[i] = v
unfoldable pub set_byte : ℕ → ℕ → ℕ → Cmd (Unit {0})
set_byte p i v = do
  c ← peek p
  checked (ltb i (length c.body)) (poke p (λ c. record c { body = set c.body i v }))

-- ALLOC_C2(p) = v
unfoldable pub set_tail : ℕ → ℕ → Cmd (Unit {0})
set_tail p v = do c ← peek p; set_byte p c.size v

-- The bytes `bs` written over a list at an offset.
abbrev pub overwrite : List ℕ → ℕ → List ℕ → List ℕ
overwrite body i bs = take i body ++ (bs ++ drop (i + length bs) body)

-- memcpy and memset: `bs` is written from `p + i` on.
unfoldable pub write_bytes : ℕ → ℕ → List ℕ → Cmd (Unit {0})
write_bytes p i bs = do
  c ← peek p
  checked (leb (i + length bs) (length c.body))
      (poke p (λ c. record c { body = overwrite c.body i bs }))

-- The n bytes from `p` on, of a block that is not freed.
unfoldable pub read_bytes : ℕ → ℕ → Cmd (List ℕ)
unfolding peek
read_bytes p n = do c ← peek p; checked (c.live && leb n (length c.body)) (pure (take n c.body))

-- ===== src/Tests/Sample.antt =====
-- Concrete instances of what the model takes as parameters: a decoder for ASCII, a C library with
-- two places for blocks, and a small program in IR.
use co_fuzz.Prelude.{
  ℕ, ◌-◌, ◌≡◌, ◌≢◌, refl, inl, Bool, true, ◌&&◌, [], ◌∷◌, Option, none, some, ◌==◌, ltb, leb, arith,
  if◌then◌else◌,
}
use co_fuzz.Prelude.Text.{Bytes, All}
use co_fuzz.Tracer.Python.{Unicode, IsAscii}
use co_fuzz.Alloc.Heap.{Chunk, Heap, null}
use co_fuzz.Alloc.Libc.{Libc, IsVacant}
use co_fuzz.Pass.Ir.{View, icmp, phi, or_inst, unidentified, Ir, Module, branch, switch, other_term}
use co_fuzz.Pass.BlockIds.{BlockMap}

abbrev pub all_ascii : Bytes → Bool
all_ascii [] = true
all_ascii (c ∷ s) = ltb c 128 && all_ascii s

all_ascii-true : (s : Bytes) → All IsAscii s → all_ascii s ≡ true
all_ascii-true [] h = refl
all_ascii-true (c ∷ s) (h, hs) = ground (arith, all_ascii-true s hs)

abbrev pub decode : Bytes → Option Bytes
decode s = if all_ascii s then some s else none

pub decode-ascii : (s : Bytes) → All IsAscii s → decode s ≡ some s
decode-ascii s h = rw (all_ascii-true s h)

abbrev pub ascii : Unicode
ascii = record {
  decode = decode;
  digit_value = λ c. if leb b'0' c && leb c b'9' then some (c - b'0') else none;
  is_space = λ c. c == 32;
  decode_ascii = decode-ascii;
  digit_ascii = λ c h. refl;
  space_ascii = refl;
}

abbrev pub place_if_free : Option Chunk → ℕ → Option ℕ
place_if_free none base = some base
place_if_free (some c) base = none

-- Two places, each used once, and no block above 1000 bytes.
abbrev pub place : Heap → ℕ → Option ℕ
place h n =
    if ltb 1000 n
    then none
    else elim (h 16) [ none ↦ some 16 | some c ↦ place_if_free (h 4096) 4096 ]

abbrev pub replace : Heap → ℕ → ℕ → Option ℕ
replace h old n = if ltb 1000 n then none else if old == 0 then none else some old

pub place-cases : (h : Heap) (n base : ℕ) → place h n ≡ some base → (base ≢ null) × (h base ≡ none)
place-cases h n base e = ground arith

pub place-IsVacant : (h : Heap) (n base : ℕ) → place h n ≡ some base → IsVacant h base
place-IsVacant h n base e c live = let gone = (place-cases h n base e).1 in cc

pub replace-same :
    (h : Heap) (old n base : ℕ) → replace h old n ≡ some base → (base ≢ null) × (base ≡ old)
replace-same h old n base e = ground arith

abbrev pub two_places : Libc
two_places = record {
  place = place;
  replace = replace;
  garbage = λ n. 0xAA;
  leftover = λ c. c;
  place_ne_null = λ h n base e. (place-cases h n base e).0;
  place_vacant = place-IsVacant;
  replace_ne_null = λ h old n base e. (replace-same h old n base e).0;
  replace_vacant = λ h old n base e. inl (replace-same h old n base e).1;
}

abbrev pub no_blocks : Heap
no_blocks a = none

-- Value 10 compares two integers, 14 joins it with 11, 20 is a loop-carried phi node.
abbrev pub view : ℕ → View
view v = if v == 10 then icmp 32 11 12 else if v == 14 then or_inst 10 11 else unidentified

abbrev pub straight : Ir
straight = record { view = view; bit_width = λ v. some 32 }

abbrev pub looping : Ir
looping = record {
  view = λ v. if v == 20 then phi ((1, 10) ∷ (2, 20) ∷ []) else unidentified;
  bit_width = λ v. some 32;
}

abbrev pub block_ids : BlockMap
block_ids = (1, 100) ∷ (2, 200) ∷ (3, 300) ∷ []

abbrev pub functions : Module
functions =
    (record { address = 1; terminator = branch 10 2 3 }
      ∷ record { address = 2; terminator = switch 11 3 ((5, 1) ∷ (7, 2) ∷ []) }
      ∷ [])
    ∷ (record { address = 3; terminator = other_term } ∷ [])
    ∷ []

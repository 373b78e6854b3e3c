-- ===== src/Fuzzer/Hits.antt =====
-- StateDepot.__parse_bitmap of src/fuzz/depot.py: how often the fuzzer hit each block, from the file
-- of four bytes for each block. The logarithm of numpy, cut off by int, is the whole logarithm,
-- which it is for numbers below 2 ^ 32.
pub mod Logs
use co_fuzz.Prelude.{ℕ, zero, suc, ◌+◌, ◌*◌, ◌/◌, List, [], ◌∷◌, ltb, if◌then◌else◌}
use co_fuzz.Prelude.Text.{Bytes}

-- int.from_bytes of the order 'little'
unfoldable pub from_bytes : Bytes → ℕ
from_bytes [] = 0
from_bytes (b ∷ bs) = b + 256 * from_bytes bs

-- int(np.log2(n)), on fuel for the number of bits.
unfoldable pub log2 : (fuel n : ℕ) → ℕ
log2 zero n = 0
log2 (suc fuel) n = let rest = log2 fuel (n / 2) in if ltb n 2 then 0 else suc rest

-- One item of vec_int. A number of four bytes has 32 bits.
unfoldable pub bb_hit : (bit_clip : Bytes) → ℕ
unfolding from_bytes log2
bb_hit bit_clip = log2 32 (from_bytes bit_clip)

-- __parse_bitmap(bit_arr), with step 4; the last item may be short.
unfoldable pub parse_bitmap : (bit_arr : Bytes) → List ℕ
unfolding bb_hit
parse_bitmap [] = []
parse_bitmap (a ∷ []) = bb_hit (a ∷ []) ∷ []
parse_bitmap (a ∷ b ∷ []) = bb_hit (a ∷ b ∷ []) ∷ []
parse_bitmap (a ∷ b ∷ c ∷ []) = bb_hit (a ∷ b ∷ c ∷ []) ∷ []
parse_bitmap (a ∷ b ∷ c ∷ d ∷ rest) = bb_hit (a ∷ b ∷ c ∷ d ∷ []) ∷ parse_bitmap rest

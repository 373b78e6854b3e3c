-- ===== src/Debug/Transfers.antt =====
-- Which results of write and read the macros ck_write and ck_read of trace/include/debug.h let pass.
use co_fuzz.Prelude.{ℕ, ◌-◌, ◌<◌, ◌≤◌, ◌^◌, ◌≡◌, refl, none, some, ◌==◌, arith, if◌then◌else◌}
use co_fuzz.Prelude.Text.{Bytes}
use co_fuzz.Debug.{fatal, pfatal, rpfatal, ck_transfer}

-- The bits of -1 in 64 of them.
abbrev pub minus_one : ℕ
minus_one = 2 ^ 64 - 1

-- For a length below 2 ^ 31, a checked transfer goes on where all the bytes were transferred, ends by
-- FATAL where fewer were, and by PFATAL where the call failed with -1. For the length 2 ^ 32 - 1, it
-- goes on although the call failed.
pub ck_transfer-cases :
    (os_message : Bytes) (len res : ℕ)
    → len < 2 ^ 31
    → res ≤ len
    → (ck_transfer os_message len res ≡ (if res == len then none else some fatal))
      × (ck_transfer os_message len minus_one ≡ some (pfatal os_message))
      × (ck_transfer os_message (2 ^ 32 - 1) minus_one ≡ none)
unfolding ck_transfer rpfatal
ck_transfer-cases os_message len res small short = (ground arith, ground arith, refl)

-- ===== src/Debug.antt =====
-- trace/include/debug.h: the messages, what ends a run, and the reads and writes that are checked. A
-- macro that is defined or not is a field of `Look`.
pub mod Colors
pub mod Transfers
use co_fuzz.Prelude.{
  ℕ, ◌+◌, ◌%◌, ◌^◌, Bool, true, false, List, [], ◌∷◌, ◌++◌, Option, none, some, ◌==◌, leb,
  if◌then◌else◌,
}
use co_fuzz.Prelude.Text.{Bytes, codes}
use co_fuzz.Prelude.Decimal.{decimal}

-- USE_COLOR, FANCY_BOXES and MESSAGES_TO_STDOUT
pub record Look : Type 0 where
  pub use_color : Bool
  pub fancy_boxes : Bool
  pub messages_to_stdout : Bool

-- The colours of the text: cBLK to cRST.
pub data Color : Type 0 where
  c_blk : Color
  c_red : Color
  c_grn : Color
  c_brn : Color
  c_blu : Color
  c_mgn : Color
  c_cya : Color
  c_lgr : Color
  c_gra : Color
  c_lrd : Color
  c_lgn : Color
  c_yel : Color
  c_lbl : Color
  c_pin : Color
  c_lcy : Color
  c_bri : Color
  c_rst : Color

-- The codes behind ESC and `[`, up to the `m`.
abbrev pub color_text : Color → Bytes
color_text c_blk = codes "0;30"
color_text c_red = codes "0;31"
color_text c_grn = codes "0;32"
color_text c_brn = codes "0;33"
color_text c_blu = codes "0;34"
color_text c_mgn = codes "0;35"
color_text c_cya = codes "0;36"
color_text c_lgr = codes "0;37"
color_text c_gra = codes "1;90"
color_text c_lrd = codes "1;91"
color_text c_lgn = codes "1;92"
color_text c_yel = codes "1;93"
color_text c_lbl = codes "1;94"
color_text c_pin = codes "1;95"
color_text c_lcy = codes "1;96"
color_text c_bri = codes "1;97"
color_text c_rst = codes "0"

-- "\x1b[" and "m" around the codes, or nothing.
unfoldable pub color : Look → Color → Bytes
color look c = if look.use_color then 27 ∷ b'[' ∷ (color_text c ++ b'm' ∷ []) else []

-- The parts of what SAYF prints: a colour, bSTOP, RESET_G1, CURSOR_SHOW, or a text.
pub data Part : Type 0 where
  ink : Color → Part
  b_stop : Part
  reset_g1 : Part
  cursor_show : Part
  say : Bytes → Part

unfoldable pub part_text : Look → Part → Bytes
unfolding color
part_text look (ink c) = color look c
part_text look b_stop = if look.fancy_boxes then 15 ∷ [] else []
part_text look reset_g1 = if look.fancy_boxes then 27 ∷ codes ")B" else []
part_text look cursor_show = 27 ∷ codes "[?25h"
part_text look (say text) = text

unfoldable pub print : Look → List Part → Bytes
unfolding part_text
print look [] = []
print look (p ∷ parts) = part_text look p ++ print look parts

-- Where SAYF prints.
pub data Stream : Type 0 where
  stdout : Stream
  stderr : Stream

unfoldable pub stream : Look → Stream
stream look = if look.messages_to_stdout then stdout else stderr

-- WARNF, ACTF, OKF and BADF
pub data Kind : Type 0 where
  warnf : Kind
  actf : Kind
  okf : Kind
  badf : Kind

-- What a message has in front of its text.
abbrev pub front : Kind → List Part → List Part
front warnf parts = ink c_yel ∷ say (codes "[!] ") ∷ ink c_bri ∷ say (codes "WARNING: ") ∷ parts
front actf parts = ink c_lbl ∷ say (codes "[*] ") ∷ parts
front okf parts = ink c_lgn ∷ say (codes "[+] ") ∷ parts
front badf parts = ink c_lrd ∷ say (codes "\n[-] ") ∷ parts

abbrev pub message : Kind → (text : Bytes) → List Part
message kind text = front kind (ink c_rst ∷ say text ∷ ink c_rst ∷ say (codes "\n") ∷ [])

-- __FUNCTION__, __FILE__ and __LINE__
pub record Place : Type 0 where
  pub function : Bytes
  pub file : Bytes
  pub line : ℕ

-- FATAL, ABORT and PFATAL; `os_message` is strerror(errno).
pub data Death : Type 0 where
  fatal : Death
  abort : Death
  pfatal : (os_message : Bytes) → Death

abbrev pub title : Death → Bytes
title fatal = codes "\n[-] PROGRAM ABORT : "
title abort = codes "\n[-] PROGRAM ABORT : "
title (pfatal os_message) = codes "\n[-]  SYSTEM ERROR : "

abbrev pub location : Death → Bytes
location fatal = codes "\n         Location : "
location abort = codes "\n    Stop location : "
location (pfatal os_message) = codes "\n    Stop location : "

abbrev pub last_line : Death → List Part
last_line fatal = say (codes "\n\n") ∷ []
last_line abort = say (codes "\n\n") ∷ []
last_line (pfatal os_message) =
    say (codes "\n")
    ∷ ink c_lrd
    ∷ say (codes "       OS message : ")
    ∷ ink c_rst
    ∷ say os_message
    ∷ say (codes "\n")
    ∷ []

abbrev pub death_message : Death → Place → (text : Bytes) → List Part
death_message death place text =
    b_stop
    ∷ reset_g1
    ∷ cursor_show
    ∷ ink c_rst
    ∷ ink c_lrd
    ∷ say (title death)
    ∷ ink c_bri
    ∷ say text
    ∷ ink c_lrd
    ∷ say (location death)
    ∷ ink c_rst
    ∷ say place.function
    ∷ say (codes "(), ")
    ∷ say place.file
    ∷ say (codes ":")
    ∷ say (decimal place.line)
    ∷ last_line death

-- How the macro ends the run.
pub data Ended : Type 0 where
  exited : ℕ → Ended
  aborted : Ended

unfoldable pub end_of : Death → Ended
end_of fatal = exited 1
end_of abort = aborted
end_of (pfatal os_message) = exited 1

-- The low 32 bits, as u32 and s32 keep them.
abbrev pub low_32 : ℕ → ℕ
low_32 n = n % 2 ^ 32

-- RPFATAL(res), for the bits of an s32.
unfoldable pub rpfatal : (os_message : Bytes) → (res : ℕ) → Death
rpfatal os_message res = if leb (2 ^ 31) res then pfatal os_message else fatal

-- ck_write and ck_read, for the bits of what write or read returns; `none` goes on. The comparison of
-- an s32 with a u32 is one of their bits.
unfoldable pub ck_transfer : (os_message : Bytes) → (len res : ℕ) → Option Death
unfolding rpfatal
ck_transfer os_message len res =
    if low_32 res == low_32 len then none else some (rpfatal os_message (low_32 res))

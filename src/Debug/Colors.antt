-- ===== src/Debug/Colors.antt =====
-- The colours and boxes of the messages of trace/include/debug.h change how a terminal shows the text,
-- not the text.
use co_fuzz.Prelude.{
  ℕ, ◌≡◌, refl, ap, ◌∙◌, Bool, true, false, ◌&&◌, ◌||◌, not, List, [], ◌∷◌, ◌++◌, ◌==◌, leb,
  if◌then◌else◌, arith, append_assoc,
}
use co_fuzz.Prelude.Text.{Bytes, codes, All}
use co_fuzz.Prelude.Decimal.{decimal, IsDigit, decimal-IsDigit}
use co_fuzz.Debug.{
  Look, Color, c_blk, c_red, c_grn, c_brn, c_blu, c_mgn, c_cya, c_lgr, c_gra, c_lrd, c_lgn, c_yel,
  c_lbl, c_pin, c_lcy, c_bri, c_rst, color_text, color, Part, ink, b_stop, reset_g1, cursor_show,
  say, part_text, print, Kind, warnf, actf, okf, badf, message, Place, Death, fatal, abort, pfatal,
  title, location, death_message,
}

-- Does the byte end an escape sequence?
abbrev is_final : ℕ → Bool
is_final c = leb 64 c && (leb c 126 && not (c == b'['))

-- What a terminal shows: the bytes outside escape sequences, of which one has begun or not, without
-- the shift back to the usual letters.
abbrev pub shown : (escape : Bool) → Bytes → Bytes
shown escape [] = []
shown true (c ∷ s) = shown (not (is_final c)) s
shown false (c ∷ s) =
    let rest = shown (c == 27) s in if (c == 27) || (c == 15) then rest else c ∷ rest

-- No byte of the text is a control for the terminal.
abbrev pub IsShown : Bytes → Type 0
IsShown s = All (λ c. ((c == 27) ≡ false) × ((c == 15) ≡ false)) s

shown-text : (s rest : Bytes) → IsShown s → shown false (s ++ rest) ≡ s ++ shown false rest
shown-text [] rest h = refl
shown-text (c ∷ s) rest ((not_esc, not_shift), hs) =
    rw (not_esc, not_shift) (ap (◌∷◌ c) (shown-text s rest hs))

shown-color_text :
    (c : Color) (rest : Bytes) → shown true (color_text c ++ b'm' ∷ rest) ≡ shown false rest
shown-color_text c_blk rest = refl
shown-color_text c_red rest = refl
shown-color_text c_grn rest = refl
shown-color_text c_brn rest = refl
shown-color_text c_blu rest = refl
shown-color_text c_mgn rest = refl
shown-color_text c_cya rest = refl
shown-color_text c_lgr rest = refl
shown-color_text c_gra rest = refl
shown-color_text c_lrd rest = refl
shown-color_text c_lgn rest = refl
shown-color_text c_yel rest = refl
shown-color_text c_lbl rest = refl
shown-color_text c_pin rest = refl
shown-color_text c_lcy rest = refl
shown-color_text c_bri rest = refl
shown-color_text c_rst rest = refl

-- The texts of the parts.
abbrev said : List Part → Bytes
said [] = []
said (say text ∷ parts) = text ++ said parts
said (p ∷ parts) = said parts

abbrev AllShown : List Part → Type 0
AllShown [] = Unit
AllShown (say text ∷ parts) = IsShown text × AllShown parts
AllShown (p ∷ parts) = AllShown parts

shown-color :
    (use_color : Bool) (c : Color) (rest : Bytes)
    → shown false ((if use_color then 27 ∷ b'[' ∷ (color_text c ++ b'm' ∷ []) else []) ++ rest)
      ≡ shown false rest
shown-color true c rest =
    ap (shown true) (append_assoc (color_text c) (b'm' ∷ []) rest) ∙ shown-color_text c rest
shown-color false c rest = refl

shown-b_stop :
    (fancy : Bool) (rest : Bytes)
    → shown false ((if fancy then 15 ∷ [] else []) ++ rest) ≡ shown false rest
shown-b_stop true rest = refl
shown-b_stop false rest = refl

shown-reset_g1 :
    (fancy : Bool) (rest : Bytes)
    → shown false ((if fancy then 27 ∷ codes ")B" else []) ++ rest) ≡ shown false rest
shown-reset_g1 true rest = refl
shown-reset_g1 false rest = refl

shown-print :
    (look : Look) (parts : List Part) → AllShown parts → shown false (print look parts) ≡ said parts
unfolding print part_text color
shown-print look [] h = refl
shown-print look (ink c ∷ parts) h =
    shown-color look.use_color c (print look parts) ∙ shown-print look parts h
shown-print look (b_stop ∷ parts) h =
    shown-b_stop look.fancy_boxes (print look parts) ∙ shown-print look parts h
shown-print look (reset_g1 ∷ parts) h =
    shown-reset_g1 look.fancy_boxes (print look parts) ∙ shown-print look parts h
shown-print look (cursor_show ∷ parts) h = shown-print look parts h
shown-print look (say text ∷ parts) (h, hs) =
    shown-text text (print look parts) h ∙ ap (λ s. text ++ s) (shown-print look parts hs)

digits-IsShown : (s : Bytes) → All IsDigit s → IsShown s
digits-IsShown [] h = tt
digits-IsShown (c ∷ s) (h, hs) = ((ground arith, ground arith), digits-IsShown s hs)

-- A literal has no control, as a test tells.
abbrev pub is_shown : Bytes → Bool
is_shown [] = true
is_shown (c ∷ s) = not ((c == 27) || (c == 15)) && is_shown s

pub literal-IsShown : (s : Bytes) → is_shown s ≡ true → IsShown s
literal-IsShown [] h = tt
literal-IsShown (c ∷ s) h = ((ground arith, ground arith), literal-IsShown s (ground arith))

newline-IsShown : IsShown (codes "\n")
newline-IsShown = literal-IsShown (codes "\n") refl

-- The text in front of a message's own.
abbrev pub label : Kind → Bytes
label warnf = codes "[!] WARNING: "
label actf = codes "[*] "
label okf = codes "[+] "
label badf = codes "\n[-] "

shown-message :
    (look : Look) (kind : Kind) (text : Bytes)
    → IsShown text
    → shown false (print look (message kind text)) ≡ label kind ++ (text ++ codes "\n")
shown-message look warnf text h = shown-print look (message warnf text) (
  literal-IsShown (codes "[!] ") refl,
  (literal-IsShown (codes "WARNING: ") refl, (h, (newline-IsShown, tt))),
)
shown-message look actf text h =
    shown-print look (message actf text)
      (literal-IsShown (codes "[*] ") refl, (h, (newline-IsShown, tt)))
shown-message look okf text h =
    shown-print look (message okf text)
      (literal-IsShown (codes "[+] ") refl, (h, (newline-IsShown, tt)))
shown-message look badf text h =
    shown-print look (message badf text)
      (literal-IsShown (codes "\n[-] ") refl, (h, (newline-IsShown, tt)))

-- The message of the system, where the macro shows it.
abbrev pub IsOsShown : Death → Type 0
IsOsShown fatal = Unit
IsOsShown abort = Unit
IsOsShown (pfatal os_message) = IsShown os_message

-- The end of a last message.
abbrev pub os_line : Death → Bytes
os_line fatal = codes "\n\n"
os_line abort = codes "\n\n"
os_line (pfatal os_message) = codes "\n       OS message : " ++ (os_message ++ codes "\n")

abbrev pub IsPlaceShown : Place → Type 0
IsPlaceShown place = IsShown place.function × IsShown place.file

-- "%s(), %s:%u"
abbrev pub place_text : Place → Bytes → Bytes
place_text place rest =
    place.function ++ (codes "(), " ++ (place.file ++ (codes ":" ++ (decimal place.line ++ rest))))

shown-death :
    (look : Look) (death : Death) (place : Place) (text : Bytes)
    → IsShown text
    → IsPlaceShown place
    → IsOsShown death
    → shown false (print look (death_message death place text))
      ≡ title death ++ (text ++ (location death ++ place_text place (os_line death)))
shown-death look fatal place text h (f, g) os = shown-print look (death_message fatal place text) (
  literal-IsShown (title fatal) refl,
  (
    h,
    (
      literal-IsShown (location fatal) refl,
      (
        f,
        (
          literal-IsShown (codes "(), ") refl,
          (
            g,
            (
              literal-IsShown (codes ":") refl,
              (
                digits-IsShown (decimal place.line) (decimal-IsDigit place.line),
                (literal-IsShown (codes "\n\n") refl, tt),
              ),
            ),
          ),
        ),
      ),
    ),
  ),
)
shown-death look abort place text h (f, g) os = shown-print look (death_message abort place text) (
  literal-IsShown (title abort) refl,
  (
    h,
    (
      literal-IsShown (location abort) refl,
      (
        f,
        (
          literal-IsShown (codes "(), ") refl,
          (
            g,
            (
              literal-IsShown (codes ":") refl,
              (
                digits-IsShown (decimal place.line) (decimal-IsDigit place.line),
                (literal-IsShown (codes "\n\n") refl, tt),
              ),
            ),
          ),
        ),
      ),
    ),
  ),
)
shown-death look (pfatal os_message) place text h (f, g) os =
    shown-print look (death_message (pfatal os_message) place text) (
      literal-IsShown (title (pfatal [])) refl,
      (
        h,
        (
          literal-IsShown (location (pfatal [])) refl,
          (
            f,
            (
              literal-IsShown (codes "(), ") refl,
              (
                g,
                (
                  literal-IsShown (codes ":") refl,
                  (
                    digits-IsShown (decimal place.line) (decimal-IsDigit place.line),
                    (
                      newline-IsShown,
                      (
                        literal-IsShown (codes "       OS message : ") refl,
                        (os, (newline-IsShown, tt)),
                      ),
                    ),
                  ),
                ),
              ),
            ),
          ),
        ),
      ),
    )

-- Whichever of USE_COLOR and FANCY_BOXES are defined, a terminal shows the same text for each macro, for
-- texts with neither an escape nor a shift: the label, the text and the end of the line for WARNF,
-- ACTF, OKF and BADF; the title, the text, the place in the source and, for PFATAL, the message of the
-- system for the macros that end the run.
pub shown-messages :
    (look : Look) (text : Bytes) (kind : Kind) (death : Death) (place : Place)
    → IsShown text
    → IsPlaceShown place
    → IsOsShown death
    → (shown false (print look (message kind text)) ≡ label kind ++ (text ++ codes "\n"))
      × (shown false (print look (death_message death place text))
          ≡ title death ++ (text ++ (location death ++ place_text place (os_line death))))
shown-messages look text kind death place h named os =
    (shown-message look kind text h, shown-death look death place text h named os)

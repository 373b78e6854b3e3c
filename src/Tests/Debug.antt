-- ===== src/Tests/Debug.antt =====
-- A message in colours, and a short write.
use co_fuzz.Prelude.{
  ◌-◌, ◌^◌, ◌≡◌, refl, true, false, [], ◌++◌, none, some, ◌==◌, arith, if◌then◌else◌,
}
use co_fuzz.Prelude.Text.{codes}
use co_fuzz.Debug.{
  Look, Place, okf, fatal, pfatal, title, location, print, message, death_message, ck_transfer,
}
use co_fuzz.Debug.Colors.{shown, label, os_line, place_text, literal-IsShown, shown-messages}
use co_fuzz.Debug.Transfers.{minus_one, ck_transfer-cases}

abbrev bright : Look
bright = record { use_color = true; fancy_boxes = true; messages_to_stdout = false }

abbrev in_main : Place
in_main = record { function = codes "main"; file = codes "clang-trace.c"; line = 270 }

shown-messages_example :
    (shown false (print bright (message okf (codes "ok")))
      ≡ label okf ++ (codes "ok" ++ codes "\n"))
    × (shown false (print bright (death_message fatal in_main (codes "ok")))
        ≡ title fatal ++ (codes "ok" ++ (location fatal ++ place_text in_main (os_line fatal))))
shown-messages_example =
    shown-messages bright (codes "ok") okf fatal in_main (literal-IsShown (codes "ok") refl)
      (literal-IsShown in_main.function refl, literal-IsShown in_main.file refl) tt

ck_transfer-cases_example :
    (ck_transfer [] 8 5 ≡ (if 5 == 8 then none else some fatal))
    × (ck_transfer [] 8 minus_one ≡ some (pfatal []))
    × (ck_transfer [] (2 ^ 32 - 1) minus_one ≡ none)
ck_transfer-cases_example = ck_transfer-cases [] 8 5 (omega arith) (omega arith)

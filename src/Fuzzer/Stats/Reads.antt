-- ===== src/Fuzzer/Stats/Reads.antt =====
-- What AFLConfig of src/fuzz/afl.py reads of the fuzzer's statistics.
use co_fuzz.Prelude.{
  ◌≡◌, refl, sym, ap, ◌∙◌, true, false, List, [], ◌∷◌, ◌++◌, append-nil, none, some, Bool-cases,
  inl, inr,
}
use co_fuzz.Prelude.Text.{Bytes, codes, All}
use co_fuzz.Tracer.Python.{Unicode}
use co_fuzz.Tracer.Line.{strip_prefix, rest_of_line}
use co_fuzz.Fuzzer.Stats.{
  lstrip, rstrip, strip, match_cmd, parse_fuzz_stats, after_dashes, parse_target_cmd,
}

module _ (u : Unicode) where
  abbrev pub AllSpace : Bytes → Type 0
  AllSpace s = All (λ c. u.is_space c ≡ true) s

  lstrip-append : (s t : Bytes) → AllSpace s → lstrip u (s ++ t) ≡ lstrip u t
  unfolding lstrip
  lstrip-append [] t h = refl
  lstrip-append (c ∷ s) t (h, hs) = rw h (lstrip-append s t hs)

  rstrip-spaces : (s : Bytes) → AllSpace s → rstrip u s ≡ []
  unfolding rstrip
  rstrip-spaces [] h = refl
  rstrip-spaces (c ∷ s) (h, hs) = rw (rstrip-spaces s hs, h) refl

  rstrip-append : (s t : Bytes) → AllSpace t → rstrip u (s ++ t) ≡ rstrip u s
  unfolding rstrip
  rstrip-append [] t h = rstrip-spaces t h
  rstrip-append (c ∷ s) t h = rw (rstrip-append s t h) refl

  lstrip-spaces : (s : Bytes) → AllSpace s → lstrip u s ≡ []
  unfolding lstrip
  lstrip-spaces [] h = refl
  lstrip-spaces (c ∷ s) (h, hs) = rw h (lstrip-spaces s hs)

  strip_behind : (s t : Bytes) → AllSpace t → strip u (s ++ t) ≡ strip u s
  unfolding strip lstrip
  strip_behind [] t h = rw (lstrip-spaces t h) refl
  strip_behind (c ∷ s) t h = elim (Bool-cases (u.is_space c)) [
    | inl space ↦ rw space (strip_behind s t h)
    | inr other ↦ rw other (rstrip-append (c ∷ s) t h)
  ]

  strip-append :
      (front s back : Bytes)
      → AllSpace front
      → AllSpace back
      → strip u (front ++ (s ++ back)) ≡ strip u s
  unfolding strip
  strip-append front s back hf hb =
      ap (rstrip u) (lstrip-append front (s ++ back) hf) ∙ strip_behind s back hb

-- The last `--` is found behind any text.
after_dashes-append :
    (front rest found : Bytes)
    → after_dashes rest ≡ some found
    → after_dashes (front ++ rest) ≡ some found
unfolding after_dashes
after_dashes-append [] rest found h = h
after_dashes-append (c ∷ front) rest found h = rw (after_dashes-append front rest found h) refl

after_dashes-dashes :
    (rest : Bytes)
    → after_dashes (b'-' ∷ rest) ≡ none
    → after_dashes (codes "--" ++ rest) ≡ some rest
unfolding after_dashes strip_prefix
after_dashes-dashes rest h = rw h refl

-- A line of the statistics, with spaces in front of the colon and around the command.
abbrev pub stats_line : (gap front cmd back : Bytes) → Bytes
stats_line gap front cmd back =
    codes "command_line" ++ (gap ++ (codes ":" ++ (front ++ (cmd ++ back))))

match_cmd-stats_line :
    (u : Unicode) (gap rest : Bytes)
    → u.is_space b':' ≡ false
    → AllSpace u gap
    → rest_of_line rest ≡ true
    → match_cmd u (codes "command_line" ++ (gap ++ (codes ":" ++ rest))) ≡ some rest
unfolding match_cmd strip_prefix lstrip
match_cmd-stats_line u gap rest colon spaces line =
    rw (lstrip-append u gap (b':' ∷ rest) spaces, colon, line) refl

-- The lines in front do not name the command.
parse_fuzz_stats-append :
    (u : Unicode) (before lines : List Bytes)
    → All (λ line. match_cmd u line ≡ none) before
    → parse_fuzz_stats u (before ++ lines) ≡ parse_fuzz_stats u lines
unfolding parse_fuzz_stats
parse_fuzz_stats-append u [] lines h = refl
parse_fuzz_stats-append u (line ∷ before) lines (h, hs) =
    rw h (parse_fuzz_stats-append u before lines hs)

parse_fuzz_stats-some :
    (u : Unicode) (line cmd : Bytes) (lines : List Bytes)
    → match_cmd u line ≡ some cmd
    → parse_fuzz_stats u (line ∷ lines) ≡ some (strip u cmd)
unfolding parse_fuzz_stats
parse_fuzz_stats-some u line cmd lines h = rw h refl

-- The command line that the fuzzer wrote is read back, and its target: for a command that ends with
-- `--`, spaces and the target, where command and target have no spaces around them, the target brings
-- no later `--`, the line has no newline, no earlier line names a command, and the colon is no space.
pub parse_fuzz_stats-target :
    (u : Unicode) (before after : List Bytes) (gap front back options between target : Bytes)
    → u.is_space b':' ≡ false
    → All (λ line. match_cmd u line ≡ none) before
    → AllSpace u gap
    → AllSpace u front
    → AllSpace u back
    → AllSpace u between
    → rest_of_line (front ++ ((options ++ (codes "--" ++ (between ++ target))) ++ back)) ≡ true
    → after_dashes (b'-' ∷ (between ++ target)) ≡ none
    → strip u (options ++ (codes "--" ++ (between ++ target)))
      ≡ options ++ (codes "--" ++ (between ++ target))
    → strip u target ≡ target
    → (parse_fuzz_stats u (
          before
          ++ stats_line gap front (options ++ (codes "--" ++ (between ++ target))) back ∷ after)
        ≡ some (options ++ (codes "--" ++ (between ++ target))))
      × (parse_target_cmd u (options ++ (codes "--" ++ (between ++ target))) ≡ some target)
unfolding parse_target_cmd
parse_fuzz_stats-target u before after gap front back options between target colon others hg hf hb
      hm line last cmd_trimmed target_trimmed =
    let cmd = options ++ (codes "--" ++ (between ++ target)) in
    let matched = match_cmd-stats_line u gap (front ++ (cmd ++ back)) colon hg line in
    let found =
      after_dashes-append options (codes "--" ++ (between ++ target)) (between ++ target)
        (after_dashes-dashes (between ++ target) last) in
    let trimmed : strip u (between ++ target) ≡ target =
      ap (λ s. strip u (between ++ s)) (sym (append-nil target))
      ∙ strip-append u between target [] hm tt
      ∙ target_trimmed in
    (
      parse_fuzz_stats-append u before _ others
          ∙ parse_fuzz_stats-some u _ (front ++ (cmd ++ back)) after matched
          ∙ ap some (strip-append u front cmd back hf hb ∙ cmd_trimmed),
      rw found (ap some trimmed),
    )

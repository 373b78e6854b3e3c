-- ===== src/Fuzzer/Stats.antt =====
-- AFLConfig of src/fuzz/afl.py: the fuzzer's command line, read from its statistics, and the command
-- that exec_showmap builds. The lines of the file are an argument; the result `none` is an exception.
pub mod Reads
use co_fuzz.Prelude.{
  ℕ, Bool, true, false, ◌&&◌, List, [], ◌∷◌, ◌++◌, Option, none, some, ◌==◌, if◌then◌else◌,
}
use co_fuzz.Prelude.Text.{Bytes, codes, is_prefix, contains}
use co_fuzz.Tracer.Python.{Unicode}
use co_fuzz.Tracer.Line.{strip_prefix, rest_of_line, ◌>>=◌}

-- `s.lstrip()`, and what `\s*` leaves.
unfoldable pub lstrip : Unicode → Bytes → Bytes
lstrip u [] = []
lstrip u (c ∷ s) = let rest = lstrip u s in if u.is_space c then rest else c ∷ s

abbrev pub is_nil : Bytes → Bool
is_nil [] = true
is_nil (c ∷ s) = false

unfoldable pub rstrip : Unicode → Bytes → Bytes
rstrip u [] = []
rstrip u (c ∷ s) = let rest = rstrip u s in if u.is_space c && is_nil rest then [] else c ∷ rest

-- `s.strip()`
unfoldable pub strip : Unicode → Bytes → Bytes
unfolding lstrip rstrip
strip u s = rstrip u (lstrip u s)

-- reg_cmd: `^command_line\s*:(?P<cmd>.*)$`
unfoldable pub match_cmd : Unicode → (line : Bytes) → Option Bytes
unfolding strip_prefix lstrip rest_of_line
match_cmd u line = do
  s1 ← strip_prefix (codes "command_line") line
  cmd ← strip_prefix (codes ":") (lstrip u s1)
  if rest_of_line cmd then some cmd else none

-- __parse_fuzz_stats, on the lines of fuzzer_stats.
unfoldable pub parse_fuzz_stats : Unicode → (lines : List Bytes) → Option Bytes
unfolding match_cmd strip
parse_fuzz_stats u [] = none
parse_fuzz_stats u (line ∷ lines) = elim (match_cmd u line) [
  | some cmd ↦ some (strip u cmd)
  | none ↦ parse_fuzz_stats u lines
]

-- reg_bin: `^.*--(?P<cmd>.*)$`, greedily, so from the last `--` on. The command has no newline.
unfoldable pub after_dashes : (cmd : Bytes) → Option Bytes
unfolding is_prefix
after_dashes [] = none
after_dashes (c ∷ s) = elim (after_dashes s) [
  | some later ↦ some later
  | none ↦ strip_prefix (codes "--") (c ∷ s)
]

-- __parse_target_cmd
unfoldable pub parse_target_cmd : Unicode → (afl_cmd : Bytes) → Option Bytes
unfolding after_dashes strip
parse_target_cmd u afl_cmd = after_dashes afl_cmd >>= λ cmd. some (strip u cmd)

unfoldable pub word : Unicode → Bytes → Bytes
word u [] = []
word u (c ∷ s) = let rest = word u s in if u.is_space c then [] else c ∷ rest

-- `afl_cmd.split()[0]`
unfoldable pub first_word : Unicode → (afl_cmd : Bytes) → Option Bytes
unfolding lstrip word
first_word u afl_cmd =
    let found = word u (lstrip u afl_cmd) in if is_nil found then none else some found

-- What the constructor keeps; afl_path is the fuzzer's program, in whose directory afl-showmap is.
pub record AflConfig : Type 0 where
  pub afl_cmd : Bytes
  pub afl_path : Bytes
  pub target_cmd : Bytes
  pub qemu_mode : Bool

unfoldable pub afl_config : Unicode → (lines : List Bytes) → Option AflConfig
unfolding parse_fuzz_stats first_word parse_target_cmd contains
afl_config u lines = do
  afl_cmd ← parse_fuzz_stats u lines
  afl_path ← first_word u afl_cmd
  target_cmd ← parse_target_cmd u afl_cmd
  some (record {
    afl_cmd = afl_cmd;
    afl_path = afl_path;
    target_cmd = target_cmd;
    qemu_mode = contains afl_cmd (codes "-Q");
  })

-- `s.replace('@@', path)`
unfoldable pub replace_at : (path : Bytes) → Bytes → Bytes
replace_at path [] = []
replace_at path (c ∷ []) = c ∷ []
replace_at path (c ∷ d ∷ s) =
    let behind = replace_at path s in
    let next = replace_at path (d ∷ s) in
    if (c == b'@') && (d == b'@') then path ++ behind else c ∷ next

-- showmap_cmd, with the path of afl-showmap and that of the file it writes.
unfoldable pub showmap_cmd : AflConfig → (afl_showmap output_tmp testcase : Bytes) → Bytes
unfolding replace_at
showmap_cmd config afl_showmap output_tmp testcase =
    afl_showmap
    ++ (codes " -t 5000 -m none -q -b "
        ++ ((if config.qemu_mode then codes "-Q" else [])
            ++ (codes " -o "
                ++ (output_tmp ++ (codes " -- " ++ replace_at testcase config.target_cmd)))))

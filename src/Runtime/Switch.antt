-- ===== src/Runtime/Switch.antt =====
-- Which destination __log_switch of trace/trace-rt.o.c reports.
use co_fuzz.Prelude.{
  ℕ, ◌+◌, ◌≡◌, refl, ◌++◌, [], ◌∷◌, List, Option, some, arith, ◌==◌, if◌then◌else◌, length,
  get_elem?, length-append, append_assoc, get_elem?-append_length,
}
use co_fuzz.Prelude.Text.{Bytes}
use co_fuzz.Runtime.{find_case, switch_line, or_default, log_switch}

-- The destination stored for the first covered case, 0 if none is covered.
abbrev pub first_covered : Bytes → List ℕ → ℕ
first_covered [] locs = 0
first_covered (c ∷ cov) [] = 0
first_covered (c ∷ cov) (l ∷ locs) = if c == 0 then first_covered cov locs else l

get_elem?-append_at :
    {n : ℕ} (xs : List ℕ) (y : ℕ) (ys : List ℕ)
    → length xs ≡ n
    → get_elem? (xs ++ y ∷ ys) n ≡ some y
get_elem?-append_at xs y ys e = rw (← e) (get_elem?-append_length xs y ys)

-- The loop's next round, with the entry that it passes moved to the earlier ones.
find_case-snoc :
    (n : ℕ) (pc : Bytes) (c : ℕ) (cov : Bytes) (pl : List ℕ) (l : ℕ) (locs : List ℕ) {r : Option ℕ}
    → find_case (length cov) n ((pc ++ c ∷ []) ++ cov) ((pl ++ l ∷ []) ++ locs) ≡ r
    → find_case (length cov) n (pc ++ c ∷ cov) (pl ++ l ∷ locs) ≡ r
find_case-snoc n pc c cov pl l locs h =
    rw (append_assoc pc (c ∷ []) cov, append_assoc pl (l ∷ []) locs) at h

-- From a point where the earlier entries are `pc` and `pl`, the loop reads the rest.
find_case-first_covered :
    (n : ℕ) (pc cov : Bytes) (pl locs : List ℕ)
    → length pc ≡ n
    → length pl ≡ n
    → length cov ≡ length locs
    → find_case (length cov) n (pc ++ cov) (pl ++ locs) ≡ some (first_covered cov locs)
unfolding find_case
find_case-first_covered n pc [] pl locs e e' h = refl
find_case-first_covered n pc (c ∷ cov) pl [] e e' h = absurd (omega arith)
find_case-first_covered n pc (c ∷ cov) pl (l ∷ locs) e e' h = ground (
  arith,
  get_elem?-append_at pc c cov e,
  get_elem?-append_at pl l locs e',
  find_case-snoc (n + 1) pc c cov pl l locs (
      find_case-first_covered (n + 1) (pc ++ c ∷ []) cov (pl ++ l ∷ []) locs
        (omega (arith, length-append pc (c ∷ []))) (omega (arith, length-append pl (l ∷ [])))
        (omega arith)),
)

-- On arrays of `case_num` entries the function always writes a line, and the destination it names
-- is that of the first covered case, or the default location if no case is covered or that
-- destination is 0.
pub log_switch-first_covered :
    (bit_width prev_loc default_loc : ℕ) (case_cov : Bytes) (case_loc : List ℕ)
    → length case_cov ≡ length case_loc
    → log_switch (length case_cov) bit_width prev_loc default_loc case_cov case_loc
      ≡ some (
          switch_line bit_width
            (length case_cov)
            prev_loc
            (or_default (first_covered case_cov case_loc) default_loc))
unfolding log_switch
log_switch-first_covered w prev def cov loc h =
    rw (find_case-first_covered 0 [] cov [] loc refl refl h, log_switch)

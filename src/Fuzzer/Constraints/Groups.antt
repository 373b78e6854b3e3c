-- ===== src/Fuzzer/Constraints/Groups.antt =====
-- What dump_constraint of src/fuzz/sync.py gives for each source of a log of blocks.
use co_fuzz.Prelude.{
  ℕ, ◌≡◌, refl, Bool, false, ◌||◌, List, [], ◌∷◌, ◌++◌, if◌then◌else◌, ◌==◌, arith, append_assoc,
  append-nil, Bool-cases, inl, inr,
}
use co_fuzz.Prelude.Text.{Bytes, All}
use co_fuzz.Tracer.Python.{Unicode}
use co_fuzz.Fuzzer.Constraints.{join_lines, Constraints, append_at, dump_constraint}
use co_fuzz.Fuzzer.Constraints.Blocks.{Block, IsBlock, log_text, collect, dump_constraint-collect}

-- Each expression behind a newline.
abbrev pub continued : List Bytes → Bytes
continued [] = []
continued (e ∷ es) = b'\n' ∷ e ++ continued es

-- The expressions with a newline between each two.
abbrev pub separated : List Bytes → Bytes
separated [] = []
separated (e ∷ es) = e ++ continued es

-- The sources and constraints of the blocks that ended, in the log's order. A constraint has the
-- expressions of its block, and in front of them those of the blocks that broke off since the last
-- end.
abbrev pub constraints_of : (left : List Bytes) → List Block → List (ℕ × Bytes)
constraints_of left [] = []
constraints_of left (b ∷ bs) =
    if b.ended
    then (b.src, separated (left ++ b.expressions)) ∷ constraints_of [] bs
    else constraints_of (left ++ b.expressions) bs

-- The constraints of one source.
abbrev pub of_source : ℕ → List (ℕ × Bytes) → List Bytes
of_source k [] = []
of_source k ((src, c) ∷ cs) = if src == k then c ∷ of_source k cs else of_source k cs

abbrev pub is_among : ℕ → List ℕ → Bool
is_among k [] = false
is_among k (a ∷ seen) = (a == k) || is_among k seen

-- The sources that are not seen yet, each once and in the order in which they come.
abbrev pub sources : (seen : List ℕ) → List (ℕ × Bytes) → List ℕ
sources seen [] = []
sources seen ((src, c) ∷ cs) =
    if is_among src seen then sources seen cs else src ∷ sources (seen ++ src ∷ []) cs

-- The keys of a dictionary, and the list of one of its keys, which is empty for another key.
abbrev pub keys : Constraints → List ℕ
keys [] = []
keys ((k, cs) ∷ rest) = k ∷ keys rest

abbrev pub list_at : ℕ → Constraints → List Bytes
list_at k [] = []
list_at k ((a, cs) ∷ rest) = if a == k then cs else list_at k rest

join_lines-separated : (es : List Bytes) → join_lines es ≡ separated es
unfolding join_lines
join_lines-separated [] = refl
join_lines-separated (e ∷ []) = rw append-nil refl
join_lines-separated (e ∷ f ∷ es) = rw (join_lines-separated (f ∷ es)) refl

keys-append_at :
    (src : ℕ) (c : Bytes) (cs : Constraints)
    → keys (append_at src c cs) ≡ (if is_among src (keys cs) then keys cs else keys cs ++ src ∷ [])
unfolding append_at
keys-append_at src c [] = refl
keys-append_at src c ((k, l) ∷ cs) = elim (Bool-cases (k == src)) [
  | inl same ↦ rw same refl
  | inr differ ↦ elim (Bool-cases (is_among src (keys cs))) [
    | inl seen ↦ rw (differ, keys-append_at src c cs, seen) refl
    | inr new ↦ rw (differ, keys-append_at src c cs, new) refl
  ]
]

list_at-append_at :
    (k src : ℕ) (c : Bytes) (cs : Constraints)
    → list_at k (append_at src c cs) ≡ (if src == k then list_at k cs ++ c ∷ [] else list_at k cs)
unfolding append_at
list_at-append_at k src c [] = refl
list_at-append_at k src c ((a, l) ∷ cs) = ground (arith, list_at-append_at k src c cs)

keys-collect :
    (left : List Bytes) (bs : List Block) (cs : Constraints)
    → keys (collect left bs cs) ≡ keys cs ++ sources (keys cs) (constraints_of left bs)
keys-collect left [] cs = rw append-nil refl
keys-collect left (b ∷ bs) cs = elim (Bool-cases b.ended) [
  | inr broken ↦ rw broken (keys-collect (left ++ b.expressions) bs cs)
  | inl whole ↦
      let c = join_lines (left ++ b.expressions) in
      let later = keys-collect [] bs (append_at b.src c cs) in
      elim (Bool-cases (is_among b.src (keys cs))) [
        | inl seen ↦
            let same : keys (append_at b.src c cs) ≡ keys cs =
              rw (keys-append_at b.src c cs, seen) refl in
            rw (whole, seen, later, same) refl
        | inr new ↦
            let more : keys (append_at b.src c cs) ≡ keys cs ++ b.src ∷ [] =
              rw (keys-append_at b.src c cs, new) refl in
            rw (whole, new, later, more) (append_assoc (keys cs) (b.src ∷ []) _)
      ]
]

list_at-collect :
    (k : ℕ) (left : List Bytes) (bs : List Block) (cs : Constraints)
    → list_at k (collect left bs cs) ≡ list_at k cs ++ of_source k (constraints_of left bs)
list_at-collect k left [] cs = rw append-nil refl
list_at-collect k left (b ∷ bs) cs = elim (Bool-cases b.ended) [
  | inr broken ↦ rw broken (list_at-collect k (left ++ b.expressions) bs cs)
  | inl whole ↦
      let joined = join_lines-separated (left ++ b.expressions) in
      let c = join_lines (left ++ b.expressions) in
      let later = list_at-collect k [] bs (append_at b.src c cs) in
      let at = list_at-append_at k b.src c cs in
      elim (Bool-cases (b.src == k)) [
        | inl same ↦
            let more : list_at k (append_at b.src c cs) ≡ list_at k cs ++ c ∷ [] =
              rw (at, same) refl in
            rw (whole, same, later, more, ← joined) (append_assoc (list_at k cs) (c ∷ []) _)
        | inr differ ↦
            let kept : list_at k (append_at b.src c cs) ≡ list_at k cs = rw (at, differ) refl in
            rw (whole, differ, later, kept) refl
      ]
]

-- Of a log of blocks, dump_constraint gives a dictionary whose keys are the sources of the blocks that
-- ended, each once and in the order in which they first ended. The list of a key has one constraint
-- for each block of that source that ended, in the log's order: the expressions of the block with a
-- newline between each two, and in front of them those of the blocks before it that broke off since
-- the last end, whichever their sources are. This is for expressions of ASCII characters in one line,
-- which begin with a parenthesis.
pub dump_constraint-log :
    (u : Unicode) (bs : List Block)
    → All IsBlock bs
    → (keys (dump_constraint u (log_text bs)) ≡ sources [] (constraints_of [] bs))
      × ((k : ℕ) → list_at k (dump_constraint u (log_text bs)) ≡ of_source k (constraints_of [] bs))
dump_constraint-log u bs h =
    let e = dump_constraint-collect u bs h in
    rw e (keys-collect [] bs [], λ k. list_at-collect k [] bs [])

-- ===== src/Tracer/State/Log.antt =====
-- The log that trace/trace-rt.o.c writes, read by src/fuzz/trace.py.
use co_fuzz.Prelude.{
  ℕ, not, Bool-cases, inl, inr, ◌+◌, ◌<◌, ◌^◌, ◌≡◌, ◌++◌, List, [], ◌∷◌, if◌then◌else◌, ◌==◌, arith,
  append_assoc,
}
use co_fuzz.Prelude.Text.{Bytes, codes, All, All-append, All-map}
use co_fuzz.Prelude.Decimal.{decimal, signed-decimal}
use co_fuzz.Pass.Condition.Plain.{IsPlain, decimal-IsPlain}
use co_fuzz.Runtime.{edge, log_branch, switch_line}
use co_fuzz.Tracer.Python.{Unicode, splitlines, splitlines-append, splitlines-nil}
use co_fuzz.Tracer.Line.RoundTrip.{edge_text, match_line-print}
use co_fuzz.Tracer.Condition.Parse.{outcome}
use co_fuzz.Tracer.State.{CovState, add_edge, dump_lines, dump_trace}

-- What one call of a logging function reports.
pub record Event : Type 0 where
  pub condition : Bytes
  pub src : ℕ
  pub dest : ℕ

abbrev pub text_of : Event → Bytes
text_of e = codes "[*] (" ++ (e.condition ++ edge_text e.src e.dest)

-- The events that one run logs, each a line.
abbrev pub log_of : List Event → Bytes
log_of [] = []
log_of (e ∷ events) = text_of e ++ b'\n' ∷ log_of events

edge-edge_text :
    (src dest : ℕ) → src < 2 ^ 31 → dest < 2 ^ 31 → edge src dest ≡ edge_text src dest ++ b'\n' ∷ []
unfolding edge
edge-edge_text src dest h h' = rw (
  signed-decimal src h,
  signed-decimal dest h',
  append_assoc (decimal src) (codes "," ++ decimal dest) (b'\n' ∷ []),
)

-- The line of __log_branch is that of an event, with the condition's outcome in front of its text,
-- the block's id and the id of the successor for that outcome, for ids below 2 ^ 31.
pub log_branch-event :
    (prev_loc succ_true succ_false : ℕ) (text : Bytes) (taken : ℕ)
    → prev_loc < 2 ^ 31
    → succ_true < 2 ^ 31
    → succ_false < 2 ^ 31
    → log_branch prev_loc succ_true succ_false text taken
      ≡ text_of (record {
        condition = outcome (not (taken == 0)) ++ text;
        src = prev_loc;
        dest = if taken == 0 then succ_false else succ_true;
      })
        ++ b'\n' ∷ []
unfolding log_branch
log_branch-event prev_loc succ_true succ_false text taken h ht hf = elim (Bool-cases (taken == 0)) [
  | inl e ↦ rw (
    e,
    edge-edge_text prev_loc succ_false h hf,
    append_assoc text (edge_text prev_loc succ_false) (b'\n' ∷ []),
  )
  | inr e ↦ rw (
    e,
    edge-edge_text prev_loc succ_true h ht,
    append_assoc text (edge_text prev_loc succ_true) (b'\n' ∷ []),
  )
]

-- The line of __log_switch is that of an event, with the bit width and the number of cases as its
-- condition, for numbers below 2 ^ 31.
pub switch_line-event :
    (bit_width case_num prev_loc dest_loc : ℕ)
    → bit_width < 2 ^ 31
    → case_num < 2 ^ 31
    → prev_loc < 2 ^ 31
    → dest_loc < 2 ^ 31
    → switch_line bit_width case_num prev_loc dest_loc
      ≡ text_of (record {
        condition = codes "Switch_i" ++ (decimal bit_width ++ (codes "_" ++ decimal case_num));
        src = prev_loc;
        dest = dest_loc;
      })
        ++ b'\n' ∷ []
unfolding switch_line
switch_line-event bit_width case_num prev_loc dest_loc hw hn h hd =
    rw
      (
        signed-decimal bit_width hw,
        signed-decimal case_num hn,
        edge-edge_text prev_loc dest_loc h hd,
      )
      (simp append_assoc)

-- What the events do to the tree, the first of them at line `line_cnt + 1`.
abbrev pub add_events :
    Unicode → (seed_path : Bytes) → (line_cnt : ℕ) → List Event → CovState → CovState
add_events u seed_path line_cnt [] m = m
add_events u seed_path line_cnt (e ∷ events) m =
    add_events u seed_path (line_cnt + 1) events
      (add_edge u seed_path (line_cnt + 1) e.condition e.src e.dest m)

abbrev pub HasPlainText : Event → Type 0
HasPlainText e = All IsPlain e.condition

text_of-IsPlain : (e : Event) → HasPlainText e → All IsPlain (text_of e)
text_of-IsPlain e h = All-append IsPlain (codes "[*] (") _ (omega arith) (
    All-append IsPlain e.condition _ h (
      All-append IsPlain (codes "): ") _ (omega arith) (
        All-append IsPlain (decimal e.src) _ (decimal-IsPlain e.src)
          (All-append IsPlain (codes ",") _ (omega arith) (decimal-IsPlain e.dest)))))

dump_lines-log :
    (u : Unicode) (seed_path : Bytes) (n : ℕ) (events : List Event) (m : CovState)
    → All HasPlainText events
    → dump_lines u seed_path n (splitlines (log_of events)) m ≡ add_events u seed_path n events m
unfolding dump_lines
dump_lines-log u seed_path n [] m h = rw splitlines-nil
dump_lines-log u seed_path n (e ∷ events) m (h, hs) =
    let plain = text_of-IsPlain e h in
    ground (
      arith,
      splitlines-append (text_of e) (log_of events)
          (All-map _ _ (text_of e) (λ c p. (p.2, p.3)) plain),
      u.decode_ascii (text_of e) (All-map _ _ (text_of e) (λ c p. p.1) plain),
      match_line-print u e.condition e.src e.dest (All-map _ _ e.condition (λ c p. p.2) h),
      dump_lines-log u seed_path (n + 1) events
          (add_edge u seed_path (n + 1) e.condition e.src e.dest m) hs,
    )

-- Reading a log of the runtime does to the tree what its events do one after the other, each at its
-- line, for events whose conditions are plain text.
pub dump_trace-log :
    (u : Unicode) (seed_path : Bytes) (events : List Event) (m : CovState)
    → All HasPlainText events
    → dump_trace u (log_of events) seed_path m ≡ add_events u seed_path 0 events m
unfolding dump_trace
dump_trace-log u seed_path events m h = dump_lines-log u seed_path 0 events m h

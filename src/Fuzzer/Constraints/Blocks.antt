-- ===== src/Fuzzer/Constraints/Blocks.antt =====
-- A log of whole and of broken-off blocks, read by dump_constraint of src/fuzz/sync.py.
use co_fuzz.Prelude.{
  ℕ, ◌≡◌, refl, Bool, true, false, List, [], ◌∷◌, ◌++◌, if◌then◌else◌, ap, ◌∙◌, arith, append_assoc,
  append-nil, Bool-cases, inl, inr,
}
use co_fuzz.Prelude.Text.{Bytes, codes, All}
use co_fuzz.Tracer.Python.{Unicode, splitlines, splitlines-nil}
use co_fuzz.Fuzzer.Constraints.{
  join_lines, Constraints, append_at, Reading, read_lines, first_reading, dump_constraint,
}
use co_fuzz.Fuzzer.Constraints.Lines.{
  start_text, IsExpression, read_text-expression, read_text-start, read_text-end, read_lines-line,
  start_text-IsInLine, expression-IsInLine,
}

-- What the executor logs of one branch: the two blocks, the expressions, each on its own line, and
-- the end, unless the run broke off.
pub record Block : Type 0 where
  pub src : ℕ
  pub dest : ℕ
  pub expressions : List Bytes
  pub ended : Bool

abbrev pub IsBlock : Block → Type 0
IsBlock b = All IsExpression b.expressions

abbrev pub lines_text : List Bytes → Bytes → Bytes
lines_text [] rest = rest
lines_text (e ∷ es) rest = e ++ b'\n' ∷ lines_text es rest

abbrev pub end_text : Bool → Bytes → Bytes
end_text true rest = codes "CRACK-END" ++ b'\n' ∷ rest
end_text false rest = rest

abbrev pub log_text : List Block → Bytes
log_text [] = []
log_text (b ∷ bs) =
    start_text b.src b.dest ++ b'\n' ∷ lines_text b.expressions (end_text b.ended (log_text bs))

-- The constraints of the blocks that ended. A block that did not leaves its expressions to the next
-- one that does, whichever its source is.
abbrev pub collect : (left : List Bytes) → List Block → Constraints → Constraints
collect left [] cs = cs
collect left (b ∷ bs) cs =
    if b.ended
    then collect [] bs (append_at b.src (join_lines (left ++ b.expressions)) cs)
    else collect (left ++ b.expressions) bs cs

module _ (u : Unicode) where
  read_lines-expressions :
      (es : List Bytes) (rest : Bytes) (r : Reading)
      → All IsExpression es
      → r.record_flag ≡ true
      → read_lines u (splitlines (lines_text es rest)) r
        ≡ read_lines u (splitlines rest) (record r { express_list = r.express_list ++ es })
  read_lines-expressions [] rest r h flag = rw append-nil refl
  read_lines-expressions (e ∷ es) rest r (h, hs) flag =
      read_lines-line u e (lines_text es rest) r (expression-IsInLine e h)
      ∙ ap (read_lines u (splitlines (lines_text es rest))) (read_text-expression u e r h flag)
      ∙ read_lines-expressions es rest (record r { express_list = r.express_list ++ e ∷ [] }) hs
          flag
      ∙ ap (λ l. read_lines u (splitlines rest) (record r { express_list = l }))
          (append_assoc r.express_list (e ∷ []) es)

  -- The state behind a block.
  abbrev behind : Block → Reading → Reading
  behind b r =
      if b.ended
      then record {
        constraint_dict =
            append_at b.src (join_lines (r.express_list ++ b.expressions)) r.constraint_dict;
        src_bb = b.src;
        record_flag = false;
        express_list = [];
      }
      else record r {
        src_bb = b.src;
        record_flag = true;
        express_list = r.express_list ++ b.expressions;
      }

  read_lines-end :
      (ended : Bool) (rest : Bytes) (src : ℕ) (es : List Bytes) (cs : Constraints)
      → read_lines u
          (splitlines (end_text ended rest))
          (record { constraint_dict = cs; src_bb = src; record_flag = true; express_list = es })
        ≡ read_lines u (splitlines rest) (
            if ended
            then record {
              constraint_dict = append_at src (join_lines es) cs;
              src_bb = src;
              record_flag = false;
              express_list = [];
            }
            else record {
              constraint_dict = cs;
              src_bb = src;
              record_flag = true;
              express_list = es;
            })
  read_lines-end true rest src es cs =
      let r : Reading = record {
        constraint_dict = cs;
        src_bb = src;
        record_flag = true;
        express_list = es;
      } in
      read_lines-line u (codes "CRACK-END") rest r (omega arith)
      ∙ ap (read_lines u (splitlines rest)) (read_text-end u r refl)
  read_lines-end false rest src es cs = refl

  read_lines-block :
      (b : Block) (rest : Bytes) (r : Reading)
      → IsBlock b
      → read_lines u
          (splitlines
            (start_text b.src b.dest ++ b'\n' ∷ lines_text b.expressions (end_text b.ended rest)))
          r
        ≡ read_lines u (splitlines rest) (behind b r)
  read_lines-block b rest r h =
      let started : Reading = record r { src_bb = b.src; record_flag = true } in
      let body = lines_text b.expressions (end_text b.ended rest) in
      read_lines-line u (start_text b.src b.dest) body r (start_text-IsInLine b.src b.dest)
      ∙ ap (read_lines u (splitlines body)) (read_text-start u b.src b.dest r)
      ∙ read_lines-expressions b.expressions (end_text b.ended rest) started h refl
      ∙ read_lines-end b.ended rest b.src (r.express_list ++ b.expressions) r.constraint_dict

  collect-behind :
      (b : Block) (r : Reading) (bs : List Block)
      → collect (behind b r).express_list bs (behind b r).constraint_dict
        ≡ collect r.express_list (b ∷ bs) r.constraint_dict
  collect-behind b r bs = elim (Bool-cases b.ended) [
    | inl whole ↦ rw whole refl
    | inr broken ↦ rw broken refl
  ]

  read_lines-collect :
      (bs : List Block) (r : Reading)
      → All IsBlock bs
      → (read_lines u (splitlines (log_text bs)) r).constraint_dict
        ≡ collect r.express_list bs r.constraint_dict
  unfolding read_lines
  read_lines-collect [] r h = rw splitlines-nil refl
  read_lines-collect (b ∷ bs) r (h, hs) =
      ap (λ (t : Reading). t.constraint_dict) (read_lines-block b (log_text bs) r h)
      ∙ read_lines-collect bs (behind b r) hs
      ∙ collect-behind b r bs

-- dump_constraint, as a loop over the blocks.
pub dump_constraint-collect :
    (u : Unicode) (bs : List Block)
    → All IsBlock bs
    → dump_constraint u (log_text bs) ≡ collect [] bs []
unfolding dump_constraint
dump_constraint-collect u bs h = read_lines-collect u bs first_reading h

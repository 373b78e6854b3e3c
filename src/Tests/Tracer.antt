-- ===== src/Tests/Tracer.antt =====
-- The tracer at small logs.
use co_fuzz.Prelude.{◌≡◌, refl, ◌||◌, List, [], ◌∷◌, ◌++◌, none, some, arith}
use co_fuzz.Prelude.Text.{Bytes, codes, All}
use co_fuzz.Pass.Condition.{icmp_text}
use co_fuzz.Prelude.Decimal.{decimal}
use co_fuzz.Tracer.Condition.{parse_condition, log2_of, parse_edge_type, parse_cond_width}
use co_fuzz.Tracer.Condition.Parse.{parse-icmp_text, parse_condition_switch}
use co_fuzz.Tracer.State.{get, dump_trace}
use co_fuzz.Tracer.State.Log.{Event, log_of, HasPlainText}
use co_fuzz.Tracer.State.Node.{
  child_of, logged, dist_of, dump_trace-child_of, dump_trace-first_line,
}
use co_fuzz.Tests.Sample.{ascii, straight}

abbrev text : Bytes
text = codes "icmp_pred@32_i32"

parse-icmp_text_example :
    (parse_edge_type ascii (icmp_text straight 32 11) ≡ 32)
    × (parse_cond_width ascii (icmp_text straight 32 11) ≡ log2_of 32)
parse-icmp_text_example = parse-icmp_text ascii straight 32 11 refl

parse_condition_switch_example :
    parse_condition ascii (codes "Switch_i" ++ (decimal 32 ++ (codes "_" ++ decimal 2)))
    ≡ record { succ_num = 2; edge_type = 48; cond_width = log2_of 32 }
parse_condition_switch_example = parse_condition_switch ascii 32 2

-- Two edges from one block and one from another.
abbrev events : List Event
events =
    record { condition = codes "Br_true_" ++ text; src = 100; dest = 200 }
    ∷ record { condition = codes "Switch_i32_2"; src = 200; dest = 100 }
    ∷ record { condition = codes "Br_false_" ++ text; src = 100; dest = 300 }
    ∷ []

plain_events : All HasPlainText events
plain_events = omega arith

dump_trace-child_of_example :
    child_of (dump_trace ascii (log_of events) (codes "seed") []) 100 300
    ≡ (child_of [] 100 300 || logged events 100 300)
dump_trace-child_of_example =
    dump_trace-child_of ascii (codes "seed") events [] 100 300 plain_events

unknown_yet : get [] 200 ≡ none
unfolding get
unknown_yet = refl

dump_trace-first_line_example :
    dist_of (dump_trace ascii (log_of events) (codes "seed") []) 200 ≡ some 2
dump_trace-first_line_example =
    dump_trace-first_line ascii (codes "seed") events [] 200 plain_events unknown_yet

-- ===== src/EndToEnd/Step.antt =====
-- What one block's inserted code writes, as events of the log.
use co_fuzz.Prelude.{
  ℕ, ◌<◌, ◌^◌, ◌≡◌, refl, Bool, true, false, not, List, [], ◌∷◌, ◌++◌, Option, some, ◌==◌, length,
  arith, map, append-nil, ap, ◌∙◌, Bool-cases, inl, inr,
}
use co_fuzz.Prelude.Text.{Bytes, codes, All, All-append}
use co_fuzz.Prelude.Decimal.{decimal}
use co_fuzz.Runtime.{or_default, log_branch}
use co_fuzz.Pass.Ir.{Ir, Terminator, jump, branch, switch, other_term}
use co_fuzz.Pass.BlockIds.{BlockMap}
use co_fuzz.Pass.BlockIds.Init.{IsBounded, index-IsBounded}
use co_fuzz.Pass.Condition.Plain.{IsPlain, HasPlainNames, br_cond-IsPlain, decimal-IsPlain}
use co_fuzz.Pass.Instrument.{visit, visit_switch, inserted_by, is_call}
use co_fuzz.Pass.Instrument.Machine.{Frame, execute, switch_dest}
use co_fuzz.Pass.Instrument.Stores.{id}
use co_fuzz.Pass.Instrument.Faithful.{
  branch_line, branch_dest, visit_branch_faithful, visit_switch_faithful,
}
use co_fuzz.Pass.Instrument.Coverage.{IsVisitable}
use co_fuzz.Tracer.Condition.Parse.{outcome}
use co_fuzz.Tracer.State.Log.{
  Event, text_of, log_of, log_branch-event, switch_line-event, HasPlainText,
}
use co_fuzz.EndToEnd.{edges_from, IsSmall}

abbrev pub ends : Event → ℕ × ℕ
ends e = (e.src, e.dest)

-- The run of some code appends plain events with these edges to stderr.
pub record Logs (s : Frame) (r : Option Frame) (reported : List (ℕ × ℕ)) : Type 0 where
  pub events : List Event
  pub next : Frame
  pub run : r ≡ some next
  pub stderr : next.stderr ≡ s.stderr ++ log_of events
  pub plain : All HasPlainText events
  pub edges : map ends events ≡ reported

branch_line-event :
    (taken : Bool) (text : Bytes) (src dest : ℕ)
    → src < 2 ^ 31
    → dest < 2 ^ 31
    → branch_line taken text src dest
      ≡ text_of (record { condition = outcome taken ++ text; src = src; dest = dest }) ++ b'\n' ∷ []
unfolding log_branch
branch_line-event true text src dest h h' = log_branch-event src dest dest text 1 h h' h'
branch_line-event false text src dest h h' = log_branch-event src dest dest text 0 h h' h'

outcome-IsPlain : (taken : Bool) → All IsPlain (outcome taken)
outcome-IsPlain true = omega arith
outcome-IsPlain false = omega arith

module _ (ir : Ir) (depth : ℕ) (m : BlockMap) (names : HasPlainNames ir)
    (bounded : IsBounded m) where
  id_small : (block : ℕ) → id m block < 2 ^ 31
  id_small block = omega (arith, index-IsBounded m block bounded)

  or_default_small : (a b : ℕ) → or_default (id m a) (id m b) < 2 ^ 31
  or_default_small a b = ground (arith, id_small a, id_small b)

  nothing_logged : (s : Frame) → Logs s (some s) []
  nothing_logged s = record {
    events = [];
    next = s;
    run = refl;
    stderr = rw append-nil;
    plain = tt;
    edges = refl;
  }

  branch-Logs :
      (block condition succ0 succ1 : ℕ) (values garbage : ℕ → ℕ) (s : Frame)
      → IsVisitable ir depth m block (branch condition succ0 succ1)
      → Logs s
          (execute values garbage
            (inserted_by (visit ir depth m block (branch condition succ0 succ1)))
            s)
          (edges_from ir m block (branch condition succ0 succ1) values)
  branch-Logs block condition succ0 succ1 values garbage s ((text, e), hb, h0, h1) =
      let taken = not (values condition == 0) in
      let dest = id m (branch_dest (values condition) succ0 succ1) in
      record {
        events = record { condition = outcome taken ++ text; src = id m block; dest = dest } ∷ [];
        next = record s { stderr = s.stderr ++ branch_line taken text (id m block) dest };
        run =
            (visit_branch_faithful ir depth m block condition succ0 succ1 text e hb h0 h1 values
              garbage s).1;
        stderr =
            ap (λ t. s.stderr ++ t)
              (branch_line-event taken text (id m block) dest (id_small block) (id_small _));
        plain = (
          All-append IsPlain (outcome taken) text (outcome-IsPlain taken)
              (br_cond-IsPlain ir m depth condition names e),
          tt,
        );
        edges = refl;
      }

  switch-Logs :
      (block condition default_dest : ℕ) (cases : List (ℕ × ℕ)) (values garbage : ℕ → ℕ) (s : Frame)
      → is_call (ir.view condition) ≡ false
      → IsVisitable ir depth m block (switch condition default_dest cases)
      → IsSmall ir (switch condition default_dest cases)
      → Logs s
          (execute values garbage
            (inserted_by (visit ir depth m block (switch condition default_dest cases)))
            s)
          (edges_from ir m block (switch condition default_dest cases) values)
  switch-Logs block condition default_dest cases values garbage s no_call (_, hb, hd, hc)
        ((width, e, narrow), few) =
      let dest =
        or_default (id m (switch_dest (values condition) default_dest cases)) (id m default_dest) in
      let f =
        visit_switch_faithful ir depth m block condition default_dest width cases no_call e hb hd hc
          values garbage s in
      let text = codes "Switch_i" ++ (decimal width ++ (codes "_" ++ decimal (length cases))) in
      record {
        events = record { condition = text; src = id m block; dest = dest } ∷ [];
        next = f.1;
        run = f.2;
        stderr =
            f.3
            ∙ ap (λ t. s.stderr ++ t)
                (switch_line-event width (length cases) (id m block) dest narrow few
                  (id_small block)
                  (or_default_small (switch_dest (values condition) default_dest cases)
                    default_dest));
        plain = (
          All-append IsPlain (codes "Switch_i") _ (omega arith) (
              All-append IsPlain (decimal width) _ (decimal-IsPlain width)
                (All-append IsPlain (codes "_") _ (omega arith) (decimal-IsPlain (length cases)))),
          tt,
        );
        edges = rw no_call;
      }

  -- The code of one block appends plain events whose edges are those of its terminator.
  pub visit-Logs :
      (block : ℕ) (t : Terminator) (values garbage : ℕ → ℕ) (s : Frame)
      → IsVisitable ir depth m block t
      → IsSmall ir t
      → Logs s
          (execute values garbage (inserted_by (visit ir depth m block t)) s)
          (edges_from ir m block t values)
  unfolding visit execute visit_switch
  visit-Logs block (jump succ) values garbage s h small = nothing_logged s
  visit-Logs block (branch condition succ0 succ1) values garbage s h small =
      branch-Logs block condition succ0 succ1 values garbage s h
  visit-Logs block (switch condition default_dest cases) values garbage s h small =
      elim (Bool-cases (is_call (ir.view condition))) [
        | inl calls ↦ rw calls (nothing_logged s)
        | inr no_call ↦
            switch-Logs block condition default_dest cases values garbage s no_call h small
      ]
  visit-Logs block other_term values garbage s h small = nothing_logged s

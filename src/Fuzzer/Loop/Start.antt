-- ===== src/Fuzzer/Loop/Start.antt =====
-- The loop of run of src/fuzz/executor.py from the start, as main of src/cofuzz.py calls it.
use co_fuzz.Prelude.{
  ℕ, ◌≡◌, refl, true, List, [], ◌∷◌, ◌++◌, Option, none, some, ◌==◌, length, map, replicate, ==_iff,
  arith, ◌∙◌,
}
use co_fuzz.Prelude.Text.{Bytes, All}
use co_fuzz.Tracer.Python.{Unicode}
use co_fuzz.Fuzzer.CrackMap.Marks.{length_bytes}
use co_fuzz.Fuzzer.Bitmap.{init_bitmap, flip}
use co_fuzz.Fuzzer.Loop.{Hybrid, World, init_hybrid, main_loop}
use co_fuzz.Fuzzer.Loop.Turn.{Works, Ready}
use co_fuzz.Fuzzer.Loop.Runs.{Lasts, run_more, run-Lasts}

-- The fuzzer's bitmap, if it is there, has map_size bytes.
abbrev pub IsBitmap : (map_size : ℕ) → Option Bytes → Type 0
IsBitmap map_size none = Unit {0}
IsBitmap map_size (some afl_bitmap) = length afl_bitmap ≡ map_size

-- A new executor.
record Starts (map_size : ℕ) (r : Option Hybrid) : Type 0 where
  start : Hybrid
  run : r ≡ some start
  ready : Ready map_size start
  no_traces : start.traced_seeds ≡ []

length_flipped : (bs : Bytes) → length (map flip bs) ≡ length bs
length_flipped [] = refl
length_flipped (b ∷ bs) = omega (arith, length_flipped bs)

init_bitmap-some :
    (map_size : ℕ) (file : Option Bytes)
    → IsBitmap map_size file
    → (bs : List ℕ) × (init_bitmap map_size file ≡ some bs) × (length bs ≡ map_size)
unfolding init_bitmap
init_bitmap-some map_size none h = (replicate map_size 0, refl, length_bytes map_size 0)
init_bitmap-some map_size (some afl_bitmap) h =
    let fits : (length afl_bitmap == map_size) ≡ true = (==_iff (length afl_bitmap) map_size).1 h in
    (map flip afl_bitmap, rw fits refl, length_flipped afl_bitmap ∙ h)

init_hybrid-Starts :
    (map_size : ℕ) (file : Option Bytes)
    → IsBitmap map_size file
    → Starts map_size (init_hybrid map_size file)
unfolding init_hybrid
init_hybrid-Starts map_size file h =
    let (bs, made, size) = init_bitmap-some map_size file h in
    rw made (record {
      start = _;
      run = refl;
      ready = record {
        sound = record {
          counted = record { queue = refl; hangs = refl; crashes = refl };
          size = size;
          shared = refl;
        };
        below = tt;
      };
      no_traces = refl;
    })

All-both : {A : Type 0} (P : A → Type 0) (xs ys : List A) → All P xs → All P ys → All P (xs ++ ys)
All-both P [] ys h h' = h'
All-both P (x ∷ xs) ys (h, hs) h' = (h, All-both P xs ys hs h')

-- What the program comes to from its start, in some turns and then in later ones: the state between
-- them, and what is kept from the start and from that state to the end.
pub record Goes (u : Unicode) (map_size : ℕ) (bitmap_file : Option Bytes)
    (before later : List World) : Type 0 where
  pub start : Hybrid
  pub begun : init_hybrid map_size bitmap_file ≡ some start
  pub no_traces : start.traced_seeds ≡ []
  pub middle : Hybrid
  pub halfway : main_loop u map_size bitmap_file before ≡ some middle
  pub whole :
      Lasts map_size (before ++ later) start (main_loop u map_size bitmap_file (before ++ later))
  pub rest : Lasts map_size later middle (main_loop u map_size bitmap_file (before ++ later))

-- From its start, with a bitmap of the fuzzer that has map_size bytes or is missing, the program raises
-- no exception in any number of turns in which the files have the right sizes, the traced program
-- writes the log of the runtime, and the concolic executor logs constraints of the blocks that it is
-- asked for only. At the end the three directories hold one file for each number below their counters,
-- and the traced seeds are exactly those that some turn found in the fuzzer's queue. However the turns
-- are split in two parts, every file of the state between the parts is at the end as it was then, in
-- the same directory, every seed that was solved then is still solved, and every edge of the tree is
-- still there; and at least as many pairs were cracked and seeds solved in the later turns as there
-- were later turns with a seed in the queue, as it was listed for solving, that is unsolved at the
-- end.
pub main_loop-Lasts :
    (u : Unicode) (map_size : ℕ) (bitmap_file : Option Bytes) (before later : List World)
    → IsBitmap map_size bitmap_file
    → All (Works u map_size) before
    → All (Works u map_size) later
    → Goes u map_size bitmap_file before later
unfolding main_loop
main_loop-Lasts u map_size bitmap_file before later h works works' =
    let i = init_hybrid-Starts map_size bitmap_file h in
    let first = run-Lasts u map_size before i.start works i.ready in
    let all = All-both (Works u map_size) before later works works' in
    record {
      start = i.start;
      begun = i.run;
      no_traces = i.no_traces;
      middle = first.after;
      halfway = rw i.run first.run;
      whole = rw i.run (run-Lasts u map_size (before ++ later) i.start all i.ready);
      rest =
          rw (i.run, run_more u map_size before later i.start first.after first.run)
            (run-Lasts u map_size later first.after works' first.ready);
    }

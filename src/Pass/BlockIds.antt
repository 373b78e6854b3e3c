-- ===== src/Pass/BlockIds.antt =====
-- The map `basicBlockMap` of TracePass in trace/trace-pass.so.cc, and doInitialization, which fills
-- it with random block ids.
pub mod Init
use co_fuzz.Prelude.{ℕ, ◌+◌, ◌%◌, ◌^◌, List, [], ◌∷◌, Option, none, some, ◌==◌, if◌then◌else◌}
use co_fuzz.Prelude.Text.{Bytes}
use co_fuzz.Pass.Ir.{Block, Module}

-- std::unordered_map<BasicBlock *, u32>
abbrev pub BlockMap : Type 0
BlockMap = List (ℕ × ℕ)

unfoldable pub find : BlockMap → ℕ → Option ℕ
find [] block = none
find ((b, loc) ∷ m) block = if b == block then some loc else find m block

-- `insert`: a key that is there keeps its value.
unfoldable pub insert : BlockMap → ℕ → ℕ → BlockMap
insert m block loc = elim (find m block) [ none ↦ (block, loc) ∷ m | some old ↦ m ]

-- `basicBlockMap[block]`: a key that is not there is added, with the value 0.
unfoldable pub index : BlockMap → ℕ → ℕ × BlockMap
index m block = elim (find m block) [ none ↦ (0, (block, 0) ∷ m) | some loc ↦ (loc, m) ]

-- MAP_SIZE of trace/include/config.h
abbrev pub map_size : ℕ
map_size = 2 ^ 16

-- What sscanf(text, "%u", &rand_seed) does: it stores a number and returns 1, or returns 0, or
-- returns EOF, which is not 0 either.
pub data Scan : Type 0 where
  stored : ℕ → Scan
  no_match : Scan
  end_of_input : Scan

-- `if (rand_seed_str && sscanf(...)) srand(rand_seed);` is the seed set, if any. `unset` is what the
-- variable rand_seed holds before anything is stored.
unfoldable pub chosen_seed : (sscanf : Bytes → Scan) → (unset : ℕ) → Option Bytes → Option ℕ
chosen_seed sscanf unset none = none
chosen_seed sscanf unset (some text) = elim (sscanf text) [
  | stored seed ↦ some seed
  | no_match ↦ none
  | end_of_input ↦ some unset
]

-- The inner loop: `random k` is what the k-th call of random() returns, and the next call is the
-- `calls`-th.
init_blocks : (ℕ → ℕ) → List Block → ℕ × BlockMap → ℕ × BlockMap
init_blocks random [] state = state
init_blocks random (b ∷ blocks) (calls, m) =
    init_blocks random blocks (calls + 1, insert m b.address (random calls % map_size))

init_functions : (ℕ → ℕ) → Module → ℕ × BlockMap → ℕ × BlockMap
unfolding init_blocks
init_functions random [] state = state
init_functions random (f ∷ functions) state =
    init_functions random functions (init_blocks random f state)

-- doInitialization. `generator seed k` is the k-th result of random() after srand(seed), or with no
-- call of srand.
unfoldable pub do_initialization :
    (generator : Option ℕ → ℕ → ℕ)
    → (sscanf : Bytes → Scan) → (unset : ℕ) → (rand_seed_str : Option Bytes) → Module
    → BlockMap
unfolding init_functions chosen_seed
do_initialization generator sscanf unset rand_seed_str functions =
    (init_functions (generator (chosen_seed sscanf unset rand_seed_str)) functions (0, [])).1

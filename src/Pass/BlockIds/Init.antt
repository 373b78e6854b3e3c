-- ===== src/Pass/BlockIds/Init.antt =====
-- What doInitialization of trace/trace-pass.so.cc leaves in the map.
use co_fuzz.Prelude.{
  ℕ, ◌+◌, ◌%◌, ◌<◌, ◌≡◌, List, [], ◌∷◌, Option, some, ◌==◌, arith, Bool-cases, Option-cases, inl,
  inr, ==_iff,
}
use co_fuzz.Prelude.Text.{Bytes, All}
use co_fuzz.Pass.Ir.{Block, Module}
use co_fuzz.Pass.BlockIds.{
  BlockMap, find, insert, index, map_size, Scan, init_blocks, init_functions, do_initialization,
}

-- The map knows the block.
abbrev pub Has : BlockMap → ℕ → Type 0
Has m block = (loc : ℕ) × (find m block ≡ some loc)

-- Every id of the map is below MAP_SIZE.
abbrev pub IsBounded : BlockMap → Type 0
IsBounded = All (λ entry. entry.1 < map_size)

insert-Has_self : (m : BlockMap) (block loc : ℕ) → Has (insert m block loc) block
unfolding insert find
insert-Has_self m block loc = elim (Option-cases (find m block)) [
  | inl e ↦ (loc, ground arith)
  | inr (old, e) ↦ (old, ground arith)
]

insert-Has : (m : BlockMap) (block loc other : ℕ) → Has m other → Has (insert m block loc) other
unfolding insert find
insert-Has m block loc other (l, e) = elim (Bool-cases (block == other)) [
  | inl same ↦ rw ((==_iff block other).0 same) (insert-Has_self m other loc)
  | inr differ ↦ (l, ground arith)
]

insert-IsBounded :
    (m : BlockMap) (block loc : ℕ) → loc < map_size → IsBounded m → IsBounded (insert m block loc)
unfolding insert
insert-IsBounded m block loc h bounded = elim (Option-cases (find m block)) [
  | inl new ↦ rw (new, insert) (h, bounded)
  | inr (old, known) ↦ rw (known, insert) bounded
]

init_blocks-Has :
    (random : ℕ → ℕ) (blocks : List Block) (state : ℕ × BlockMap) (other : ℕ)
    → Has state.1 other
    → Has (init_blocks random blocks state).1 other
unfolding init_blocks
init_blocks-Has random [] state other h = h
init_blocks-Has random (b ∷ blocks) (calls, m) other h =
    init_blocks-Has random blocks _ other (insert-Has m b.address _ other h)

init_blocks-All :
    (random : ℕ → ℕ) (blocks : List Block) (state : ℕ × BlockMap)
    → All (λ b. Has (init_blocks random blocks state).1 b.address) blocks
unfolding init_blocks
init_blocks-All random [] state = tt
init_blocks-All random (b ∷ blocks) (calls, m) = (
  init_blocks-Has random blocks _ b.address (insert-Has_self m b.address _),
  init_blocks-All random blocks (calls + 1, insert m b.address (random calls % map_size)),
)

init_blocks-IsBounded :
    (random : ℕ → ℕ) (blocks : List Block) (state : ℕ × BlockMap)
    → IsBounded state.1
    → IsBounded (init_blocks random blocks state).1
unfolding init_blocks
init_blocks-IsBounded random [] state h = h
init_blocks-IsBounded random (b ∷ blocks) (calls, m) h =
    init_blocks-IsBounded random blocks _
      (insert-IsBounded m b.address (random calls % map_size) (omega arith) h)

init_functions-Has :
    (random : ℕ → ℕ) (functions : Module) (state : ℕ × BlockMap) (other : ℕ)
    → Has state.1 other
    → Has (init_functions random functions state).1 other
unfolding init_functions
init_functions-Has random [] state other h = h
init_functions-Has random (f ∷ functions) state other h =
    init_functions-Has random functions (init_blocks random f state) other
      (init_blocks-Has random f state other h)

init_functions-IsBounded :
    (random : ℕ → ℕ) (functions : Module) (state : ℕ × BlockMap)
    → IsBounded state.1
    → IsBounded (init_functions random functions state).1
unfolding init_functions
init_functions-IsBounded random [] state h = h
init_functions-IsBounded random (f ∷ functions) state h =
    init_functions-IsBounded random functions (init_blocks random f state)
      (init_blocks-IsBounded random f state h)

-- Every block of a function keeps what a later map has more.
All-Has-mono :
    (m m' : BlockMap) (blocks : List Block)
    → ((other : ℕ) → Has m other → Has m' other)
    → All (λ b. Has m b.address) blocks
    → All (λ b. Has m' b.address) blocks
All-Has-mono m m' [] keep h = tt
All-Has-mono m m' (b ∷ blocks) keep h = (keep b.address h.0, All-Has-mono m m' blocks keep h.1)

init_functions-All :
    (random : ℕ → ℕ) (functions : Module) (state : ℕ × BlockMap)
    → All (All (λ b. Has (init_functions random functions state).1 b.address)) functions
unfolding init_functions
init_functions-All random [] state = tt
init_functions-All random (f ∷ functions) state = (
  All-Has-mono _ _ f (init_functions-Has random functions (init_blocks random f state))
      (init_blocks-All random f state),
  init_functions-All random functions (init_blocks random f state),
)

-- After doInitialization every block of the module has an id, and every id is below MAP_SIZE,
-- whatever random() returns and however it is seeded.
pub do_initialization_ids :
    (generator : Option ℕ → ℕ → ℕ) (sscanf : Bytes → Scan) (unset : ℕ) (seed_text : Option Bytes)
    (functions : Module)
    → All
        (All (λ b. Has (do_initialization generator sscanf unset seed_text functions) b.address))
        functions
      × IsBounded (do_initialization generator sscanf unset seed_text functions)
unfolding do_initialization
do_initialization_ids generator sscanf unset seed_text functions =
    (init_functions-All _ functions (0, []), init_functions-IsBounded _ functions (0, []) tt)

-- A known block is looked up with no change to the map, and its id is below MAP_SIZE.
pub index-Has :
    (m : BlockMap) (block : ℕ)
    → Has m block
    → (find m block ≡ some (index m block).0) × ((index m block).1 ≡ m)
unfolding index
index-Has m block (loc, e) = ground arith

find-IsBounded :
    (m : BlockMap) (block loc : ℕ) → IsBounded m → find m block ≡ some loc → loc < map_size
unfolding find
find-IsBounded [] block loc h e = absurd (ground (arith, e))
find-IsBounded ((b, l) ∷ m) block loc (h, hs) e = ground (arith, find-IsBounded m block loc hs, e)

-- The id that the subscript gives is below MAP_SIZE, since an unknown block gets 0.
pub index-IsBounded : (m : BlockMap) (block : ℕ) → IsBounded m → (index m block).0 < map_size
unfolding index
index-IsBounded m block h = elim (Option-cases (find m block)) [
  | inl new ↦ rw (new, index) (omega arith)
  | inr (loc, known) ↦ rw (known, index) (find-IsBounded m block loc h known)
]

-- ===== src/Wrapper/Params/Lists.antt =====
-- The array cc_params of trace/clang-trace.c as a list, and the lists that edit_params stores in it.
use co_fuzz.Prelude.{
  ℕ, ◌+◌, ◌<◌, ◌≤◌, ◌≡◌, Bool, true, false, not, List, [], ◌∷◌, ◌++◌, length, if◌then◌else◌, arith,
  append_assoc, append-nil, length-append, Bool-cases, inl, inr,
}
use co_fuzz.Prelude.Text.{Bytes, codes}
use co_fuzz.Alloc.Heap.{Heap}
use co_fuzz.Wrapper.Base.{World, done}
use co_fuzz.Wrapper.Params.{
  is_set, Flags, note, is_dropped, Params, push, push_all, copy_arguments, when, harden_flags,
  common_flags,
}

abbrev pub array : ℕ → List Bytes → Params
array capacity stored = record { capacity = capacity; stored = stored }

pub push-array :
    (param : Bytes) (n : ℕ) (stored : List Bytes) (h : Heap)
    → length stored < n
    → push param (array n stored) h ≡ done (array n (stored ++ param ∷ [])) h
unfolding push
push-array param n stored h room = ground arith

pub push_all-array :
    (params : List Bytes) (n : ℕ) (stored : List Bytes) (h : Heap)
    → length stored + length params ≤ n
    → push_all params (array n stored) h ≡ done (array n (stored ++ params)) h
unfolding push_all
push_all-array [] n stored h room = rw append-nil
push_all-array (param ∷ params) n stored h room = rw (
  push-array param n stored h (omega arith),
  push_all-array params n (stored ++ param ∷ []) h
      (omega (arith, length-append stored (param ∷ []))),
  append_assoc stored (param ∷ []) params,
)

-- The arguments that are not left out, in their order.
abbrev pub kept : List Bytes → List Bytes
kept [] = []
kept (cur ∷ argv) = if is_dropped cur then kept argv else cur ∷ kept argv

-- The local variables behind the loop.
abbrev pub noted : List Bytes → Flags → Flags
noted [] f = f
noted (cur ∷ argv) f = noted argv (note cur f)

pub length-kept : (argv : List Bytes) → length (kept argv) ≤ length argv
length-kept [] = omega arith
length-kept (cur ∷ argv) = ground (arith, length-kept argv)

-- The loop over argv stores the arguments that are not left out, in their order.
pub copy_arguments-kept :
    (argv : List Bytes) (f : Flags) (n : ℕ) (stored : List Bytes) (h : Heap)
    → length stored + length argv ≤ n
    → copy_arguments argv f (array n stored) h
      ≡ done (noted argv f, array n (stored ++ kept argv)) h
unfolding copy_arguments
copy_arguments-kept [] f n stored h room = rw append-nil
copy_arguments-kept (cur ∷ argv) f n stored h room = elim (Bool-cases (is_dropped cur)) [
  | inl drops ↦
      rw (drops, copy_arguments) (copy_arguments-kept argv (note cur f) n stored h (omega arith))
  | inr keeps ↦ rw (
    keeps,
    copy_arguments,
    push-array cur n stored h (omega arith),
    copy_arguments-kept argv (note cur f) n (stored ++ cur ∷ []) h
        (omega (arith, length-append stored (cur ∷ []))),
    append_assoc stored (cur ∷ []) (kept argv),
  )
]

length-when : (test : Bool) (params : List Bytes) → length (when test params) ≤ length params
length-when true params = omega arith
length-when false params = omega arith

pub length-harden_flags : (world : World) (f : Flags) → length (harden_flags world f) ≤ 2
unfolding harden_flags
length-harden_flags world f = omega (
  arith,
  length-when (is_set world (codes "AFL_HARDEN"))
      (codes "-fstack-protector-all" ∷ when (not f.fortify_set) (codes "-D_FORTIFY_SOURCE=2" ∷ [])),
  length-when (not f.fortify_set) (codes "-D_FORTIFY_SOURCE=2" ∷ []),
)

-- Three optional parts with three flags between them.
length-parts :
    (a b c : Bool) (xs ys zs : List Bytes) (x y z : Bytes)
    → length (when a xs ++ (when b ys ++ (x ∷ y ∷ z ∷ when c zs)))
      ≤ length xs + length ys + length zs + 3
length-parts a b c xs ys zs x y z = omega (
  arith,
  length-append (when a xs) (when b ys ++ (x ∷ y ∷ z ∷ when c zs)),
  length-append (when b ys) (x ∷ y ∷ z ∷ when c zs),
  length-when a xs,
  length-when b ys,
  length-when c zs,
)

pub length-common_flags : (world : World) (f : Flags) → length (common_flags world f) ≤ 13
unfolding common_flags
length-common_flags world f =
    length-parts (not (is_set world (codes "AFL_DONT_OPTIMIZE")))
      (is_set world (codes "AFL_NO_BUILTIN")) f.x_set _ _ _ _ _ _

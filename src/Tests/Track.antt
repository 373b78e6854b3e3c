-- ===== src/Tests/Track.antt =====
-- The allocation tracking of a debug build, on a heap with two places.
use co_fuzz.Prelude.{ℕ, ◌≡◌, ◌≢◌, ◌↔◌, refl, [], ◌∷◌, inl, inr, arith}
use co_fuzz.Alloc.Heap.{null}
use co_fuzz.Alloc.Dfl.{
  ck_alloc, ck_alloc_nozero, new_block, ck_realloc_block, ck_realloc, realloc_check, realloc_copy,
  clobber, ck_free,
}
use co_fuzz.Alloc.Check.{
  alloc_check_size, alloc_check_result, stamp, check_ptr, check_head, check_tail,
}
use co_fuzz.Alloc.Libc.{malloc, free}
use co_fuzz.Alloc.Heap.{set_head, poke, set_size, set_tail, peek, set_byte, write_bytes, read_bytes}
use co_fuzz.Alloc.Track.{
  Site, Tracker, Out, done, died, undefined, alloc_buckets, trk_free_buf, trk_report,
}
use co_fuzz.Alloc.Track.Drop.{Drops, trk_free_buf-Drops}
use co_fuzz.Alloc.Track.Steps.{weaken}
use co_fuzz.Alloc.Track.Report.{leaks}
use co_fuzz.Alloc.Track.Program.{
  alloc, release, call, Runs, start, after, held, no_table, no_table-Sound, Runs-Kept, Runs-report,
}
use co_fuzz.Tests.Sample.{two_places, no_blocks}

abbrev site : Site
site = record { file = b'a' ∷ []; func = b'f' ∷ []; line = 3 }

abbrev table_of : Out ℕ → Tracker
table_of (done p t) = t
table_of (died why) = no_table no_blocks
table_of undefined = no_table no_blocks

-- Three bytes are allocated, at 24, and freed.
one_buffer : Tracker
unfolding call
one_buffer = table_of (call two_places (alloc 3) site (no_table no_blocks))

no_buffer : Tracker
unfolding call one_buffer
no_buffer = table_of (call two_places (release 24) site one_buffer)

allocating : Runs two_places (no_table no_blocks) one_buffer
unfolding one_buffer call ck_alloc ck_alloc_nozero new_block ck_realloc_block ck_realloc
    realloc_check realloc_copy clobber ck_free alloc_check_size alloc_check_result stamp check_ptr
    check_head check_tail malloc free set_head poke set_size set_tail peek set_byte write_bytes
    read_bytes
allocating = after (start (no_table no_blocks)) (alloc 3) site 24 (inl refl) (omega arith) refl

freeing : Runs two_places (no_table no_blocks) no_buffer
unfolding no_buffer one_buffer call ck_alloc ck_alloc_nozero new_block ck_realloc_block ck_realloc
    realloc_check realloc_copy clobber ck_free alloc_check_size alloc_check_result stamp check_ptr
    check_head check_tail malloc free set_head poke set_size set_tail peek set_byte write_bytes
    read_bytes
freeing = after allocating (release 24) site null (inr (omega arith)) tt refl

Runs-report_example :
    (trk_report no_buffer
      ≡ done tt (record no_buffer { warned = leaks no_buffer.slots alloc_buckets }))
    × ((leaks no_buffer.slots alloc_buckets ≡ [])
        ↔ ((q : ℕ) → q ≢ null → held two_places freeing q ≡ 0))
Runs-report_example = Runs-report two_places no_blocks freeing

trk_free_buf-Drops_example : Drops 24 site one_buffer (trk_free_buf 24 site one_buffer)
trk_free_buf-Drops_example =
    trk_free_buf-Drops one_buffer 24 site
      (weaken 24 (Runs-Kept two_places allocating (no_table-Sound no_blocks) (λ q ne. refl)).sound)

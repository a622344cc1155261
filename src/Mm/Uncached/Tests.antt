-- ===== src/Mm/Uncached/Tests.antt =====
-- The release of a block of two pages.
use evisor.Prelude.{arith, refl, ℕ, ◌%◌, ◌*◌, ◌+◌, ◌<◌, ◌≡◌, ◌≢◌}
use evisor.Prelude.Outcome.{ok, ◌>>=◌}
use evisor.Mm.Uncached.{Region, release, take_pages, search, is_spaces_available, kmm_uncached_free}
use evisor.Mm.Uncached.Release.{release_lem}

-- Pages 0 and 1 are a block.
abbrev one_block : Region
one_block = take_pages 2 2 0 (record { size = λ _. 0; ref_count = λ _. 0 })

-- The second page of the block is still taken after the release, so that the next block of one page
-- starts behind it.
block_not_released : (kmm_uncached_free 0x1000 0x1000 one_block >>= λ r. search r 1 256 0) ≡ ok 2
unfolding kmm_uncached_free release take_pages search is_spaces_available
block_not_released = refl

first_count : one_block.ref_count 0 < 256
unfolding take_pages
first_count = omega arith

release_lem_example :
    ((release 2 0 one_block).ref_count 0 ≡ (one_block.ref_count 0 + 2 * 255) % 256)
    × ((j : ℕ) → 0 ≢ j → (release 2 0 one_block).ref_count j ≡ one_block.ref_count j)
release_lem_example = release_lem 2 0 one_block first_count

-- ===== src/Mm/Uncached/Release.antt =====
-- What the release of a block does to the counts of its pages.
use evisor.Prelude.{
  ==_ne, ==_refl, arith, refl, suc, update, zero, ℕ, ◌%◌, ◌*◌, ◌+◌, ◌<◌, ◌∙◌, ◌≡◌, ◌≢◌,
}
use evisor.Mm.Uncached.{Region, release}

-- Every turn takes one from the count of the first page, and no other page's count changes: of a
-- block of two or more pages all but the first stay taken.
pub release_lem :
    (n i : ℕ) (r : Region)
    → r.ref_count i < 256
    → ((release n i r).ref_count i ≡ (r.ref_count i + n * 255) % 256)
      × ((j : ℕ) → i ≢ j → (release n i r).ref_count j ≡ r.ref_count j)
unfolding release
release_lem zero i r small = (omega arith, λ j ne. refl)
release_lem (suc n) i r small =
    let once : ℕ = (r.ref_count i + 255) % 256 in
    let r' : Region = record { size = update r.size i 0; ref_count = update r.ref_count i once } in
    let here : r'.ref_count i ≡ once = rw (==_refl i) refl in
    let (count, others) = release_lem n i r' (rw here (omega arith)) in
    (count ∙ rw here (omega arith), λ j ne. others j ne ∙ rw (==_ne i j ne) refl)

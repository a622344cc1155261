-- ===== src/Mm/UserHeap/Tests.antt =====
-- The theorems about the guests' memory at concrete heaps.
use evisor.Prelude.{arith, refl, u64_mod, ℕ, ◌*◌, ◌+◌, ◌-◌, ◌==◌, ◌||◌, ◌≡◌, ◌≤◌, ◌⊎◌}
use evisor.Prelude.Outcome.{ok, panic}
use evisor.Mm.UserHeap.{
  UserHeap, page_size, paging_pages, is_free, scan, umm_malloc, umm_free, take_page, give_page,
  page_index,
}
use evisor.Mm.UserHeap.Laws.{
  IsValid, IsPages, AllTaken, Allocated, taken, umm_malloc_fresh, umm_free_lem,
}
use evisor.Mm.UserHeap.Reuse.{here, next, release, umm_malloc_later}

abbrev start : ℕ
start = 0x40000000

fits : start + paging_pages * page_size ≤ u64_mod
fits = omega arith

-- Two pages are left, the last ones.
abbrev two_left : UserHeap
two_left = record { map = λ _. 0; next = 524286 }

abbrev one_left : UserHeap
one_left = record { map = take_page (λ _. 0) 524286; next = 524287 }

-- The page just handed out is free again.
abbrev one_freed : UserHeap
one_freed = record { map = give_page one_left.map 524286; next = 524287 }

abbrev none_left : UserHeap
none_left = record { map = take_page one_freed.map 524287; next = 524288 }

two_left-IsValid : IsValid two_left
two_left-IsValid = record { bytes = λ j. omega arith; in_range = omega arith }

page-IsPages : IsPages 4096
page-IsPages = (omega arith, refl)

block-IsPages : IsPages 8192
block-IsPages = (omega arith, refl)

first_request : umm_malloc start 4096 two_left ≡ ok (start + 524286 * 4096, one_left)
unfolding umm_malloc scan
first_request = refl

block_request : umm_malloc start 8192 two_left ≡ ok (start + 524286 * 4096, one_left)
unfolding umm_malloc scan
block_request = refl

first_release : umm_free start (start + 524286 * page_size) one_left ≡ ok one_freed
unfolding umm_free page_index
first_release = refl

second_request : umm_malloc start 4096 one_freed ≡ ok (start + 524287 * 4096, none_left)
unfolding umm_malloc scan
second_request = refl

umm_malloc_fresh_example :
    ((p : ℕ) × (umm_malloc start 4096 two_left
        ≡ ok (start + p * page_size, taken start fits two_left p))
      × Allocated start fits two_left p)
    ⊎ ((umm_malloc start 4096 two_left ≡ panic)
        × AllTaken (paging_pages - two_left.next) two_left.next two_left.map)
umm_malloc_fresh_example = umm_malloc_fresh start fits 4096 two_left page-IsPages two_left-IsValid

umm_free_lem_run :
    (h : UserHeap) × (umm_free start (start + 7 * page_size) two_left ≡ ok h)
    × ((q : ℕ) → is_free h.map q ≡ (q == 7 || is_free two_left.map q))
    × (h.next ≡ two_left.next)
    × IsValid h
umm_free_lem_run = umm_free_lem start fits 7 two_left (omega arith) two_left-IsValid

umm_malloc_later_example : start + 524286 * 4096 + page_size ≤ start + 524287 * 4096
umm_malloc_later_example =
    umm_malloc_later start fits 4096 4096 (start + 524286 * 4096) (start + 524287 * 4096) two_left
      one_left one_freed none_left page-IsPages page-IsPages two_left-IsValid first_request
      (next here (release 524286 (omega arith) first_release)) second_request

-- ===== src/Mm/KernelHeap/Tests.antt =====
-- The theorems about the hypervisor's heap at concrete maps.
use evisor.Prelude.{Bool, arith, refl, true, update, ℕ, ◌*◌, ◌+◌, ◌==◌, ◌≡◌, ◌⊎◌}
use evisor.Prelude.Outcome.{ok, panic}
use evisor.Mm.KernelHeap.{page_size, heap_pages, first_free, kmm_malloc}
use evisor.Mm.KernelHeap.Laws.{IsFirst, AllTaken, kmm_malloc_fresh}

-- The first page is taken.
abbrev one_taken : ℕ → Bool
one_taken i = i == 0

kmm_malloc_fresh_example :
    ((p : ℕ) × (kmm_malloc 4096 64 one_taken ≡ ok (4096 + p * page_size, update one_taken p true))
      × IsFirst heap_pages 0 one_taken p)
    ⊎ ((kmm_malloc 4096 64 one_taken ≡ panic) × AllTaken heap_pages 0 one_taken)
kmm_malloc_fresh_example = kmm_malloc_fresh 4096 (omega arith) 64 one_taken (omega arith)

second_page : kmm_malloc 4096 64 one_taken ≡ ok (8192, update one_taken 1 true)
unfolding kmm_malloc first_free
second_page = refl

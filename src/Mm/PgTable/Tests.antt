-- ===== src/Mm/PgTable/Tests.antt =====
-- The first page of the first guest mapped, with no table made before.
use evisor.Prelude.{
  List, [], arith, bit_or, false, refl, suc, u64_mod, zero, ℕ, ◌*◌, ◌+◌, ◌∷◌, ◌≡◌, ◌≤◌, ◌⊎◌,
}
use evisor.Prelude.Outcome.{Outcome, ok, panic, fault}
use evisor.Kernel.Task.{MmContext}
use evisor.Mm.KernelHeap.{heap_pages, page_size, kmm_malloc, first_free}
use evisor.Mm.PgTable.{
  Tables, map_page, pte_dram, kmm_zalloc, link_table, create_page_table, first_table, page_mask,
}
use evisor.Mm.PgTable.Forest.{IsForest, translate}
use evisor.Mm.PgTable.Map.{Mapped, AlmostFull, map_page_lem}

abbrev start : ℕ
start = 0x100000

fits : start + heap_pages * page_size ≤ u64_mod
fits = omega arith

abbrev no_tables : Tables
no_tables = record { heap = λ _. false; mem = λ _ _. 0 }

abbrev no_page : MmContext
no_page = record { page_table = 0; pages = 0 }

no_tables-IsForest : IsForest start (λ _. 0) (λ _. 0) no_tables
no_tables-IsForest = record {
  root = λ t e. absurd (clash e);
  child = λ t i up down lt nz. absurd (nz refl);
  held = λ t up. absurd (low up);
}
  where
    clash : zero ≡ suc zero → ⊥
    clash e = omega arith

    low : 1 ≤ 0 → ⊥
    low h = omega arith

map_page_lem_example :
    ((slot : ℕ) × (mm' : MmContext) × (s' : Tables) × (map_page start no_page 0x80201000 0x40000000
          pte_dram no_tables
        ≡ ok (slot, mm', s'))
      × Mapped start
          (λ _. 0)
          (λ _. 0)
          no_tables
          no_page
          0x80201000
          (bit_or 0x40000000 pte_dram)
          mm'
          s')
    ⊎ ((map_page start no_page 0x80201000 0x40000000 pte_dram no_tables ≡ panic)
        × AlmostFull no_tables.heap)
map_page_lem_example =
    map_page_lem start fits refl (λ _. 0) (λ _. 0) no_tables no_page 0x80201000 0x40000000 pte_dram
      (omega arith) no_tables-IsForest (λ nz. absurd (nz refl))

-- The entries that lead to the page, in the three pages taken.
abbrev walk_of : Outcome (ℕ × MmContext × Tables) → List ℕ
walk_of (ok (slot, mm, s)) =
    slot
    ∷ mm.page_table
    ∷ s.mem mm.page_table 2
    ∷ s.mem (page_mask (s.mem mm.page_table 2)) 1
    ∷ translate s.mem mm.page_table 0x80201fff
    ∷ translate s.mem mm.page_table 0x80202000
    ∷ []
walk_of panic = []
walk_of fault = []

first_page_run :
    walk_of (map_page start no_page 0x80201000 0x40000000 pte_dram no_tables)
    ≡ (0x102008 ∷ 0x100000 ∷ 0x101003 ∷ 0x102003 ∷ 0x400007ff ∷ 0 ∷ [])
unfolding map_page first_table create_page_table link_table kmm_zalloc kmm_malloc first_free
first_page_run = refl

-- ===== src/Arch/Mmu/Tests.antt =====
-- The theorems about the tables of the hypervisor at small regions.
use evisor.Prelude.{arith, if◌then◌else◌, inl, ℕ, ◌*◌, ◌+◌, ◌-◌, ◌<◌, ◌==◌, ◌≡◌, ◌≢◌, ◌≤◌, ◌⊎◌}
use evisor.Prelude.Outcome.{ok}
use evisor.Arch.Mmu.{MmuMapRegion, Tables, init_xlat_tables, split_pte_block_desc}
use evisor.Arch.Mmu.Finish.{Ends, init_xlat_tables_total}
use evisor.Arch.Mmu.Split.{split_pte_block_desc-resolve}
use evisor.Arch.Mmu.Walk.{resolve}

-- A block of level 1 at 0x1008, for the second GiB.
abbrev tables : Tables
tables = record { mem = λ a. if a == 0x1008 then 0x40000711 else 0; idx = 2 }

split_pte_block_desc-resolve_example :
    (t' : Tables) × (split_pte_block_desc 0x1000 0x2000 0x1008 1 tables ≡ ok t')
    × (t'.idx ≡ 2 + 1)
    × ((va : ℕ)
        → resolve (3 - 1) t'.mem (t'.mem 0x1008) va ≡ resolve (3 - 1) tables.mem 0x40000711 va)
    × ((a : ℕ)
        → 0x1008 ≢ a
        → (a < 0x2000 + 2 * 4096) ⊎ (0x2000 + 2 * 4096 + 4096 ≤ a)
        → t'.mem a ≡ tables.mem a)
split_pte_block_desc-resolve_example =
    split_pte_block_desc-resolve 0x1000 0x2000 0x1008 1 tables
      (record { is_block = omega arith; whole = inl (omega arith, omega arith) }) (omega arith)
      (omega arith) (omega arith) (inl (omega arith))

abbrev region : MmuMapRegion
region = record { base_pa = 0x40000000; base_va = 0x40000000; size = 0x201000; attrs = 0xc }

init_xlat_tables_total_example : Ends (init_xlat_tables 0x1000 0x2000 2055 region tables)
init_xlat_tables_total_example =
    init_xlat_tables_total 0x1000 0x2000 2055 region tables (omega arith) (omega arith)

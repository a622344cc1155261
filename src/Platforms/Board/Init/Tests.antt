-- ===== src/Platforms/Board/Init/Tests.antt =====
-- The devices of the first guest.
use evisor.Prelude.{arith, false, refl, suc, u64_mod, zero, ℕ, ◌*◌, ◌+◌, ◌≡◌, ◌≤◌}
use evisor.Prelude.Outcome.{ok}
use evisor.Kernel.Task.{MmContext}
use evisor.Mm.KernelHeap.{heap_pages, page_size}
use evisor.Mm.PgTable.{Tables}
use evisor.Mm.PgTable.Forest.{IsForest, empty-IsForest, translate}
use evisor.Mm.PgTable.Room.{free_pages-none}
use evisor.Mm.PgTable.Map.{page_number}
use evisor.Platforms.Board.{qemu}
use evisor.Platforms.Board.Init.{init}
use evisor.Platforms.Board.Init.Devices.{guest_space, init_lem}

abbrev start : ℕ
start = 0x100000

fits : start + heap_pages * page_size ≤ u64_mod
fits = omega arith

abbrev no_tables : Tables
no_tables = record { heap = λ _. false; mem = λ _ _. 0 }

abbrev no_page : MmContext
no_page = record { page_table = 0; pages = 0 }

init_lem_example :
    (mm' : MmContext) × (s' : Tables) × (init start qemu no_page no_tables ≡ ok (mm', s'))
    × (level' : ℕ → ℕ) × (key' : ℕ → ℕ) × IsForest start level' key' s'
    × (level' mm'.page_table ≡ 1)
    × ((ipa : ℕ) → translate s'.mem mm'.page_table ipa ≡ guest_space qemu (page_number ipa))
    × ((r ipa : ℕ) → zero ≡ suc zero → translate s'.mem r ipa ≡ 0)
init_lem_example =
    init_lem start (omega arith) fits refl qemu (λ _. 0) (λ _. 0) no_tables no_page refl
      (empty-IsForest start no_tables) (omega (arith, free_pages-none heap_pages))

-- ===== src/Fs/Loader/Tests.antt =====
-- An image of eleven sectors.
use evisor.Prelude.{
  ==_ne, arith, false, if◌then◌else◌, refl, some, sym, true, u64_mod, ℕ, ◌%◌, ◌*◌, ◌+◌, ◌==◌, ◌^◌,
  ◌≡◌, ◌≤◌,
}
use evisor.Prelude.Digits.{zero-bit_and}
use evisor.Prelude.Outcome.{ok}
use evisor.Kernel.Task.{Tcb}
use evisor.Kernel.Sched.{init_task}
use evisor.Mm.KernelHeap.{heap_pages}
use evisor.Mm.UserHeap.{page_size, paging_pages}
use evisor.Mm.PgTable.Room.{free_pages-none, room-one}
use evisor.Mm.Fault.{Memory}
use evisor.Mm.Fault.Given.{HasRoom}
use evisor.Mm.Fault.Isolation.{dram_entry-nonzero}
use evisor.Mm.Fault.Served.{IsSound}
use evisor.Drivers.VirtioBlk.{Regs, Shared}
use evisor.Drivers.VirtioBlk.Disk.{Disk, disk, serve, serve-Serves}
use evisor.Fs.Loader.{Loading, loader_load_file}
use evisor.Fs.Loader.Image.{loader_load_file-IsLoaded}
use evisor.Fs.Loader.Page.{IsLoaded}

abbrev regs : Regs
regs = record {
  magic_value = 0x74726976;
  version = 1;
  device_id = 2;
  queue_sel = 0;
  queue_num = 16;
  queue_align = 4096;
  queue_pfn = 0x3000;
  queue_ready = 1;
  device_status = 15;
  device_config_space0 = 11;
}

abbrev shared : Shared
shared = record {
  virtq = record {
    descs = λ _. record { addr = 0; len = 0; flags = 0; next = 0 };
    avail_index = 65534;
    avail_ring = λ _. 7;
    used_index = 65534;
    blk_req = 0x5000;
    last_used_index = 65534;
  };
  mem = λ a. a % 2 ^ 8;
}

abbrev image : Disk
image sector offset = (sector + offset) % 2 ^ 8

abbrev start : ℕ
start = 0x100000

abbrev user_start : ℕ
user_start = 0x40000000

fits : start + heap_pages * page_size ≤ user_start
fits = omega arith

user_fits : user_start + paging_pages * page_size ≤ u64_mod
user_fits = omega arith

-- A guest with one table, which is empty, in the first page of the heap.
abbrev guest : Tcb
guest = record (init_task (record { regs = λ _. 0; sp = 0; pc = 0; pstate = 0 })) {
  mm = record { page_table = start; pages = 0 };
}

abbrev memory : Memory
memory = record {
  user = record { map = λ _. 0; next = 0 };
  tables = record { heap = λ p. p == 0; mem = λ _ _. 0 };
}

abbrev level : ℕ → ℕ
level t = if t == start then 1 else 0

only_root : (t : ℕ) → 1 ≤ level t → t ≡ start
only_root t up = ground arith

memory-IsSound : IsSound start user_start level (λ t. t) memory
memory-IsSound = record {
  forest = record {
    root = λ t e. refl;
    child = λ t i up down lt nz. absurd (nz refl);
    held = λ t up. (0, omega arith, only_root t up, refl);
  };
  user = record { bytes = λ j. omega arith; in_range = omega arith };
  isolated = record {
    marked = λ r a p (root, lt, e). absurd (dram_entry-nonzero user_start p refl (sym e));
    apart = λ r a r' b p (root, lt, e) other. absurd (dram_entry-nonzero user_start p refl (sym e));
  };
}

memory-HasRoom : HasRoom 2 memory
memory-HasRoom = record {
  unused = λ j from lt. rw (zero-bit_and (2 ^ (j % 8))) refl;
  pages = omega arith;
  tables = omega (
    arith,
    free_pages-none heap_pages,
    room-one 0 (λ _. false) memory.tables.heap (λ q ne. ==_ne q 0 ne),
  );
}

abbrev loading : Loading Disk
loading = record { tsk = guest; memory = memory; device = (image, shared) }

loader_load_file-IsLoaded_example :
    (l' : Loading Disk) × (loader_load_file serve regs start user_start 3 0x40000123 loading
      ≡ some (ok (true, l')))
    × IsLoaded disk start user_start level 2 0x40000000
        (record { remains = 11; offset = 0 })
        loading
        l'
loader_load_file-IsLoaded_example =
    loader_load_file-IsLoaded disk start user_start serve 11 (serve-Serves 11) regs (omega arith)
      fits user_fits refl refl 2 3 0x40000123 loading level (λ t. t) refl (omega arith)
      (omega arith) memory-HasRoom memory-IsSound refl
      (record { small_index = omega arith; done = refl }) (omega arith) (omega arith)

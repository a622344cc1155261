-- ===== src/Fs/Loader.antt =====
-- src/fs/loader.cc as it is built for QEMU, and LoadTaskImage of
-- src/kernel/sched/sched_create_task.cc: how the image of a guest gets into its pages. The bytes of
-- those pages are in the memory that the driver of the disk shares with the device. The name of the
-- task and the log are left out.
pub mod Sector
pub mod Page
pub mod Image
mod Tests
use evisor.Prelude.{
  Bool, Option, false, if◌then◌else◌, none, some, suc, true, u32_mod, u64_mod, zero, ℕ, ◌%◌, ◌+◌,
  ◌-◌, ◌/◌, ◌==◌,
}
use evisor.Prelude.Outcome.{Outcome, ok, panic, fault, ◌>>=◌}
use evisor.Common.Cstring.{memzero}
use evisor.Kernel.Task.{Tcb}
use evisor.Kernel.Sched.{get_current_task}
use evisor.Kernel.Vm.{Machine, run_vcpu}
use evisor.Mm.Fault.{Memory, page_map}
use evisor.Mm.KernelHeap.{page_size}
use evisor.Mm.PgTable.{page_mask}
use evisor.Drivers.VirtioBlk.{Regs, Shared, disk_sector_size, get_disk_capacity, read_disk}

-- `LoaderVcpuConfig`, without the name of the file, which is not used under QEMU.
pub record LoaderVcpuConfig : Type 0 where
  pub file_load_va : ℕ
  pub pc : ℕ
  pub sp : ℕ

-- `sector_remains` and `sector_offset`
pub record Sectors : Type 0 where
  pub remains : ℕ
  pub offset : ℕ

-- What the loader changes: the task and its pages, the disk, and the memory.
pub record Loading (D : Type 0) : Type 0 where
  pub tsk : Tcb
  pub memory : Memory
  pub device : D × Shared

abbrev pub next_sector : Sectors → Sectors
next_sector c = record { remains = c.remains - 1; offset = (c.offset + 1) % u32_mod }

-- The bytes of a page that `PageMap` cleared.
abbrev pub wiped : {D : Type 0} → ℕ → D × Shared → D × Shared
wiped page (d, s) = (d, record s { mem = memzero page page_size s.mem })

-- `regs->pstate` as `LoadTaskImage` sets it: EL1h with all interrupts masked.
abbrev pub spsr_el1h : ℕ
spsr_el1h = 0x3c5

abbrev pub with_pstate : Tcb → Tcb
with_pstate t = record t { vcpu = record t.vcpu { pstate = spsr_el1h } }

abbrev pub with_entry : Tcb → ℕ → ℕ → Tcb
with_entry t pc sp = record t { vcpu = record t.vcpu { pc = pc; sp = sp } }

-- The end of `LoadTaskImage`: without an image it stops in PANIC.
abbrev pub start_vcpu :
    {D : Type 0} → Machine → Option (ℕ × ℕ) × Loading D → Outcome (Machine × Loading D)
start_vcpu m (none, l) = panic
start_vcpu m (some (pc, sp), l) = ok (run_vcpu (with_entry l.tsk pc sp) m, l)

module _ {D : Type 0} (notify : D → Shared → D × Shared) (r : Regs) where
  -- The loop over the sectors of a page, with `n` turns to go; none where the driver waits for ever.
  unfoldable pub load_sectors :
      ℕ → ℕ → Sectors → D × Shared → Option (Bool × (Sectors × (D × Shared)))
  load_sectors zero buf c st = some (true, (c, st))
  load_sectors (suc n) buf c st =
      if c.remains == 0 then some (true, (c, st)) else elim (read_disk notify r buf c.offset st) [
        | none ↦ none
        | some (done, st') ↦ elim done [
          | false ↦ some (false, (c, st'))
          | true ↦ load_sectors n (buf + disk_sector_size) (next_sector c) st'
        ]
      ]

  module _ (start user_start : ℕ) where
    -- The loop over the pages: none also where the fuel runs out.
    unfoldable pub load_pages : ℕ → ℕ → Sectors → Loading D → Option (Outcome (Bool × Loading D))
    load_pages zero cur c l = none
    load_pages (suc fuel) cur c l =
        if c.remains == 0
        then some (ok (true, l))
        else elim (page_map start user_start l.tsk cur l.memory) [
          | fault ↦ some fault
          | panic ↦ some panic
          | ok (page, tsk, memory) ↦
              elim (load_sectors (page_size / disk_sector_size) page c (wiped page l.device)) [
                | none ↦ none
                | some (done, (c', st)) ↦
                    let l' : Loading D = record { tsk = tsk; memory = memory; device = st } in
                    elim done [
                      | false ↦ some (ok (false, l'))
                      | true ↦ load_pages fuel ((cur + page_size) % u64_mod) c' l'
                    ]
              ]
        ]

    -- `LoaderLoadFile`, once the driver is initialised
    abbrev pub loader_load_file : ℕ → ℕ → Loading D → Option (Outcome (Bool × Loading D))
    loader_load_file fuel va l =
        load_pages fuel (page_mask va)
          (record { remains = get_disk_capacity r / disk_sector_size; offset = 0 }) l

    -- `LoaderLoadVcpu`: the entry point and the stack pointer, if the image was loaded.
    unfoldable pub loader_load_vcpu :
        ℕ → LoaderVcpuConfig → Loading D → Option (Outcome (Option (ℕ × ℕ) × Loading D))
    loader_load_vcpu fuel cfg l = elim (loader_load_file fuel cfg.file_load_va l) [
      | none ↦ none
      | some result ↦
          some (result >>= λ (done, l'). ok (if done then some (cfg.pc, cfg.sp) else none, l'))
    ]

    -- `LoadTaskImage` with that loader, for the current task
    unfoldable pub load_task_image :
        ℕ
        → LoaderVcpuConfig
        → Memory
        → D × Shared
        → Machine
        → Option (Outcome (Machine × Loading D))
    load_task_image fuel cfg memory device m = elim (get_current_task m.sched) [
      | none ↦ some fault
      | some t ↦
          let l : Loading D = record { tsk = with_pstate t; memory = memory; device = device } in
          elim (loader_load_vcpu fuel cfg l) [
            | none ↦ none
            | some result ↦ some (result >>= start_vcpu m)
          ]
    ]

-- ===== src/Mm/Fault.antt =====
-- src/mm/kmm_trap.cc, src/mm/pgtable_stage1.cc and src/mm/user_heap/umm_zalloc.cc: a fault of a guest
-- on an address that has no page yet. The memory is the heap of the guests' pages and the tables,
-- whose `mem` also gives the words of the guests' pages.
pub mod Isolation
pub mod Served
pub mod Given
mod Tests
use evisor.Prelude.{
  ==_iff, ==_ne, ==_refl, All, All-append, All-get, All-map, All-set, Bool, Bool-cases, List,
  Option, Option-cases, [], ap, append-nil, append_assoc, ap₂, arith, bit_and, bit_or, dec_le,
  dec_lt, false, fun_ext, get_elem?, get_elem?-lt, get_elem?-set_ne, get_elem?-set_self,
  get_elem?-some, if◌then◌else◌, inl, inr, leb, leb→le, length, length-append, length-map,
  length-replicate, length-set, ltb, ltb→lt, lt→ltb, map, none, not, refl, replicate, set, some,
  subst, suc, sym, take, true, u16_mod, u32_mod, u64_mod, u8_mod, update, zero, ℕ, ℕ_discrete, ◌%◌,
  ◌&&◌, ◌*◌, ◌++◌, ◌+◌, ◌-◌, ◌/◌, ◌<◌, ◌==◌, ◌^◌, ◌||◌, ◌↔◌, ◌∙◌, ◌∷◌, ◌≡◌, ◌≢◌, ◌≤◌, ◌⊎◌,
}
use evisor.Prelude.Outcome.{Outcome, ok, panic, fault, ◌>>=◌}
use evisor.Kernel.Task.{MmContext, TaskStat, Tcb}
use evisor.Mm.UserHeap.{UserHeap, page_size, umm_malloc, umm_free}
use evisor.Mm.PgTable.{Tables, map_new_page, map_page_accessible}

pub record Memory : Type 0 where
  pub user : UserHeap
  pub tables : Tables

module _ (start user_start : ℕ) where
  -- `PageAllocate`, which is `umm_zalloc(PAGE_SIZE)`
  unfoldable pub page_allocate : Memory → Outcome (ℕ × Memory)
  page_allocate m = umm_malloc user_start page_size m.user >>= λ (page, user). ok (
    page,
    record {
      user = user;
      tables =
          if page == 0
          then m.tables
          else record m.tables { mem = update m.tables.mem page (λ _. 0) };
    },
  )

  -- `PageDeallocate`
  abbrev pub page_deallocate : ℕ → Memory → Outcome Memory
  page_deallocate page m = umm_free user_start page m.user >>= λ user. ok (record m { user = user })

  -- `PageMap`
  unfoldable pub page_map : Tcb → ℕ → Memory → Outcome (ℕ × Tcb × Memory)
  page_map tsk ipa m = do
    (page, m1) ← page_allocate m
    (slot, mm, tables) ← map_page_accessible start tsk.mm ipa page m1.tables
    ok (page, record tsk { mm = mm }, record m1 { tables = tables })

  -- The rest of `HandleMmTrapMemoryAccessFault`, for a page that was found.
  unfoldable pub give_new_page : Tcb → ℕ → ℕ → Memory → Outcome (Bool × Tcb × Memory)
  give_new_page tsk addr page m =
      map_new_page start tsk.mm addr page m.tables >>= λ (slot, mm, tables). ok (
        true,
        record tsk {
          mm = mm;
          stat = record tsk.stat { page_faults = (tsk.stat.page_faults + 1) % u64_mod };
        },
        record m { tables = tables },
      )

  -- `HandleMmTrapMemoryAccessFault`, for the current task
  unfoldable pub handle_mm_trap_memory_access_fault :
      Tcb → ℕ → Memory → Outcome (Bool × Tcb × Memory)
  handle_mm_trap_memory_access_fault tsk addr m = page_allocate m >>= λ (page, m1).
      if page == 0 then ok (false, tsk, m1) else give_new_page tsk addr page m1

-- ===== src/Mm/Fault/Served.antt =====
-- What HandleMmTrapMemoryAccessFault does: the guest gets a page of its own, or the hypervisor stops.
use evisor.Prelude.{
  ==_ne, ap, arith, false, inl, inr, refl, sym, true, u64_mod, update, ℕ, ℕ_discrete, ◌%◌, ◌*◌, ◌+◌,
  ◌-◌, ◌<◌, ◌==◌, ◌∙◌, ◌≡◌, ◌≢◌, ◌≤◌, ◌⊎◌,
}
use evisor.Prelude.Outcome.{ok, panic}
use evisor.Kernel.Task.{MmContext, Tcb}
use evisor.Mm.KernelHeap.{heap_pages}
use evisor.Mm.UserHeap.{UserHeap, page_size, paging_pages, is_free}
use evisor.Mm.UserHeap.Laws.{IsValid, AllTaken, Allocated, taken, umm_malloc_fresh}
use evisor.Mm.PgTable.{Tables, page_mask, table_index, lv1_shift, lv2_shift, page_shift, pte_dram}
use evisor.Mm.PgTable.Forest.{IsForest, translate}
use evisor.Mm.PgTable.Extend.{cleared-walks}
use evisor.Mm.PgTable.Map.{
  Mapped, page_number, map_page_lem, AlmostFull, translate_page, page_number-page_mask,
}
use evisor.Mm.Fault.{Memory, page_allocate, give_new_page, handle_mm_trap_memory_access_fault}
use evisor.Mm.Fault.Isolation.{IsIsolated, dram_entry, give-IsIsolated, Maps}

-- The state of the memory of all guests that every fault keeps.
pub record IsSound (start user_start : ℕ) (level key : ℕ → ℕ) (m : Memory) : Type 0 where
  pub forest : IsForest start level key m.tables
  pub user : IsValid m.user
  pub isolated : IsIsolated user_start level m.user m.tables.mem

-- A fault that was served: the guest finds a page at the address that was free, and every other
-- page of it and of the other guests is where it was.
pub record Served (start user_start : ℕ) (level : ℕ → ℕ) (tsk : Tcb) (addr : ℕ) (m : Memory)
    (tsk' : Tcb) (m' : Memory) : Type 0 where
  pub level' : ℕ → ℕ
  pub key' : ℕ → ℕ
  pub sound : IsSound start user_start level' key' m'
  pub page : ℕ
  pub free : is_free m.user.map page ≡ true
  pub here : Maps user_start level' m'.tables.mem tsk'.mm.page_table addr page
  pub elsewhere :
      (r other : ℕ)
      → level r ≡ 1
      → (r ≡ tsk'.mm.page_table → page_number other ≢ page_number addr)
      → translate m'.tables.mem r other ≡ translate m.tables.mem r other
  pub same_root : tsk.mm.page_table ≢ 0 → tsk'.mm.page_table ≡ tsk.mm.page_table
  pub counted : tsk'.stat.page_faults ≡ (tsk.stat.page_faults + 1) % u64_mod

module _ (start user_start : ℕ) (positive : 0 < start)
    (fits : start + heap_pages * page_size ≤ user_start)
    (user_fits : user_start + paging_pages * page_size ≤ u64_mod) (aligned : start % 4096 ≡ 0)
    (user_aligned : user_start % 4096 ≡ 0) where
  -- A page of the guests is no table.
  pub user_page :
      (level key : ℕ → ℕ) (s : Tables) (n : ℕ)
      → user_start ≤ n
      → IsForest start level key s
      → level n ≡ 0
  user_page level key s n le f = elim (ℕ_discrete (level n) 0) [
    | yes z ↦ z
    | no nz ↦ let (p, lt, e, taken) = f.held n (omega arith) in absurd (outside p lt e)
  ]
    where
      outside : (p : ℕ) → p < heap_pages → n ≡ start + p * 4096 → ⊥
      outside p lt e = omega arith

  pub wiped-IsForest :
      (level key : ℕ → ℕ) (s : Tables) (n : ℕ)
      → level n ≡ 0
      → IsForest start level key s
      → IsForest start level key (record s { mem = update s.mem n (λ _. 0) })
  wiped-IsForest level key s n z f = record {
    root = f.root;
    child = λ t i up down small nz.
        let ne : (n == t) ≡ false = ==_ne n t (λ q. absurd (clash t up (sym (ap level q) ∙ z))) in
        rw ne (f.child t i up down small (rw ne at nz));
    held = f.held;
  }
    where
      clash : (t : ℕ) → 1 ≤ level t → level t ≡ 0 → ⊥
      clash t up e = omega arith

  wiped_same :
      (level key : ℕ → ℕ) (s : Tables) (n : ℕ)
      → level n ≡ 0
      → IsForest start level key s
      → (r a : ℕ) → level r ≡ 1
      → translate (update s.mem n (λ _. 0)) r a ≡ translate s.mem r a
  wiped_same level key s n z f r a root =
      cleared-walks start (omega arith) aligned level key s n r (table_index a lv1_shift)
        (table_index a lv2_shift) (table_index a page_shift) f z root (omega arith) (omega arith)

  wiped-IsIsolated :
      (level key : ℕ → ℕ) (user : UserHeap) (s : Tables) (n : ℕ)
      → level n ≡ 0
      → IsForest start level key s
      → IsIsolated user_start level user s.mem
      → IsIsolated user_start level user (update s.mem n (λ _. 0))
  wiped-IsIsolated level key user s n z f i = record {
    marked = λ r a p (root, lt, e).
        i.marked r a p (root, lt, sym (wiped_same level key s n z f r a root) ∙ e);
    apart = λ r a r' b p (root, lt, e) (root', lt', e').
        i.apart r a r' b p (root, lt, sym (wiped_same level key s n z f r a root) ∙ e)
          (root', lt', sym (wiped_same level key s n z f r' b root') ∙ e');
  }

  pub served_lem :
      (level key : ℕ → ℕ) (tsk : Tcb) (addr : ℕ) (m : Memory) (p : ℕ) (mm' : MmContext)
      (s' : Tables)
      → IsSound start user_start level key m
      → (tsk.mm.page_table ≢ 0 → level tsk.mm.page_table ≡ 1)
      → Allocated user_start user_fits m.user p
      → Mapped start level key
          (record m.tables { mem = update m.tables.mem (user_start + p * page_size) (λ _. 0) })
          tsk.mm
          (page_mask addr)
          (dram_entry user_start p)
          mm'
          s'
      → (v : Served start user_start level tsk addr m
          (record tsk {
            mm = mm';
            stat = record tsk.stat { page_faults = (tsk.stat.page_faults + 1) % u64_mod };
          })
          (record { user = taken user_start user_fits m.user p; tables = s' }))
        × (v.page ≡ p)
        × ((u : ℕ) → 1 ≤ level u → v.level' u ≡ level u)
  served_lem level key tsk addr m p mm' s' v one a mapped =
      let n = user_start + p * page_size in
      let s = record m.tables { mem = update m.tables.mem n (λ _. 0) } in
      let z : level n ≡ 0 = user_page level key m.tables n (omega arith) v.forest in
      let masked = page_number-page_mask addr in
      (
        record {
          level' = mapped.level';
          key' = mapped.key';
          sound = record {
            forest = mapped.forest;
            user = a.valid;
            isolated =
                give-IsIsolated start user_start user_aligned level key m.user s s' tsk.mm mm'
                  (page_mask addr) p (taken user_start user_fits m.user p).map (p + 1) mapped one
                  a.first.free a.marked
                  (wiped-IsIsolated level key m.user m.tables n z v.forest v.isolated);
          };
          page = p;
          free = a.first.free;
          here = (
            mapped.root,
            omega (arith, a.first, v.user),
            translate_page s'.mem mm'.page_table addr (page_mask addr) (sym masked) ∙ mapped.here,
          );
          elsewhere = λ r other root apart.
              mapped.elsewhere r other root (λ q e. apart q (e ∙ masked))
              ∙ wiped_same level key m.tables n z v.forest r other root;
          same_root = mapped.same_root;
          counted = refl;
        },
        refl,
        mapped.kept,
      )

  -- From a sound state a fault is served, and leaves a sound state, or the hypervisor stops in PANIC:
  -- then no page of the guests is free from `nextFreeSpaceIndex` on, or at most two of its own are.
  pub fault_lem :
      (level key : ℕ → ℕ) (tsk : Tcb) (addr : ℕ) (m : Memory)
      → IsSound start user_start level key m
      → (tsk.mm.page_table ≢ 0 → level tsk.mm.page_table ≡ 1)
      → ((tsk' : Tcb) × (m' : Memory) × (handle_mm_trap_memory_access_fault start user_start tsk
              addr m
            ≡ ok (true, tsk', m'))
          × Served start user_start level tsk addr m tsk' m')
        ⊎ ((handle_mm_trap_memory_access_fault start user_start tsk addr m ≡ panic)
            × (AllTaken (paging_pages - m.user.next) m.user.next m.user.map
                ⊎ AlmostFull m.tables.heap))
  unfolding handle_mm_trap_memory_access_fault page_allocate give_new_page
  fault_lem level key tsk addr m v one =
      elim (umm_malloc_fresh user_start user_fits page_size m.user (omega arith, refl) v.user) [
        | inr (e, all) ↦ inr (rw e refl, inl all)
        | inl (p, e, a) ↦
            let n = user_start + p * page_size in
            let some_page : (n == 0) ≡ false = ==_ne n 0 (omega arith) in
            let z : level n ≡ 0 = user_page level key m.tables n (omega arith) v.forest in
            let s = record m.tables { mem = update m.tables.mem n (λ _. 0) } in
            let f = wiped-IsForest level key m.tables n z v.forest in
            elim (map_page_lem start (omega arith) aligned level key s tsk.mm (page_mask addr) n
              pte_dram positive f one) [
                | inr (e', full) ↦ inr (rw e (rw (some_page, e') refl), inr full)
                | inl (slot, mm', s', e', mapped) ↦ inl (
                  record tsk {
                    mm = mm';
                    stat = record tsk.stat { page_faults = (tsk.stat.page_faults + 1) % u64_mod };
                  },
                  record { user = taken user_start user_fits m.user p; tables = s' },
                  rw e (rw (some_page, e') refl),
                  (served_lem level key tsk addr m p mm' s' v one a mapped).0,
                )
              ]
      ]

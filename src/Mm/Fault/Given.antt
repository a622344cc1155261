-- ===== src/Mm/Fault/Given.antt =====
-- src/mm/pgtable_stage1.cc: what PageMap gives a guest while there is room.
use evisor.Prelude.{
  ==_ne, ap, subst, arith, false, inl, inr, refl, sym, true, u64_mod, update, ℕ, ℕ_discrete, ◌%◌,
  ◌*◌, ◌+◌, ◌<◌, ◌==◌, ◌∙◌, ◌≡◌, ◌≢◌, ◌≤◌,
}
use evisor.Prelude.Outcome.{ok}
use evisor.Kernel.Task.{MmContext, Tcb}
use evisor.Mm.KernelHeap.{heap_pages}
use evisor.Mm.UserHeap.{page_size, paging_pages, is_free}
use evisor.Mm.UserHeap.Laws.{taken, umm_malloc_fresh}
use evisor.Mm.PgTable.{Tables, map_page, page_mask, pte_dram}
use evisor.Mm.PgTable.Map.{map_page_lem}
use evisor.Mm.PgTable.Room.{free_pages, room-full}
use evisor.Mm.Fault.{Memory, page_allocate, page_map}
use evisor.Mm.Fault.Served.{IsSound, Served, served_lem, user_page, wiped-IsForest}

-- From `nextFreeSpaceIndex` on no page of the guests was taken, `n` are there, and the heap of the
-- hypervisor has three pages for each of them.
pub record HasRoom (n : ℕ) (m : Memory) : Type 0 where
  pub unused : (j : ℕ) → m.user.next ≤ j → j < paging_pages → is_free m.user.map j ≡ true
  pub pages : m.user.next + n ≤ paging_pages
  pub tables : 3 * n ≤ free_pages heap_pages m.tables.heap

-- The task as the handler of a fault would leave it.
abbrev pub faulted : Tcb → MmContext → Tcb
faulted tsk mm = record tsk {
  mm = mm;
  stat = record tsk.stat { page_faults = (tsk.stat.page_faults + 1) % u64_mod };
}

module _ (start user_start : ℕ) (positive : 0 < start)
    (fits : start + heap_pages * page_size ≤ user_start)
    (user_fits : user_start + paging_pages * page_size ≤ u64_mod) (aligned : start % 4096 ≡ 0)
    (user_aligned : user_start % 4096 ≡ 0) where
  -- The next page of the guests, and room for one page less.
  pub page_map_lem :
      (level key : ℕ → ℕ) (n : ℕ) (tsk : Tcb) (addr : ℕ) (m : Memory)
      → addr % 4096 ≡ 0
      → HasRoom (n + 1) m
      → IsSound start user_start level key m
      → (tsk.mm.page_table ≢ 0 → level tsk.mm.page_table ≡ 1)
      → (mm : MmContext) × (m' : Memory) × (page_map start user_start tsk addr m
          ≡ ok (user_start + m.user.next * page_size, record tsk { mm = mm }, m'))
        × (v : Served start user_start level tsk addr m (faulted tsk mm) m') × (v.page
            ≡ m.user.next)
        × ((u : ℕ) → 1 ≤ level u → v.level' u ≡ level u)
        × (m'.user.next ≡ m.user.next + 1)
        × HasRoom n m'
  unfolding page_map page_allocate
  page_map_lem level key n tsk addr m whole room v one =
      elim (umm_malloc_fresh user_start user_fits page_size m.user (omega arith, refl) v.user) [
        | inr (e, all) ↦ absurd (
            free_taken (
              sym (room.unused m.user.next (omega arith) (omega (arith, room.pages)))
              ∙ all m.user.next (omega arith) (omega (arith, room.pages))))
        | inl (p, e, a) ↦
            let next : p ≡ m.user.next = first_free p a.first.from a.first.before in
            let n' : ℕ = user_start + p * page_size in
            let some_page : (n' == 0) ≡ false = ==_ne n' 0 (omega arith) in
            let z : level n' ≡ 0 =
              user_page start user_start positive fits user_fits aligned user_aligned level key
                m.tables n' (omega arith) v.forest in
            let s : Tables = record m.tables { mem = update m.tables.mem n' (λ _. 0) } in
            let f =
              wiped-IsForest start user_start positive fits user_fits aligned user_aligned level key
                m.tables n' z v.forest in
            elim (map_page_lem start (omega arith) aligned level key s tsk.mm (page_mask addr) n'
              pte_dram positive f one) [
                | inr (e', (x, y, full)) ↦ absurd (too_few (room-full x y m.tables.heap full))
                | inl (slot, mm', s', e', mapped) ↦
                    let (served, page, kept) =
                      served_lem start user_start positive fits user_fits aligned user_aligned level
                        key tsk addr m p mm' s' v one a mapped in
                    (
                      mm',
                      record { user = taken user_start user_fits m.user p; tables = s' },
                      rw e (
                          rw (some_page, mapped_at mm' slot s s' n' e')
                            (ap
                              (λ q. ok (
                                user_start + q * page_size,
                                record tsk { mm = mm' },
                                record { user = taken user_start user_fits m.user p; tables = s' },
                              ))
                              next)),
                      served,
                      page ∙ next,
                      kept,
                      ap (λ q. q + 1) next,
                      record {
                        unused = λ j from lt.
                            a.marked j
                            ∙ rw (==_ne j p (omega arith), room.unused j (omega (arith, next)) lt)
                                refl;
                        pages = omega (arith, room.pages, next);
                        tables = omega (arith, room.tables, mapped.room);
                      },
                    )
              ]
      ]
    where
      free_taken : true ≡ false → ⊥
      free_taken q = cc

      too_few : free_pages heap_pages m.tables.heap ≤ 2 → ⊥
      too_few le = omega (arith, room.tables)

      first_free :
          (p : ℕ)
          → m.user.next ≤ p
          → ((j : ℕ) → m.user.next ≤ j → j < p → is_free m.user.map j ≡ false)
          → p ≡ m.user.next
      first_free p from before = elim (ℕ_discrete p m.user.next) [
        | yes e ↦ e
        | no ne ↦ absurd (
            free_taken (
              sym (room.unused m.user.next (omega arith) (omega (arith, room.pages)))
              ∙ before m.user.next (omega arith) (omega arith)))
      ]

      mapped_at :
          (mm' : MmContext) (slot : ℕ) (s s' : Tables) (n' : ℕ)
          → map_page start tsk.mm (page_mask addr) n' pte_dram s ≡ ok (slot, mm', s')
          → map_page start tsk.mm addr n' pte_dram s ≡ ok (slot, mm', s')
      mapped_at mm' slot s s' n' e =
          subst (λ a. map_page start tsk.mm a n' pte_dram s ≡ ok (slot, mm', s')) (omega arith) e

-- ===== src/Kernel/Create/Spare.antt =====
-- Pages that the heap gives away and that are no tables: the tables stay what they were.
use evisor.Prelude.{
  Bool, ==_ne, ap, arith, false, if◌then◌else◌, inl, inr, refl, sym, true, u64_mod, update, ℕ, ◌%◌,
  ◌*◌, ◌+◌, ◌<◌, ◌==◌, ◌∙◌, ◌≡◌, ◌≤◌,
}
use evisor.Prelude.Outcome.{ok}
use evisor.Mm.KernelHeap.{heap_pages, page_size, kmm_malloc}
use evisor.Mm.KernelHeap.Laws.{kmm_malloc_fresh}
use evisor.Mm.New.{operator_new}
use evisor.Mm.PgTable.{Tables, kmm_zalloc, table_index, lv1_shift, lv2_shift, page_shift}
use evisor.Mm.PgTable.Forest.{IsForest, entry_of_agree, second_level, third_level, translate}
use evisor.Mm.PgTable.Link.{free_page}
use evisor.Mm.PgTable.Room.{free_pages, room-full, room-one}

-- The words of the tables stay, the pages taken stay taken, and at most `n` were taken more.
pub record Spares (level : ℕ → ℕ) (n : ℕ) (s s' : Tables) : Type 0 where
  pub words : (t i : ℕ) → 1 ≤ level t → s'.mem t i ≡ s.mem t i
  pub held : (q : ℕ) → s.heap q ≡ true → s'.heap q ≡ true
  pub room : free_pages heap_pages s.heap ≤ free_pages heap_pages s'.heap + n

pub Spares-trans :
    (level : ℕ → ℕ) (n n' : ℕ) (s s' s2 : Tables)
    → Spares level n s s'
    → Spares level n' s' s2
    → Spares level (n + n') s s2
Spares-trans level n n' s s' s2 a b = record {
  words = λ t i up. b.words t i up ∙ a.words t i up;
  held = λ q e. b.held q (a.held q e);
  room = omega (arith, a.room, b.room);
}

pub Spares-IsForest :
    (start : ℕ) (level key : ℕ → ℕ) (n : ℕ) (s s' : Tables)
    → Spares level n s s'
    → IsForest start level key s
    → IsForest start level key s'
Spares-IsForest start level key n s s' a f = record {
  root = f.root;
  child = λ t i up down small nz.
      rw (a.words t i up) (f.child t i up down small (rw (a.words t i up) at nz));
  held = λ t up. let (p, below, e, taken) = f.held t up in (p, below, e, a.held p taken);
}

-- A walk finds what it found.
pub Spares-translate :
    (start : ℕ) (level key : ℕ → ℕ) (n : ℕ) (s s' : Tables) (r ipa : ℕ)
    → Spares level n s s'
    → IsForest start level key s
    → level r ≡ 1
    → translate s'.mem r ipa ≡ translate s.mem r ipa
Spares-translate start level key n s s' r ipa a f one =
    let i = table_index ipa lv1_shift in
    let j = table_index ipa lv2_shift in
    let k = table_index ipa page_shift in
    entry_of_agree s.mem s'.mem r i j k (a.words r i (omega arith))
      (λ nz. a.words _ j (deep 1 _ (second_level start level key s r i f one (omega arith) nz).0))
      (λ nz nz'.
        a.words _ k (
          deep 2 _
            (third_level start level key s r i j f one (omega arith) (omega arith) nz nz').0))
  where
    deep : (l x : ℕ) → x ≡ l + 1 → 1 ≤ x
    deep l x e = omega arith

module _ (start : ℕ) (fits : start + heap_pages * page_size ≤ u64_mod) where
  -- With three pages free a request is served.
  kmm_malloc_some :
      (size : ℕ) (used : ℕ → Bool)
      → 0 < size
      → 3 ≤ free_pages heap_pages used
      → (p : ℕ) × (kmm_malloc start size used ≡ ok (start + p * page_size, update used p true))
        × (used p ≡ false)
  kmm_malloc_some size used positive room = elim (kmm_malloc_fresh start fits size used positive) [
    | inl (p, e, first) ↦ (p, e, first.free)
    | inr (e, all) ↦ absurd (few (room-full 0 0 used (λ x lt _ _. all x (omega arith) lt)))
  ]
    where
      few : free_pages heap_pages used ≤ 2 → ⊥
      few h = omega (arith, room)

  heap-Spares :
      (level : ℕ → ℕ) (s : Tables) (p : ℕ)
      → Spares level 1 s (record s { heap = update s.heap p true })
  heap-Spares level s p = record {
    words = λ t i up. refl;
    held = λ q e. still (p == q) (s.heap q) e;
    room = room-one p s.heap (update s.heap p true) (λ q ne. rw (==_ne p q (λ e. ne (sym e))) refl);
  }
    where
      still : (c b : Bool) → b ≡ true → (if c then true else b) ≡ true
      still c b e = ground (arith, e)

  pub kmm_malloc-Spares :
      (level : ℕ → ℕ) (size : ℕ) (s : Tables)
      → 0 < size
      → 3 ≤ free_pages heap_pages s.heap
      → (p : ℕ) × (heap : ℕ → Bool) × (kmm_malloc start size s.heap ≡ ok (p, heap))
        × Spares level 1 s (record s { heap = heap })
  kmm_malloc-Spares level size s positive room =
      let (p, e, free) = kmm_malloc_some size s.heap positive room in
      (start + p * page_size, update s.heap p true, e, heap-Spares level s p)

  module _ (positive : 0 < start) where
    pub operator_new-Spares :
        (level : ℕ → ℕ) (size : ℕ) (s : Tables)
        → 0 < size
        → 3 ≤ free_pages heap_pages s.heap
        → (p : ℕ) × (heap : ℕ → Bool) × (operator_new start size s.heap ≡ ok (p, heap))
          × Spares level 1 s (record s { heap = heap })
    unfolding operator_new
    operator_new-Spares level size s small room =
        let (p, e, free) = kmm_malloc_some size s.heap small room in
        let there : (start + p * page_size == 0) ≡ false =
          ==_ne (start + p * page_size) 0 (λ z. absurd (low p z)) in
        (
          start + p * page_size,
          update s.heap p true,
          rw (operator_new, e, there) refl,
          heap-Spares level s p,
        )
      where
        low : (p : ℕ) → start + p * page_size ≡ 0 → ⊥
        low p z = omega arith

  pub kmm_zalloc-Spares :
      (aligned : start % 4096 ≡ 0) (level key : ℕ → ℕ) (s : Tables)
      → IsForest start level key s
      → 3 ≤ free_pages heap_pages s.heap
      → (p : ℕ) × (s' : Tables) × (kmm_zalloc start s ≡ ok (p, s')) × Spares level 1 s s'
  unfolding kmm_zalloc
  kmm_zalloc-Spares aligned level key s f room =
      let (p, e, free) = kmm_malloc_some page_size s.heap (omega arith) room in
      let n : ℕ = start + p * page_size in
      let fresh : level n ≡ 0 = free_page start fits aligned level key s p free f in
      let h = heap-Spares level s p in
      (
        n,
        record { heap = update s.heap p true; mem = update s.mem n (λ _. 0) },
        rw (kmm_zalloc, e) refl,
        record {
          words =
              λ t i up. rw (==_ne n t (λ q. absurd (clash t up (sym (ap level q) ∙ fresh)))) refl;
          held = h.held;
          room = h.room;
        },
      )
    where
      clash : (t : ℕ) → 1 ≤ level t → level t ≡ 0 → ⊥
      clash t up z = omega arith

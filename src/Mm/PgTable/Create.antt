-- ===== src/Mm/PgTable/Create.antt =====
-- src/mm/pgtable_stage2.cc: CreatePageTable adds a table to the forest, or finds no page for it.
use evisor.Prelude.{
  ==_iff, ==_ne, ==_refl, ap, arith, bit_or, inl, inr, refl, sym, true, u64_mod, update, ℕ,
  ℕ_discrete, ◌%◌, ◌*◌, ◌+◌, ◌<◌, ◌==◌, ◌∙◌, ◌≡◌, ◌≢◌, ◌≤◌, ◌⊎◌,
}
use evisor.Prelude.Flags.{bit_or_three}
use evisor.Prelude.Outcome.{ok, panic}
use evisor.Mm.KernelHeap.{heap_pages, page_size}
use evisor.Mm.KernelHeap.Laws.{AllTaken, kmm_malloc_fresh}
use evisor.Mm.PgTable.{
  Tables, table_index, page_mask, kmm_zalloc, link_table, create_page_table, ptrs_per_table,
}
use evisor.Mm.PgTable.Forest.{IsForest}
use evisor.Mm.PgTable.Link.{free_page, linked_words}
use evisor.Mm.PgTable.Extend.{Extends, SameRoots, Extends-refl, linked-Extends}

module _ (start : ℕ) (fits : start + heap_pages * page_size ≤ u64_mod)
    (aligned : start % 4096 ≡ 0) where
  link_lem :
      (level key : ℕ → ℕ) (s : Tables) (t i : ℕ)
      → IsForest start level key s
      → 1 ≤ level t
      → level t ≤ 2
      → i < ptrs_per_table
      → s.mem t i ≡ 0
      → ((n : ℕ) × (s' : Tables) × (level' : ℕ → ℕ) × (key' : ℕ → ℕ) × (link_table start t i s
            ≡ ok (n, s'))
          × Extends start level key s level' key' s'
          × (s'.mem t i ≢ 0)
          × (page_mask (s'.mem t i) ≡ n)
          × SameRoots level level')
        ⊎ ((link_table start t i s ≡ panic) × AllTaken heap_pages 0 s.heap)
  unfolding link_table kmm_zalloc linked_words
  link_lem level key s t i f up down lt empty =
      elim (kmm_malloc_fresh start fits page_size s.heap (omega arith)) [
        | inr (e, all) ↦ inr (rw e refl, all)
        | inl (p, e, first) ↦
            let n = start + p * page_size in
            let fresh : level n ≡ 0 = free_page start fits aligned level key s p first.free f in
            let whole : n % 4 ≡ 0 = omega arith in
            let flags : bit_or n 3 ≡ n + 3 = bit_or_three n whole in
            let ne : n ≢ t = λ q. absurd (clash (sym (ap level q) ∙ fresh)) in
            let points : page_mask (n + 3) ≡ n = omega arith in
            let entry : linked_words s.mem n t i (n + 3) t i ≡ n + 3 =
              rw (==_refl t, ==_refl i) refl in
            inl (
              n,
              record { heap = update s.heap p true; mem = linked_words s.mem n t i (n + 3) },
              update level n (level t + 1),
              update key n (key t * ptrs_per_table + i),
              rw e (rw flags refl),
              linked-Extends start fits aligned level key s t i p n f up down lt empty first.below
                  refl fresh,
              λ z. absurd (not_zero n (sym entry ∙ z)),
              ap page_mask entry ∙ points,
              λ u root. elim (ℕ_discrete n u) [
                | yes q ↦ absurd (deep (level t) up (rw ((==_iff n u).1 q) at root))
                | no d ↦ rw (==_ne n u d) at root
              ],
            )
      ]
    where
      clash : level t ≡ 0 → ⊥
      clash z = omega arith

      not_zero : (n : ℕ) → n + 3 ≡ 0 → ⊥
      not_zero n z = omega arith

      deep : (l : ℕ) → 1 ≤ l → l + 1 ≡ 1 → ⊥
      deep l above e = omega arith

  -- What a call that may make a table does, for the entry that leads to its result.
  abbrev pub Creates : (ℕ → ℕ) → (ℕ → ℕ) → Tables → ℕ → ℕ → ℕ → Tables → Type 0
  Creates level key s t i n s' =
      (level' : ℕ → ℕ) × (key' : ℕ → ℕ) × Extends start level key s level' key' s'
      × (s'.mem t i ≢ 0)
      × (page_mask (s'.mem t i) ≡ n)
      × SameRoots level level'

  pub create_lem :
      (level key : ℕ → ℕ) (s : Tables) (t shift ipa : ℕ)
      → IsForest start level key s
      → 1 ≤ level t
      → level t ≤ 2
      → ((n : ℕ) × (s' : Tables) × (create_page_table start t shift ipa s ≡ ok (n, s'))
          × Creates level key s t (table_index ipa shift) n s')
        ⊎ ((create_page_table start t shift ipa s ≡ panic) × AllTaken heap_pages 0 s.heap)
  unfolding create_page_table
  create_lem level key s t shift ipa f up down =
      let i = table_index ipa shift in
      let lt : i < ptrs_per_table = omega arith in
      elim (ℕ_discrete (s.mem t i) 0) [
        | yes z ↦
            let empty : (s.mem t i == 0) ≡ true = (==_iff (s.mem t i) 0).1 z in
            elim (link_lem level key s t i f up down lt z) [
              | inl (n, s', l', k', e, x, nz, place, roots) ↦
                  inl (n, s', rw empty e, (l', k', x, nz, place, roots))
              | inr (e, all) ↦ inr (rw empty e, all)
            ]
        | no nz ↦ inl (
          page_mask (s.mem t i),
          s,
          rw (==_ne (s.mem t i) 0 nz) refl,
          (level, key, Extends-refl start level key s f, nz, refl, λ u root. root),
        )
      ]

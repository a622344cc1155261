-- ===== src/Mm/PgTable/First.antt =====
-- src/mm/pgtable_stage2.cc: the first table of MapPage is a root of the forest.
use evisor.Prelude.{
  ==_iff, ==_ne, ==_refl, ap, arith, false, inl, inr, refl, sym, true, u64_mod, update, ℕ,
  ℕ_discrete, ◌%◌, ◌*◌, ◌+◌, ◌<◌, ◌==◌, ◌∙◌, ◌≡◌, ◌≢◌, ◌≤◌, ◌⊎◌,
}
use evisor.Prelude.Outcome.{ok, panic}
use evisor.Kernel.Task.{MmContext}
use evisor.Mm.KernelHeap.{heap_pages, page_size}
use evisor.Mm.KernelHeap.Laws.{AllTaken, kmm_malloc_fresh}
use evisor.Mm.PgTable.{Tables, kmm_zalloc, first_table}
use evisor.Mm.PgTable.Forest.{IsForest, entry_of}
use evisor.Mm.PgTable.Link.{cleared, free_page, cleared-IsForest}
use evisor.Mm.PgTable.Extend.{Extends, Extends-refl, cleared-walks}

module _ (start : ℕ) (fits : start + heap_pages * page_size ≤ u64_mod)
    (aligned : start % 4096 ≡ 0) where
  -- The table of level 1 that `MapPage` starts from.
  pub first_lem :
      (level key : ℕ → ℕ) (s : Tables) (mm : MmContext)
      → 0 < start
      → IsForest start level key s
      → (mm.page_table ≢ 0 → level mm.page_table ≡ 1)
      → ((r : ℕ) × (s' : Tables) × (level' : ℕ → ℕ) × (key' : ℕ → ℕ) × (first_table start mm s
            ≡ ok (r, s'))
          × Extends start level key s level' key' s'
          × (level' r ≡ 1)
          × ((u : ℕ) → level' u ≡ 1 → u ≢ r → level u ≡ 1)
          × ((mm.page_table ≡ 0) → level r ≡ 0)
          × (r ≢ 0)
          × ((mm.page_table ≢ 0) → r ≡ mm.page_table)
          × ((mm.page_table ≡ 0) → (i j k : ℕ) → entry_of s'.mem r i j k ≡ 0))
        ⊎ ((first_table start mm s ≡ panic) × AllTaken heap_pages 0 s.heap)
  unfolding first_table kmm_zalloc
  first_lem level key s mm positive f one = elim (ℕ_discrete mm.page_table 0) [
    | no nz ↦ inl (
      mm.page_table,
      s,
      level,
      key,
      rw (==_ne mm.page_table 0 nz) refl,
      Extends-refl start level key s f,
      one nz,
      λ u root _. root,
      λ z. absurd (nz z),
      nz,
      λ _. refl,
      λ z. absurd (nz z),
    )
    | yes z ↦
        let first : (mm.page_table == 0) ≡ true = (==_iff mm.page_table 0).1 z in
        elim (kmm_malloc_fresh start fits page_size s.heap (omega arith)) [
          | inr (e, all) ↦ inr (rw (first, e) refl, all)
          | inl (p, e, g) ↦
              let n = start + p * page_size in
              let fresh : level n ≡ 0 = free_page start fits aligned level key s p g.free f in
              let self : (n == n) ≡ true = ==_refl n in
              inl (
                n,
                cleared s p n,
                update level n 1,
                update key n n,
                rw (first, e) refl,
                record {
                  forest =
                      cleared-IsForest start fits aligned level key s p n 1 n g.below refl fresh
                        (λ _. refl) f;
                  kept = λ u above.
                      let d : (n == u) ≡ false =
                        ==_ne n u (λ q. absurd (clash u above (sym (ap level q) ∙ fresh))) in
                      rw d (refl, refl);
                  words = λ u x above nz.
                      let d : (n == u) ≡ false =
                        ==_ne n u (λ q. absurd (clash u above (sym (ap level q) ∙ fresh))) in
                      rw d refl;
                  walks = λ r i j k one a b.
                      cleared-walks start fits aligned level key s n r i j k f fresh one a b;
                  taken = (p, λ q d. rw (==_ne p q (λ e. d (sym e))) refl);
                },
                rw self refl,
                λ u root d. rw (==_ne n u (λ q. d (sym q))) at root,
                λ _. fresh,
                λ q. absurd (above_start p q),
                λ nz. absurd (nz z),
                λ _ i j k. rw self refl,
              )
        ]
  ]
    where
      clash : (u : ℕ) → 1 ≤ level u → level u ≡ 0 → ⊥
      clash u above q = omega arith

      above_start : (p : ℕ) → start + p * page_size ≡ 0 → ⊥
      above_start p q = omega arith

-- ===== src/Mm/PgTable/Extend.antt =====
-- src/mm/pgtable_stage2.cc: what a new table changes in the forest, and what it leaves alone.
use evisor.Prelude.{
  ==_ne, ==_refl, ap, arith, false, refl, suc, sym, true, u64_mod, update, ℕ, ◌%◌, ◌*◌, ◌+◌, ◌<◌,
  ◌==◌, ◌∙◌, ◌≡◌, ◌≢◌, ◌≤◌,
}
use evisor.Mm.KernelHeap.{heap_pages, page_size}
use evisor.Mm.PgTable.{Tables, page_mask, ptrs_per_table}
use evisor.Mm.PgTable.Forest.{IsForest, entry_of, entry_of_agree, second_level, third_level}
use evisor.Mm.PgTable.Link.{
  cleared, cleared-IsForest, link-IsForest, linked_words, old_word, entry_of-linked,
}

-- What making tables does to the forest: the tables there were and their entries stay, every walk
-- finds what it found, and at most one page was taken from the heap.
pub record Extends (start : ℕ) (level key : ℕ → ℕ) (s : Tables) (level' key' : ℕ → ℕ) (s' : Tables)
    : Type 0 where
  pub forest : IsForest start level' key' s'
  pub kept : (u : ℕ) → 1 ≤ level u → (level' u ≡ level u) × (key' u ≡ key u)
  pub words : (u x : ℕ) → 1 ≤ level u → s.mem u x ≢ 0 → s'.mem u x ≡ s.mem u x
  pub walks :
      (r i j k : ℕ)
      → level r ≡ 1
      → i < ptrs_per_table
      → j < ptrs_per_table
      → entry_of s'.mem r i j k ≡ entry_of s.mem r i j k
  pub taken : (p : ℕ) × ((q : ℕ) → q ≢ p → s'.heap q ≡ s.heap q)

-- No table became a root.
abbrev pub SameRoots : (ℕ → ℕ) → (ℕ → ℕ) → Type 0
SameRoots level level' = (u : ℕ) → level' u ≡ 1 → level u ≡ 1

pub Extends-refl :
    (start : ℕ) (level key : ℕ → ℕ) (s : Tables)
    → IsForest start level key s
    → Extends start level key s level key s
Extends-refl start level key s f = record {
  forest = f;
  kept = λ u up. (refl, refl);
  words = λ u x up nz. refl;
  walks = λ r i j k one a b. refl;
  taken = (0, λ q ne. refl);
}

module _ (start : ℕ) (fits : start + heap_pages * page_size ≤ u64_mod)
    (aligned : start % 4096 ≡ 0) where
  pub linked-Extends :
      (level key : ℕ → ℕ) (s : Tables) (t i p n : ℕ)
      → IsForest start level key s
      → 1 ≤ level t
      → level t ≤ 2
      → i < ptrs_per_table
      → s.mem t i ≡ 0
      → p < heap_pages
      → n ≡ start + p * 4096
      → level n ≡ 0
      → Extends start level key s
          (update level n (level t + 1))
          (update key n (key t * ptrs_per_table + i))
          (record { heap = update s.heap p true; mem = linked_words s.mem n t i (n + 3) })
  unfolding linked_words
  linked-Extends level key s t i p n f up down lt empty below place fresh =
      let ne : (n == t) ≡ false = ==_ne n t (λ q. absurd (apart t up q)) in
      let self : (n == n) ≡ true = ==_refl n in
      let points : page_mask (n + 3) ≡ n = omega arith in
      let deeper : (level t + 1 ≡ 1) → (key t * ptrs_per_table + i ≡ n) =
        λ e. absurd (omega arith) in
      record {
        forest =
            link-IsForest start (update level n (level t + 1))
              (update key n (key t * ptrs_per_table + i)) (cleared s p n) t i n (n + 3) lt
              (rw (ne, self) refl) (rw (ne, self) refl) points
              (cleared-IsForest start fits aligned level key s p n (level t + 1)
                (key t * ptrs_per_table + i) below place fresh deeper f);
        kept = λ u above.
            let d : (n == u) ≡ false = ==_ne n u (λ q. absurd (apart u above q)) in
            rw d (refl, refl);
        words = λ u x above nz.
            old_word level s.mem n t i (n + 3) fresh up down empty points (omega arith) u x
              (==_ne n u (λ q. absurd (apart u above q))) (λ e q. nz (rw (sym e, sym q) empty));
        walks = λ r x y z one a b.
            entry_of-linked level s.mem n t i (n + 3) fresh up down empty points (omega arith) r x y
              z one (λ nz. (second_level start level key s r x f one a nz).0)
              (λ nz nz'. (third_level start level key s r x y f one a b nz nz').0);
        taken = (p, λ q d. rw (==_ne p q (λ e. d (sym e))) refl);
      }
    where
      less : (u : ℕ) → 1 ≤ level u → level n ≡ level u → ⊥
      less u above e = omega (arith, fresh)

      apart : (u : ℕ) → 1 ≤ level u → n ≡ u → ⊥
      apart u above q = less u above (ap level q)

  -- A page that no table lies in yet leaves the walks when it is cleared.
  pub cleared-walks :
      (level key : ℕ → ℕ) (s : Tables) (n r i j k : ℕ)
      → IsForest start level key s
      → level n ≡ 0
      → level r ≡ 1
      → i < ptrs_per_table
      → j < ptrs_per_table
      → entry_of (update s.mem n (λ _. 0)) r i j k ≡ entry_of s.mem r i j k
  cleared-walks level key s n r i j k f fresh one a b =
      entry_of_agree s.mem (update s.mem n (λ _. 0)) r i j k (old r i 0 one)
        (λ nz. old (page_mask (s.mem r i)) j 1 (second_level start level key s r i f one a nz).0)
        (λ nz nz'.
          old (page_mask (s.mem (page_mask (s.mem r i)) j)) k 2
            (third_level start level key s r i j f one a b nz nz').0)
    where
      clash : (l : ℕ) → 0 ≡ suc l → ⊥
      clash l e = omega arith

      old : (u x l : ℕ) → level u ≡ suc l → update s.mem n (λ _. 0) u x ≡ s.mem u x
      old u x l e =
          let d : (n == u) ≡ false =
            ==_ne n u (λ q. absurd (clash l (sym fresh ∙ (ap level q ∙ e)))) in
          rw d refl

-- ===== src/Mm/Fault/Isolation.antt =====
-- No two guests share a page: what a fault does to the pages of all guests.
use evisor.Prelude.{
  ==_iff, Bool, ap, arith, bit_or, false, inl, inr, not, refl, sym, true, ℕ, ℕ_discrete, ◌%◌, ◌&&◌,
  ◌*◌, ◌+◌, ◌<◌, ◌==◌, ◌∙◌, ◌≡◌, ◌≢◌, ◌⊎◌,
}
use evisor.Prelude.Flags.{bit_or_low}
use evisor.Kernel.Task.{MmContext}
use evisor.Mm.UserHeap.{UserHeap, page_size, paging_pages, is_free}
use evisor.Mm.PgTable.{Tables, pte_dram}
use evisor.Mm.PgTable.Forest.{translate}
use evisor.Mm.PgTable.Map.{Mapped, page_number, translate_page}

-- The entry of a page of the guests.
abbrev pub dram_entry : ℕ → ℕ → ℕ
dram_entry user_start p = bit_or (user_start + p * page_size) pte_dram

dram_entry_inj :
    (user_start p q : ℕ)
    → user_start % 4096 ≡ 0
    → dram_entry user_start p ≡ dram_entry user_start q
    → p ≡ q
dram_entry_inj user_start p q whole e =
    let one : bit_or (user_start + p * page_size) pte_dram ≡ user_start + p * page_size + pte_dram =
      bit_or_low _ _ (omega arith) (omega arith) in
    let two : bit_or (user_start + q * page_size) pte_dram ≡ user_start + q * page_size + pte_dram =
      bit_or_low _ _ (omega arith) (omega arith) in
    omega (arith, sym one ∙ (e ∙ two))

pub dram_entry-nonzero : (user_start p : ℕ) → user_start % 4096 ≡ 0 → dram_entry user_start p ≢ 0
dram_entry-nonzero user_start p whole e =
    let one : bit_or (user_start + p * page_size) pte_dram ≡ user_start + p * page_size + pte_dram =
      bit_or_low _ _ (omega arith) (omega arith) in
    omega (arith, sym one ∙ e)

-- The guest with the root `r` has the page `p` of the guests' memory at the address `ipa`.
abbrev pub Maps : ℕ → (ℕ → ℕ) → (ℕ → ℕ → ℕ) → ℕ → ℕ → ℕ → Type 0
Maps user_start level mem r ipa p =
    (level r ≡ 1) × (p < paging_pages) × (translate mem r ipa ≡ dram_entry user_start p)

-- Every page that a guest has is marked in the heap, and no other guest has it, nor the same guest
-- at another address.
pub record IsIsolated (user_start : ℕ) (level : ℕ → ℕ) (user : UserHeap) (mem : ℕ → ℕ → ℕ)
    : Type 0 where
  pub marked : (r ipa p : ℕ) → Maps user_start level mem r ipa p → is_free user.map p ≡ false
  pub apart :
      (r ipa r' ipa' p : ℕ)
      → Maps user_start level mem r ipa p
      → Maps user_start level mem r' ipa' p
      → (r ≡ r') × (page_number ipa ≡ page_number ipa')

-- What a guest has after `MapPage` is the page just entered, or what it had.
module _ (start user_start : ℕ) (whole : user_start % 4096 ≡ 0) where
  Maps-Mapped :
      (level key : ℕ → ℕ) (s s' : Tables) (mm mm' : MmContext) (ipa entry : ℕ)
      (m : Mapped start level key s mm ipa entry mm' s') (r other p : ℕ)
      → (mm.page_table ≢ 0 → level mm.page_table ≡ 1)
      → Maps user_start m.level' s'.mem r other p
      → ((r ≡ mm'.page_table)
          × (page_number other ≡ page_number ipa)
          × (entry ≡ dram_entry user_start p))
        ⊎ Maps user_start level s.mem r other p
  Maps-Mapped level key s s' mm mm' ipa entry m r other p one (root, lt, e) =
      elim (ℕ_discrete r mm'.page_table) [
        | no ne ↦
            let old = m.roots r root ne in
            inr (old, lt, sym (m.elsewhere r other old (λ q. absurd (ne q))) ∙ e)
        | yes q ↦ elim (ℕ_discrete (page_number other) (page_number ipa)) [
          | yes same ↦
              inl (q, same, sym (translate_page s'.mem r other ipa same ∙ (rw q m.here)) ∙ e)
          | no ne ↦ elim (ℕ_discrete mm.page_table 0) [
            | yes z ↦
                absurd (dram_entry-nonzero user_start p whole (sym e ∙ rw q (m.empty other z ne)))
            | no nz ↦
                let old : level r ≡ 1 = rw (q, m.same_root nz) (one nz) in
                inr (old, lt, sym (m.elsewhere r other old (λ _. ne)) ∙ e)
          ]
        ]
      ]

  -- A page that was free goes to one guest, and the guests stay apart.
  pub give-IsIsolated :
      (level key : ℕ → ℕ) (user : UserHeap) (s s' : Tables) (mm mm' : MmContext) (ipa p : ℕ)
      (map' : ℕ → ℕ) (next : ℕ)
      (m : Mapped start level key s mm ipa (dram_entry user_start p) mm' s')
      → (mm.page_table ≢ 0 → level mm.page_table ≡ 1)
      → is_free user.map p ≡ true
      → ((q : ℕ) → is_free map' q ≡ (not (q == p) && is_free user.map q))
      → IsIsolated user_start level user s.mem
      → IsIsolated user_start m.level' (record { map = map'; next = next }) s'.mem
  give-IsIsolated level key user s s' mm mm' ipa p map' next m one free marks i = record {
    marked = λ r other q has. elim (split r other q has) [
      | inl (e, same, d) ↦ rw (marks q, ==_refl_of q p (dram_entry_inj user_start p q whole d)) refl
      | inr old ↦ rw (marks q, i.marked r other q old) (and_false (not (q == p)))
    ];
    apart = λ r a r' b q has has'. elim (split r a q has) [
      | inl (e, same, d) ↦ elim (split r' b q has') [
        | inl (e', same', d') ↦ (e ∙ sym e', same ∙ sym same')
        | inr old ↦ absurd (clash q r' b d old)
      ]
      | inr old ↦ elim (split r' b q has') [
        | inl (e', same', d') ↦ absurd (clash q r a d' old)
        | inr old' ↦ i.apart r a r' b q old old'
      ]
    ];
  }
    where
      ==_refl_of : (q p : ℕ) → p ≡ q → (q == p) ≡ true
      ==_refl_of q p e = (==_iff q p).1 (sym e)

      and_false : (b : Bool) → (b && false) ≡ false
      and_false b = ground arith

      opposite : true ≡ false → ⊥
      opposite e = cc

      split :
          (r other q : ℕ)
          → Maps user_start m.level' s'.mem r other q
          → ((r ≡ mm'.page_table)
              × (page_number other ≡ page_number ipa)
              × (dram_entry user_start p ≡ dram_entry user_start q))
            ⊎ Maps user_start level s.mem r other q
      split r other q has =
          Maps-Mapped level key s s' mm mm' ipa (dram_entry user_start p) m r other q one has

      clash :
          (q r a : ℕ)
          → dram_entry user_start p ≡ dram_entry user_start q
          → Maps user_start level s.mem r a q
          → ⊥
      clash q r a d old = opposite (
          sym free
          ∙ (ap (is_free user.map) (dram_entry_inj user_start p q whole d) ∙ i.marked r a q old))

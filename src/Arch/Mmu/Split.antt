-- ===== src/Arch/Mmu/Split.antt =====
-- src/arch/arm64/mmu.cc: splitting a block changes no translation.
use evisor.Prelude.{
  ==_ne, ==_refl, ap, arith, bit_or, false, inl, inr, lt→ltb, refl, some, suc, true, u32_mod,
  update, zero, ℕ, ℕ_discrete, ◌%◌, ◌*◌, ◌+◌, ◌-◌, ◌/◌, ◌<◌, ◌==◌, ◌^◌, ◌∙◌, ◌≡◌, ◌≢◌, ◌≤◌, ◌⊎◌,
}
use evisor.Prelude.Digits.{bit_or_step, bit_or_field, bit_or_comm, zero-bit_or}
use evisor.Prelude.Flags.{bit_or_three}
use evisor.Prelude.Outcome.{ok}
use evisor.Arch.Mmu.{
  Tables, max_xlat_tables, set_pte_table_desc, split_entry, split_from, split_pte_block_desc,
  table_address, xlat_table_entries,
}
use evisor.Arch.Mmu.Walk.{entry, place, resolve}

split_from-outside :
    (n i old level table : ℕ) (mem : ℕ → ℕ) (a : ℕ)
    → (a < table + 8 * i) ⊎ (table + 8 * (i + n) ≤ a)
    → split_from n i old level table mem a ≡ mem a
unfolding split_from
split_from-outside zero i old level table mem a out = refl
split_from-outside (suc n) i old level table mem a out =
    split_from-outside n (suc i) old level table
      (update mem (table + 8 * i) (split_entry old level i)) a
      (elim out [ inl low ↦ inl (omega arith) | inr high ↦ inr (omega arith) ])
    ∙ rw (==_ne (table + 8 * i) a (omega (arith, out))) refl

split_from-inside :
    (n i old level table : ℕ) (mem : ℕ → ℕ) (j : ℕ)
    → i ≤ j
    → j < i + n
    → split_from n i old level table mem (table + 8 * j) ≡ split_entry old level j
unfolding split_from
split_from-inside zero i old level table mem j low high = absurd (omega arith)
split_from-inside (suc n) i old level table mem j low high = elim (ℕ_discrete i j) [
  | yes e ↦ rw e (
      split_from-outside n (suc j) old level table
        (update mem (table + 8 * j) (split_entry old level j)) (table + 8 * j) (inl (omega arith))
      ∙ rw (==_refl (table + 8 * j)) refl)
  | no ne ↦
      split_from-inside n (suc i) old level table
        (update mem (table + 8 * i) (split_entry old level i)) j (omega arith) (omega arith)
]

-- The entries of the new table: a block of level 1 gives blocks, one of level 2 gives pages.
split_entry_one :
    (old i : ℕ) → old / 2 ^ 21 % 2 ^ 9 ≡ 0 → i < 512 → split_entry old 1 i ≡ old + i * 2 ^ 21
split_entry_one old i whole lt =
    let fits : i * 2 ^ 21 % u32_mod ≡ i * 2 ^ 21 = omega arith in
    rw fits (bit_or_field 21 old i (omega arith) lt)

bit_or_page : (x : ℕ) → x % 4 ≡ 1 → bit_or x 3 ≡ x + 2
bit_or_page x one =
    let half : bit_or (x / 2 / 2) 0 ≡ x / 2 / 2 =
      bit_or_comm (x / 2 / 2) 0 ∙ zero-bit_or (x / 2 / 2) in
    omega (arith, bit_or_step x 3, bit_or_step (x / 2) 1, half)

split_entry_two :
    (old i : ℕ)
    → old / 2 ^ 12 % 2 ^ 9 ≡ 0
    → old % 4 ≡ 1
    → i < 512
    → split_entry old 2 i ≡ old + i * 2 ^ 12 + 2
split_entry_two old i whole block lt =
    let fits : i * 2 ^ 12 % u32_mod ≡ i * 2 ^ 12 = omega arith in
    let part : bit_or old (i * 2 ^ 12) ≡ old + i * 2 ^ 12 =
      bit_or_field 12 old i (omega arith) lt in
    rw (fits, part) (bit_or_page (old + i * 2 ^ 12) (omega arith))

-- The place of an address does not change with the level at which it is found.
place_one :
    (old va : ℕ)
    → old / 2 ^ 12 % 2 ^ 18 ≡ 0
    → place 21 (old + va / 2 ^ 21 % 512 * 2 ^ 21) va ≡ place 30 old va
place_one old va whole =
    let new : ℕ = old + va / 2 ^ 21 % 512 * 2 ^ 21 in
    let at : new % 2 ^ 48 / 2 ^ 21 * 2 ^ 21 + va % 2 ^ 21
        ≡ old % 2 ^ 48 / 2 ^ 30 * 2 ^ 30 + va % 2 ^ 30 =
      omega arith in
    let lower : new / 2 ^ 2 % 2 ^ 10 ≡ old / 2 ^ 2 % 2 ^ 10 = omega arith in
    let upper : new / 2 ^ 48 ≡ old / 2 ^ 48 = omega arith in
    λ i. record { address = at i; lower_attributes = lower i; upper_attributes = upper i }

place_two :
    (old va : ℕ)
    → old / 2 ^ 12 % 2 ^ 9 ≡ 0
    → old % 4 ≡ 1
    → place 12 (old + va / 2 ^ 12 % 512 * 2 ^ 12 + 2) va ≡ place 21 old va
place_two old va whole block =
    let new : ℕ = old + va / 2 ^ 12 % 512 * 2 ^ 12 + 2 in
    let at : new % 2 ^ 48 / 2 ^ 12 * 2 ^ 12 + va % 2 ^ 12
        ≡ old % 2 ^ 48 / 2 ^ 21 * 2 ^ 21 + va % 2 ^ 21 =
      omega arith in
    let lower : new / 2 ^ 2 % 2 ^ 10 ≡ old / 2 ^ 2 % 2 ^ 10 = omega arith in
    let upper : new / 2 ^ 48 ≡ old / 2 ^ 48 = omega arith in
    λ i. record { address = at i; lower_attributes = lower i; upper_attributes = upper i }

-- The table that the descriptor of a new table leads to.
table_desc : (table : ℕ) → table % 2 ^ 12 ≡ 0 → bit_or 3 table ≡ table + 3
table_desc table whole = bit_or_comm 3 table ∙ bit_or_three table (omega arith)

module _ (pte level table old : ℕ) (mem : ℕ → ℕ) (apart : (pte < table) ⊎ (table + 4096 ≤ pte))
    (aligned : table % 2 ^ 12 ≡ 0) (fits : table < 2 ^ 48) where
  -- The words after the split.
  abbrev after : ℕ → ℕ
  after = set_pte_table_desc pte table (split_from xlat_table_entries 0 old level table mem)

  after_pte : after pte ≡ table + 3
  after_pte = rw (==_refl pte) (table_desc table aligned)

  after_entry : (j : ℕ) → j < 512 → after (table + 8 * j) ≡ split_entry old level j
  after_entry j lt =
      rw (==_ne pte (table + 8 * j) (omega (arith, apart)))
        (split_from-inside 512 0 old level table mem j (omega arith) (omega arith))

  after_other : (a : ℕ) → pte ≢ a → (a < table) ⊎ (table + 4096 ≤ a) → after a ≡ mem a
  after_other a ne out = rw (==_ne pte a ne) (
      split_from-outside 512 0 old level table mem a
        (elim out [ inl low ↦ inl (omega arith) | inr high ↦ inr (omega arith) ]))

  -- The descriptor leads to the new table.
  after_table :
      (n va : ℕ)
      → resolve (suc n) after (after pte) va ≡ resolve n after (entry n after table va) va
  after_table n va =
      let not_block : ((table + 3) % 4 == 1) ≡ false = ground arith in
      let is_table : ((table + 3) % 4 == 3) ≡ true = ground arith in
      let back : table_address (table + 3) ≡ table = omega arith in
      rw (after_pte, not_block, is_table, back) refl

  -- From a block of level 1.
  after_one :
      (va : ℕ)
      → level ≡ 1
      → old / 2 ^ 12 % 2 ^ 18 ≡ 0
      → old % 4 ≡ 1
      → resolve 2 after (after pte) va ≡ resolve 2 mem old va
  after_one va one whole block =
      let j : ℕ = va / 2 ^ 21 % 512 in
      let new : after (table + 8 * j) ≡ old + j * 2 ^ 21 =
        after_entry j (omega arith)
        ∙ ap (λ l. split_entry old l j) one
        ∙ split_entry_one old j (omega arith) (omega arith) in
      let is_block : ((old + j * 2 ^ 21) % 4 == 1) ≡ true = ground arith in
      let was_block : (old % 4 == 1) ≡ true = ground arith in
      after_table 1 va ∙ rw (new, is_block, was_block) (ap some (place_one old va whole))

  -- From one of level 2.
  after_two :
      (va : ℕ)
      → level ≡ 2
      → old / 2 ^ 12 % 2 ^ 9 ≡ 0
      → old % 4 ≡ 1
      → resolve 1 after (after pte) va ≡ resolve 1 mem old va
  after_two va two whole block =
      let j : ℕ = va / 2 ^ 12 % 512 in
      let new : after (table + 8 * j) ≡ old + j * 2 ^ 12 + 2 =
        after_entry j (omega arith)
        ∙ ap (λ l. split_entry old l j) two
        ∙ split_entry_two old j whole block (omega arith) in
      let is_page : ((old + j * 2 ^ 12 + 2) % 4 == 3) ≡ true = ground arith in
      let was_block : (old % 4 == 1) ≡ true = ground arith in
      after_table 0 va ∙ rw (new, is_page, was_block) (ap some (place_two old va whole block))

-- A block of level 1 or 2 at its boundary of the memory.
pub record IsBlock (level desc : ℕ) : Type 0 where
  pub is_block : desc % 4 ≡ 1
  pub whole : (level ≡ 1) × (desc / 2 ^ 12 % 2 ^ 18 ≡ 0) ⊎ (level ≡ 2) × (desc / 2 ^ 12 % 2 ^ 9 ≡ 0)

-- `SplitPteBlockDesc` of a block of level 1 or 2, while one of the 14 tables is left, in whole pages
-- below 2 ^ 48 apart from the entry: it returns, takes one table, and the hardware finds every address
-- of the block at the place where it was, with the same attributes; outside of the entry and the new
-- table no word changes.
pub split_pte_block_desc-resolve :
    (base tables pte level : ℕ) (t : Tables)
    → IsBlock level (t.mem pte)
    → t.idx < max_xlat_tables
    → tables % 2 ^ 12 ≡ 0
    → tables + 14 * 4096 ≤ 2 ^ 48
    → (pte < tables + t.idx * 4096) ⊎ (tables + t.idx * 4096 + 4096 ≤ pte)
    → (t' : Tables) × (split_pte_block_desc base tables pte level t ≡ ok t')
      × (t'.idx ≡ t.idx + 1)
      × ((va : ℕ)
          → resolve (3 - level) t'.mem (t'.mem pte) va ≡ resolve (3 - level) t.mem (t.mem pte) va)
      × ((a : ℕ)
          → pte ≢ a
          → (a < tables + t.idx * 4096) ⊎ (tables + t.idx * 4096 + 4096 ≤ a)
          → t'.mem a ≡ t.mem a)
unfolding split_pte_block_desc
split_pte_block_desc-resolve base tables pte level t b room aligned low apart =
    let table : ℕ = tables + t.idx * 4096 in
    let here : table % 2 ^ 12 ≡ 0 = omega arith in
    let fits : table < 2 ^ 48 = omega arith in
    (
      record { mem = after pte level table (t.mem pte) t.mem apart here fits; idx = t.idx + 1 },
      rw (lt→ltb t.idx 14 room) refl,
      refl,
      λ va. elim b.whole [
        | inl (one, whole) ↦
            let depth : 3 - level ≡ 2 = omega arith in
            rw depth
              (after_one pte level table (t.mem pte) t.mem apart here fits va one whole b.is_block)
        | inr (two, whole) ↦
            let depth : 3 - level ≡ 1 = omega arith in
            rw depth
              (after_two pte level table (t.mem pte) t.mem apart here fits va two whole b.is_block)
      ],
      after_other pte level table (t.mem pte) t.mem apart here fits,
    )

-- ===== src/Mm/PgTable/Forest.antt =====
-- The tables as a forest: what a walk of them finds, and how its tables are told apart.
use evisor.Prelude.{
  zero, suc, ==_iff, ==_ne, arith, false, if◌then◌else◌, refl, sym, true, ℕ, ℕ_discrete, ◌*◌, ◌+◌,
  ◌<◌, ◌==◌, ◌∙◌, ◌≡◌, ◌≢◌, ◌≤◌,
}
use evisor.Mm.KernelHeap.{heap_pages}
use evisor.Mm.PgTable.{
  Tables, table_index, page_mask, lv1_shift, lv2_shift, page_shift, set_word, ptrs_per_table,
}

-- What a walk from a table of level 2 finds: 0, which is no entry, where a level is missing.
abbrev pub entry_below : (ℕ → ℕ → ℕ) → ℕ → ℕ → ℕ → ℕ
entry_below mem table j k = if mem table j == 0 then 0 else mem (page_mask (mem table j)) k

-- The entry of level 3 that the hardware finds from a table of level 1.
abbrev pub entry_of : (ℕ → ℕ → ℕ) → ℕ → ℕ → ℕ → ℕ → ℕ
entry_of mem root i j k =
    if mem root i == 0 then 0 else entry_below mem (page_mask (mem root i)) j k

abbrev pub translate : (ℕ → ℕ → ℕ) → ℕ → ℕ → ℕ
translate mem root ipa =
    entry_of mem root (table_index ipa lv1_shift) (table_index ipa lv2_shift)
      (table_index ipa page_shift)

-- Every table has a level and a key: a table of level 1 is its own key, and one below is keyed by
-- the table and the entry that lead to it. So no two entries lead to one table.
pub record IsForest (start : ℕ) (level key : ℕ → ℕ) (s : Tables) : Type 0 where
  pub root : (t : ℕ) → level t ≡ 1 → key t ≡ t
  pub child :
      (t i : ℕ)
      → 1 ≤ level t
      → level t ≤ 2
      → i < ptrs_per_table
      → s.mem t i ≢ 0
      → (level (page_mask (s.mem t i)) ≡ level t + 1)
        × (key (page_mask (s.mem t i)) ≡ key t * ptrs_per_table + i)
  pub held :
      (t : ℕ)
      → 1 ≤ level t
      → (p : ℕ) × (p < heap_pages) × (t ≡ start + p * 4096) × (s.heap p ≡ true)

-- Before there is a table.
pub empty-IsForest : (start : ℕ) (s : Tables) → IsForest start (λ _. 0) (λ _. 0) s
empty-IsForest start s = record {
  root = λ t e. absurd (clash e);
  child = λ t i up down lt nz. absurd (low up);
  held = λ t up. absurd (low up);
}
  where
    clash : zero ≡ suc zero → ⊥
    clash e = omega arith

    low : 1 ≤ 0 → ⊥
    low h = omega arith

-- A write to a table of level 3 leaves the forest.
pub set_word-IsForest :
    (start : ℕ) (level key : ℕ → ℕ) (s : Tables) (table k v : ℕ)
    → level table ≡ 3
    → IsForest start level key s
    → IsForest start level key (record s { mem = set_word s.mem table k v })
set_word-IsForest start level key s table k v l f = record {
  root = f.root;
  child = λ t i up down small.
      let ne : (table == t) ≡ false = ==_ne table t (λ e. absurd (high l (rw (sym e) at down))) in
      rw ne (f.child t i up down small);
  held = f.held;
}
  where
    high : level table ≡ 3 → level table ≤ 2 → ⊥
    high e le = omega arith

-- Memories that agree on the words that a walk reads give it the same entry.
pub entry_of_agree :
    (mem mem' : ℕ → ℕ → ℕ) (r i j k : ℕ)
    → mem' r i ≡ mem r i
    → (mem r i ≢ 0 → mem' (page_mask (mem r i)) j ≡ mem (page_mask (mem r i)) j)
    → (mem r i ≢ 0
        → mem (page_mask (mem r i)) j ≢ 0
        → mem' (page_mask (mem (page_mask (mem r i)) j)) k
          ≡ mem (page_mask (mem (page_mask (mem r i)) j)) k)
    → entry_of mem' r i j k ≡ entry_of mem r i j k
entry_of_agree mem mem' r i j k one two three = elim (ℕ_discrete (mem r i) 0) [
  | yes z ↦ rw (one, (==_iff (mem r i) 0).1 z) refl
  | no nz ↦
      let u = page_mask (mem r i) in
      elim (ℕ_discrete (mem u j) 0) [
        | yes z ↦ rw (one, ==_ne (mem r i) 0 nz, two nz, (==_iff (mem u j) 0).1 z) refl
        | no nz' ↦ rw (one, ==_ne (mem r i) 0 nz, two nz, ==_ne (mem u j) 0 nz') (three nz nz')
      ]
]

-- The levels of the tables that a walk meets below its root.
pub second_level :
    (start : ℕ) (level key : ℕ → ℕ) (s : Tables) (r i : ℕ)
    → IsForest start level key s
    → level r ≡ 1
    → i < ptrs_per_table
    → s.mem r i ≢ 0
    → (level (page_mask (s.mem r i)) ≡ 2) × (key (page_mask (s.mem r i)) ≡ r * ptrs_per_table + i)
second_level start level key s r i f one lt nz =
    let (l, k) = f.child r i (omega arith) (omega arith) lt nz in
    (l ∙ rw one refl, k ∙ rw (f.root r one) refl)

pub third_level :
    (start : ℕ) (level key : ℕ → ℕ) (s : Tables) (r i j : ℕ)
    → IsForest start level key s
    → level r ≡ 1
    → i < ptrs_per_table
    → j < ptrs_per_table
    → s.mem r i ≢ 0
    → s.mem (page_mask (s.mem r i)) j ≢ 0
    → (level (page_mask (s.mem (page_mask (s.mem r i)) j)) ≡ 3)
      × (key (page_mask (s.mem (page_mask (s.mem r i)) j))
          ≡ (r * ptrs_per_table + i) * ptrs_per_table + j)
third_level start level key s r i j f one a b nz nz' =
    let (l, k) = second_level start level key s r i f one a nz in
    let (l', k') = f.child (page_mask (s.mem r i)) j (omega arith) (omega arith) b nz' in
    (l' ∙ rw l refl, k' ∙ rw k refl)

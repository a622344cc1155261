-- ===== src/Mm/PgTable/Link.antt =====
-- A fresh table entered into one above: the forest stays one, and no walk finds another entry.
use evisor.Prelude.{
  ==_iff, ==_ne, ==_refl, Bool, ap, arith, false, if◌then◌else◌, refl, suc, sym, true, u64_mod,
  update, ℕ, ℕ_discrete, ◌%◌, ◌*◌, ◌+◌, ◌<◌, ◌==◌, ◌∙◌, ◌≡◌, ◌≢◌, ◌≤◌,
}
use evisor.Mm.KernelHeap.{heap_pages, page_size}
use evisor.Mm.PgTable.{Tables, page_mask, set_word, ptrs_per_table}
use evisor.Mm.PgTable.Forest.{IsForest, entry_below, entry_of, entry_below}

-- The heap and the memory after the page `p` was taken and cleared.
abbrev pub cleared : Tables → ℕ → ℕ → Tables
cleared s p next = record { heap = update s.heap p true; mem = update s.mem next (λ _. 0) }

-- The same after the page was entered into a table.
abbrev pub linked : Tables → ℕ → ℕ → ℕ → ℕ → Tables
linked s p next table i = record {
  heap = update s.heap p true;
  mem = set_word (update s.mem next (λ _. 0)) table i (next + 3);
}

module _ (start : ℕ) (fits : start + heap_pages * page_size ≤ u64_mod)
    (aligned : start % 4096 ≡ 0) where
  -- A page that is free is no table of the forest.
  pub free_page :
      (level key : ℕ → ℕ) (s : Tables) (p : ℕ)
      → s.heap p ≡ false
      → IsForest start level key s
      → level (start + p * 4096) ≡ 0
  free_page level key s p free f = elim (ℕ_discrete (level (start + p * 4096)) 0) [
    | yes z ↦ z
    | no nz ↦
        let (q, below, e, taken) = f.held (start + p * 4096) (omega arith) in
        let same : p ≡ q = omega arith in absurd (clash (sym free ∙ rw same taken))
  ]
    where
      clash : false ≡ true → ⊥
      clash e = cc

  pub cleared-IsForest :
      (level key : ℕ → ℕ) (s : Tables) (p n l k : ℕ)
      → p < heap_pages
      → n ≡ start + p * 4096
      → level n ≡ 0
      → ((l ≡ 1) → (k ≡ n))
      → IsForest start level key s
      → IsForest start (update level n l) (update key n k) (cleared s p n)
  cleared-IsForest level key s p n l k below place fresh one f = record {
    root = λ t e. ground (arith, f.root t, one, e);
    child = λ t i up down small nz. elim (ℕ_discrete n t) [
      | yes e ↦ absurd (nz (rw ((==_iff n t).1 e) refl))
      | no ne ↦
          let other : (n == t) ≡ false = ==_ne n t ne in
          let (a, b) = f.child t i (rw other at up) (rw other at down) small (rw other at nz) in
          let m = page_mask (s.mem t i) in
          let apart : (n == m) ≡ false =
            ==_ne n m (λ e. absurd (levels (level t) (sym a ∙ (ap level (sym e) ∙ fresh)))) in
          rw other (rw apart (a, b))
    ];
    held = λ t up. elim (ℕ_discrete n t) [
      | yes e ↦ (p, below, sym e ∙ place, rw (==_refl p) refl)
      | no ne ↦
          let (q, lt, e, taken) = f.held t (rw (==_ne n t ne) at up) in
          (q, lt, e, still p q (s.heap q) taken)
    ];
  }
    where
      levels : (l : ℕ) → l + 1 ≡ 0 → ⊥
      levels l e = omega arith

      still : (p q : ℕ) (b : Bool) → b ≡ true → (if p == q then true else b) ≡ true
      still p q b e = ground (arith, e)

-- A table entered into one of the level above.
pub link-IsForest :
    (start : ℕ) (level key : ℕ → ℕ) (s : Tables) (t i n v : ℕ)
    → i < ptrs_per_table
    → level n ≡ level t + 1
    → key n ≡ key t * ptrs_per_table + i
    → page_mask v ≡ n
    → IsForest start level key s
    → IsForest start level key (record s { mem = set_word s.mem t i v })
link-IsForest start level key s t i n v small l k place f = record {
  root = f.root;
  child = λ u j up down lt nz. elim (ℕ_discrete t u) [
    | no ne ↦
        let other : (t == u) ≡ false = ==_ne t u ne in
        rw other (f.child u j up down lt (rw other at nz))
    | yes e ↦
        let same : (t == u) ≡ true = (==_iff t u).1 e in
        elim (ℕ_discrete i j) [
          | no ne ↦
              let apart : (i == j) ≡ false = ==_ne i j ne in
              rw (same, apart)
                (rw (sym e)
                  (f.child t j (rw (sym e) at up) (rw (sym e) at down) lt (rw (same, apart) at nz)))
          | yes q ↦ rw (same, (==_iff i j).1 q) (rw (place, sym e, sym q) (l, k))
        ]
  ];
  held = f.held;
}

-- The words after a page was cleared and entered.
unfoldable pub linked_words : (ℕ → ℕ → ℕ) → ℕ → ℕ → ℕ → ℕ → ℕ → ℕ → ℕ
linked_words mem n t x v = set_word (update mem n (λ _. 0)) t x v

-- An entry of 0 and an entry that points to an empty table are the same to a walk.
module _ (level : ℕ → ℕ) (mem : ℕ → ℕ → ℕ) (n t x v : ℕ) (fresh : level n ≡ 0) (up : 1 ≤ level t)
    (down : level t ≤ 2) (empty : mem t x ≡ 0) (place : page_mask v ≡ n) (used : v ≢ 0) where
  apart : (u l : ℕ) → level u ≡ suc l → (n == u) ≡ false
  apart u l e = ==_ne n u (λ q. absurd (clash (sym fresh ∙ (ap level q ∙ e))))
    where
      clash : 0 ≡ suc l → ⊥
      clash e = omega arith

  n-apart : (t == n) ≡ false
  n-apart = ==_ne t n (λ q. absurd (clash (rw q at up)))
    where
      clash : 1 ≤ level n → ⊥
      clash h = omega (arith, fresh)

  new_page : (y : ℕ) → linked_words mem n t x v n y ≡ 0
  unfolding linked_words
  new_page y = rw (n-apart, ==_refl n) refl

  new_word : linked_words mem n t x v t x ≡ v
  unfolding linked_words
  new_word = rw (==_refl t, ==_refl x) refl

  pub old_word :
      (u y : ℕ) → (n == u) ≡ false → ((t ≡ u) → (x ≢ y)) → linked_words mem n t x v u y ≡ mem u y
  unfolding linked_words
  old_word u y a d = elim (ℕ_discrete t u) [
    | no ne ↦ rw (==_ne t u ne, a) refl
    | yes e ↦ rw ((==_iff t u).1 e, ==_ne x y (d e), e, a) refl
  ]

  entry_below-linked :
      (u j k : ℕ)
      → level u ≡ 2
      → (mem u j ≢ 0 → level (page_mask (mem u j)) ≡ 3)
      → entry_below (linked_words mem n t x v) u j k ≡ entry_below mem u j k
  entry_below-linked u j k two three = elim (ℕ_discrete t u) [
    | no ne ↦ same (λ e. absurd (ne e))
    | yes e ↦ elim (ℕ_discrete x j) [
      | no ne ↦ same (λ _. ne)
      | yes q ↦
          let here : linked_words mem n t x v u j ≡ v = rw (sym e, sym q) new_word in
          let before : mem u j ≡ 0 = rw (sym e, sym q) empty in
          let lost : (mem u j == 0) ≡ true = (==_iff (mem u j) 0).1 before in
          let found : (linked_words mem n t x v u j == 0) ≡ false =
            ==_ne (linked_words mem n t x v u j) 0 (λ z. used (sym here ∙ z)) in
          let gone : (v == 0) ≡ false = ==_ne v 0 used in rw (lost, here, gone, place) (new_page k)
    ]
  ]
    where
      too_deep : level t ≡ 3 → ⊥
      too_deep e = omega arith

      same : (t ≡ u → x ≢ j) → entry_below (linked_words mem n t x v) u j k ≡ entry_below mem u j k
      same d =
          let kept : linked_words mem n t x v u j ≡ mem u j = old_word u j (apart u 1 two) d in
          elim (ℕ_discrete (mem u j) 0) [
            | yes z ↦ rw (kept, (==_iff (mem u j) 0).1 z) refl
            | no nz ↦
                let deep : level (page_mask (mem u j)) ≡ 3 = three nz in
                let below : (t ≡ page_mask (mem u j)) → (x ≢ k) =
                  λ e. absurd (too_deep (ap level e ∙ deep)) in
                rw (kept, ==_ne (mem u j) 0 nz)
                  (old_word (page_mask (mem u j)) k (apart _ 2 deep) below)
          ]

  pub entry_of-linked :
      (r i j k : ℕ)
      → level r ≡ 1
      → (mem r i ≢ 0 → level (page_mask (mem r i)) ≡ 2)
      → (mem r i ≢ 0
          → mem (page_mask (mem r i)) j ≢ 0
          → level (page_mask (mem (page_mask (mem r i)) j)) ≡ 3)
      → entry_of (linked_words mem n t x v) r i j k ≡ entry_of mem r i j k
  entry_of-linked r i j k one two three = elim (ℕ_discrete t r) [
    | no ne ↦ same (λ e. absurd (ne e))
    | yes e ↦ elim (ℕ_discrete x i) [
      | no ne ↦ same (λ _. ne)
      | yes q ↦
          let here : linked_words mem n t x v r i ≡ v = rw (sym e, sym q) new_word in
          let before : mem r i ≡ 0 = rw (sym e, sym q) empty in
          let lost : (mem r i == 0) ≡ true = (==_iff (mem r i) 0).1 before in
          let gone : (v == 0) ≡ false = ==_ne v 0 used in
          rw (lost, here, gone, place) (rw (new_page j) refl)
    ]
  ]
    where
      same : (t ≡ r → x ≢ i) → entry_of (linked_words mem n t x v) r i j k ≡ entry_of mem r i j k
      same d =
          let kept : linked_words mem n t x v r i ≡ mem r i = old_word r i (apart r 0 one) d in
          elim (ℕ_discrete (mem r i) 0) [
            | yes z ↦ rw (kept, (==_iff (mem r i) 0).1 z) refl
            | no nz ↦
                rw (kept, ==_ne (mem r i) 0 nz)
                  (entry_below-linked (page_mask (mem r i)) j k (two nz) (three nz))
          ]

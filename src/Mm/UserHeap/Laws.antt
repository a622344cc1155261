-- ===== src/Mm/UserHeap/Laws.antt =====
-- What a client of umm_malloc and umm_free relies on.
use evisor.Prelude.{
  ==_iff, Bool-cases, ap, arith, dec_lt, false, inl, inr, ltb, lt→ltb, map, none, not, refl, some,
  subst, suc, sym, true, u32_mod, u64_mod, zero, ℕ, ℕ_discrete, ◌%◌, ◌&&◌, ◌*◌, ◌+◌, ◌-◌, ◌/◌, ◌<◌,
  ◌==◌, ◌||◌, ◌∙◌, ◌≡◌, ◌≤◌, ◌⊎◌, ==_refl, ap₂, ==_ne,
}
use evisor.Prelude.Bits.{is_clear, is_clear-bit_or, is_clear-bit_and, bit_or-lt, bit_and-lt}
use evisor.Prelude.Outcome.{ok, panic}
use evisor.Mm.UserHeap.{
  UserHeap, page_size, paging_pages, is_free, take_page, give_page, scan, umm_malloc, page_index,
  umm_free,
}

pub record IsValid (h : UserHeap) : Type 0 where
  pub bytes : (j : ℕ) → h.map j < 256
  pub in_range : h.next ≤ paging_pages

-- The next free page at or after `i`.
pub record IsNext (n i : ℕ) (map : ℕ → ℕ) (p : ℕ) : Type 0 where
  pub from : i ≤ p
  pub below : p < i + n
  pub free : is_free map p ≡ true
  pub before : (j : ℕ) → i ≤ j → j < p → is_free map j ≡ false

abbrev pub AllTaken : ℕ → ℕ → (ℕ → ℕ) → Type 0
AllTaken n i map = (j : ℕ) → i ≤ j → j < i + n → is_free map j ≡ false

from_next :
    (map : ℕ → ℕ) (i b : ℕ)
    → is_free map i ≡ false
    → ((j : ℕ) → suc i ≤ j → j < b → is_free map j ≡ false)
    → (j : ℕ) → i ≤ j
    → j < b
    → is_free map j ≡ false
from_next map i b t later j h k = elim (ℕ_discrete j i) [
  | yes e ↦ subst (λ m. is_free map m ≡ false) (sym e) t
  | no ne ↦ later j (omega arith) k
]

scan_lem :
    (n i : ℕ) (map : ℕ → ℕ)
    → ((p : ℕ) × (scan n i map ≡ some p) × IsNext n i map p)
      ⊎ ((scan n i map ≡ none) × AllTaken n i map)
unfolding scan
scan_lem zero i map = inr (refl, λ j h k. absurd (omega arith))
scan_lem (suc n) i map = elim (Bool-cases (is_free map i)) [
  | inl free ↦ inl (
    i,
    rw free refl,
    record {
      from = omega arith;
      below = omega arith;
      free = free;
      before = λ j h k. absurd (omega arith);
    },
  )
  | inr taken ↦ elim (scan_lem n (suc i) map) [
    | inl (p, e, f) ↦ inl (
      p,
      rw taken e,
      record {
        from = omega (arith, f);
        below = omega (arith, f);
        free = f.free;
        before = from_next map i p taken f.before;
      },
    )
    | inr (e, all) ↦
        inr (rw taken e, λ j h k. from_next map i (suc i + n) taken all j h (omega arith))
  ]
]

same_bit : (p q : ℕ) → q / 8 ≡ p / 8 → (q % 8 == p % 8) ≡ (q == p)
same_bit p q e = ground arith

-- Taking a page takes that page alone.
pub is_free-take_page :
    (map : ℕ → ℕ) (p q : ℕ)
    → ((j : ℕ) → map j < 256)
    → is_free (take_page map p) q ≡ (not (q == p) && is_free map q)
is_free-take_page map p q b = elim (ℕ_discrete (q / 8) (p / 8)) [
  | yes e ↦
      rw (e, ==_refl)
        (is_clear-bit_or (map (p / 8)) (p % 8) (q % 8) (b (p / 8)) (omega arith) (omega arith)
          ∙ ap (λ c. not c && is_clear (map (p / 8)) (q % 8)) (same_bit p q e))
  | no ne ↦
      rw (==_ne (p / 8) (q / 8) (λ e. ne (sym e)), ==_ne q p (λ e. ne (ap (λ (m : ℕ). m / 8) e)))
        refl
]

-- Giving a page back frees that page alone.
pub is_free-give_page :
    (map : ℕ → ℕ) (p q : ℕ)
    → ((j : ℕ) → map j < 256)
    → is_free (give_page map p) q ≡ (q == p || is_free map q)
is_free-give_page map p q b = elim (ℕ_discrete (q / 8) (p / 8)) [
  | yes e ↦
      rw (e, ==_refl)
        (is_clear-bit_and (map (p / 8)) (p % 8) (q % 8) (b (p / 8)) (omega arith) (omega arith)
          ∙ ap (λ c. c || is_clear (map (p / 8)) (q % 8)) (same_bit p q e))
  | no ne ↦
      rw (==_ne (p / 8) (q / 8) (λ e. ne (sym e)), ==_ne q p (λ e. ne (ap (λ (m : ℕ). m / 8) e)))
        refl
]

take_page-bytes :
    (map : ℕ → ℕ) (p : ℕ) → ((j : ℕ) → map j < 256) → (j : ℕ) → take_page map p j < 256
take_page-bytes map p b j = elim (ℕ_discrete (p / 8) j) [
  | yes e ↦ rw (← e, ==_refl) (bit_or-lt (map (p / 8)) (p % 8) (b (p / 8)) (omega arith))
  | no ne ↦ rw (==_ne (p / 8) j ne) (b j)
]

give_page-bytes :
    (map : ℕ → ℕ) (p : ℕ) → ((j : ℕ) → map j < 256) → (j : ℕ) → give_page map p j < 256
give_page-bytes map p b j = elim (ℕ_discrete (p / 8) j) [
  | yes e ↦ rw (← e, ==_refl) (bit_and-lt (map (p / 8)) (p % 8) (b (p / 8)) (omega arith))
  | no ne ↦ rw (==_ne (p / 8) j ne) (b j)
]

-- What is asked for whole pages.
abbrev pub IsPages : ℕ → Type 0
IsPages size = (page_size ≤ size) × (size % page_size ≡ 0)

big_enough : (size : ℕ) → page_size ≤ size → ltb size page_size ≡ false
big_enough size h = ground arith

module _ (start : ℕ) (fits : start + paging_pages * page_size ≤ u64_mod) where
  -- The heap after the page `p` was taken.
  abbrev pub taken : UserHeap → ℕ → UserHeap
  taken h p = record { map = take_page h.map p; next = p + 1 }

  -- What a request for whole pages does, and what the heap is after it.
  pub record Allocated (h : UserHeap) (p : ℕ) : Type 0 where
    pub first : IsNext (paging_pages - h.next) h.next h.map p
    pub marked : (q : ℕ) → is_free (taken h p).map q ≡ (not (q == p) && is_free h.map q)
    pub valid : IsValid (taken h p)

  address :
      (p : ℕ)
      → p < paging_pages
      → (start + p * page_size % u32_mod) % u64_mod ≡ start + p * page_size
  address p h = omega arith

  scanned :
      (size : ℕ) (h : UserHeap)
      → IsPages size
      → umm_malloc start size h ≡ elim (scan (paging_pages - h.next) h.next h.map) [
        | none ↦ panic
        | some i ↦ ok (
          (start + i * page_size % u32_mod) % u64_mod,
          record { map = take_page h.map i; next = (i + 1) % u32_mod },
        )
      ]
  unfolding umm_malloc
  scanned size h s = rw (big_enough size s.0, (==_iff (size % page_size) 0).1 s.1, umm_malloc) refl

  -- From a valid heap a request for whole pages takes the lowest free page at or after `nextFreeSpaceIndex`, marks it
  -- and no other, and moves the index past it; it stops in PANIC exactly when no such page is free.
  pub umm_malloc_fresh :
      (size : ℕ) (h : UserHeap)
      → IsPages size
      → IsValid h
      → ((p : ℕ) × (umm_malloc start size h ≡ ok (start + p * page_size, taken h p))
          × Allocated h p)
        ⊎ ((umm_malloc start size h ≡ panic) × AllTaken (paging_pages - h.next) h.next h.map)
  umm_malloc_fresh size h s v = elim (scan_lem (paging_pages - h.next) h.next h.map) [
    | inl (p, e, f) ↦ inl (
      p,
      scanned size h s
          ∙ rw e (
              ap₂ (λ a n. ok (a, record { map = take_page h.map p; next = n }))
                (address p (omega (arith, f, v))) (omega (arith, f, v))),
      record {
        first = f;
        marked = λ q. is_free-take_page h.map p q v.bytes;
        valid = record { bytes = take_page-bytes h.map p v.bytes; in_range = omega (arith, f, v) };
      },
    )
    | inr (e, all) ↦ inr (scanned size h s ∙ rw e refl, all)
  ]

  page_index-address : (p : ℕ) → p < paging_pages → page_index start (start + p * page_size) ≡ p
  unfolding page_index
  page_index-address p h = omega arith

  -- In a valid heap, freeing the address of a page frees that page alone and leaves `nextFreeSpaceIndex`.
  pub umm_free_lem :
      (p : ℕ) (h : UserHeap)
      → p < paging_pages
      → IsValid h
      → (h' : UserHeap) × (umm_free start (start + p * page_size) h ≡ ok h')
        × ((q : ℕ) → is_free h'.map q ≡ (q == p || is_free h.map q))
        × (h'.next ≡ h.next)
        × IsValid h'
  unfolding umm_free
  umm_free_lem p h k v = (
    record h { map = give_page h.map p },
    rw (page_index-address p k, lt→ltb (p / 8) paging_pages (omega arith)),
    (λ q. is_free-give_page h.map p q v.bytes),
    refl,
    record { bytes = give_page-bytes h.map p v.bytes; in_range = v.in_range },
  )

-- A request that is not for whole pages returns null and changes nothing.
pub umm_malloc_refused :
    (start size : ℕ) (h : UserHeap) → ¬ (IsPages size) → umm_malloc start size h ≡ ok (0, h)
unfolding umm_malloc
umm_malloc_refused start size h n = elim (dec_lt size page_size) [
  | yes k ↦ rw (lt→ltb size page_size k) refl
  | no k ↦ elim (ℕ_discrete (size % page_size) 0) [
    | yes e ↦ absurd (n (omega arith, e))
    | no ne ↦ rw (big_enough size (omega arith), ==_ne (size % page_size) 0 ne, umm_malloc) refl
  ]
]

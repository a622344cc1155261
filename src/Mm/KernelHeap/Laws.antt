-- ===== src/Mm/KernelHeap/Laws.antt =====
-- What a client of kmm_malloc and kmm_free relies on.
use evisor.Prelude.{
  Bool, Bool-cases, ap, arith, false, fun_ext, inl, inr, ltb, lt→ltb, none, refl, some, suc, true,
  u32_mod, u64_mod, update, zero, ℕ, ℕ_discrete, ◌%◌, ◌*◌, ◌+◌, ◌<◌, ◌≡◌, ◌≤◌, ◌⊎◌,
}
use evisor.Prelude.Outcome.{ok, panic}
use evisor.Mm.KernelHeap.{page_size, heap_pages, first_free, kmm_malloc, page_index, kmm_free}

-- The first free page of a range: it is free and in the range, and all before it are taken.
pub record IsFirst (n i : ℕ) (used : ℕ → Bool) (p : ℕ) : Type 0 where
  pub from : i ≤ p
  pub below : p < i + n
  pub free : used p ≡ false
  pub before : (j : ℕ) → i ≤ j → j < p → used j ≡ true

abbrev pub AllTaken : ℕ → ℕ → (ℕ → Bool) → Type 0
AllTaken n i used = (j : ℕ) → i ≤ j → j < i + n → used j ≡ true

-- From a fact about `i` and one about all later numbers to one about all from `i` on.
from_next :
    (used : ℕ → Bool) (i b : ℕ)
    → used i ≡ true
    → ((j : ℕ) → suc i ≤ j → j < b → used j ≡ true)
    → (j : ℕ) → i ≤ j
    → j < b
    → used j ≡ true
from_next used i b t later j h k = elim (ℕ_discrete j i) [
  | yes e ↦ rw e t
  | no ne ↦ later j (omega arith) k
]

pub first_free_lem :
    (n i : ℕ) (used : ℕ → Bool)
    → ((p : ℕ) × (first_free n i used ≡ some p) × IsFirst n i used p)
      ⊎ ((first_free n i used ≡ none) × AllTaken n i used)
unfolding first_free
first_free_lem zero i used = inr (refl, λ j h k. absurd (omega arith))
first_free_lem (suc n) i used = elim (Bool-cases (used i)) [
  | inr free ↦ inl (
    i,
    rw free refl,
    record {
      from = omega arith;
      below = omega arith;
      free = free;
      before = λ j h k. absurd (omega arith);
    },
  )
  | inl taken ↦ elim (first_free_lem n (suc i) used) [
    | inl (p, e, f) ↦ inl (
      p,
      rw taken e,
      record {
        from = omega (arith, f);
        below = omega (arith, f);
        free = f.free;
        before = from_next used i p taken f.before;
      },
    )
    | inr (e, all) ↦
        inr (rw taken e, λ j h k. from_next used i (suc i + n) taken all j h (omega arith))
  ]
]

not_small : (size : ℕ) → 0 < size → ltb size 1 ≡ false
not_small size h = ground arith

module _ (start : ℕ) (fits : start + heap_pages * page_size ≤ u64_mod) where
  address :
      (p : ℕ) → p < heap_pages → (start + p * page_size % u32_mod) % u64_mod ≡ start + p * page_size
  address p h = omega arith

  malloc_some :
      (size p : ℕ) (used : ℕ → Bool)
      → 0 < size
      → p < heap_pages
      → first_free heap_pages 0 used ≡ some p
      → kmm_malloc start size used ≡ ok (start + p * page_size, update used p true)
  unfolding kmm_malloc
  malloc_some size p used h k e =
      rw (not_small size h, e, kmm_malloc) (ap (λ a. ok (a, update used p true)) (address p k))

  -- A request of at least one byte takes the lowest free page, which no earlier request holds, and returns its address;
  -- it stops in PANIC exactly when all 16384 pages are taken.
  pub kmm_malloc_fresh :
      (size : ℕ) (used : ℕ → Bool)
      → 0 < size
      → ((p : ℕ) × (kmm_malloc start size used ≡ ok (start + p * page_size, update used p true))
          × IsFirst heap_pages 0 used p)
        ⊎ ((kmm_malloc start size used ≡ panic) × AllTaken heap_pages 0 used)
  unfolding kmm_malloc
  kmm_malloc_fresh size used h = elim (first_free_lem heap_pages 0 used) [
    | inl (p, e, f) ↦ inl (p, malloc_some size p used h (omega (arith, f)) e, f)
    | inr (e, all) ↦ inr (rw (not_small size h, e, kmm_malloc) refl, all)
  ]

  page_index-address : (p : ℕ) → p < heap_pages → page_index start (start + p * page_size) ≡ p
  unfolding page_index
  page_index-address p h = omega arith

  free_lem :
      (p : ℕ) (used : ℕ → Bool)
      → p < heap_pages
      → kmm_free start (start + p * page_size) used ≡ ok (update used p false)
  unfolding kmm_free
  free_lem p used h = rw (page_index-address p h, lt→ltb p heap_pages h)

  -- Freeing what a request returned takes the map back to what it was.
  pub kmm_free-kmm_malloc :
      (size va : ℕ) (used used' : ℕ → Bool)
      → 0 < size
      → kmm_malloc start size used ≡ ok (va, used')
      → (used'' : ℕ → Bool) × (kmm_free start va used' ≡ ok used'') × (used'' ≡ used)
  kmm_free-kmm_malloc size va used used' h m = elim (kmm_malloc_fresh size used h) [
    | inl (p, e, f) ↦
        let same : va ≡ start + p * page_size = cc in
        let marked : used' ≡ update used p true = cc in
        (
          update (update used p true) p false,
          rw (same, marked) (free_lem p (update used p true) (omega (arith, f))),
          fun_ext (restored p f.free),
        )
    | inr (e, all) ↦ cc
  ]
    where
      restored : (p : ℕ) → used p ≡ false → (j : ℕ) → update (update used p true) p false j ≡ used j
      restored p free j = ground arith

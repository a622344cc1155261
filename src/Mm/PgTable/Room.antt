-- ===== src/Mm/PgTable/Room.antt =====
-- How many pages of the heap are free, and how many the making of tables takes.
use evisor.Prelude.{
  Bool, false, refl, arith, if◌then◌else◌, ltb, suc, true, zero, ℕ, ℕ_discrete, ◌+◌, ◌<◌, ◌≡◌, ◌≢◌,
  ◌≤◌,
}
use evisor.Mm.KernelHeap.{heap_pages}

-- The free pages of the first `n`.
abbrev is_room : Bool → ℕ
is_room used = if used then 0 else 1

unfoldable pub free_pages : ℕ → (ℕ → Bool) → ℕ
free_pages zero used = 0
free_pages (suc n) used = is_room (used n) + free_pages n used

-- A heap of which nothing was taken.
pub free_pages-none : (n : ℕ) → free_pages n (λ _. false) ≡ n
unfolding free_pages
free_pages-none zero = refl
free_pages-none (suc n) = omega (arith, free_pages-none n)

abbrev below : ℕ → ℕ → ℕ
below p n = if ltb p n then 1 else 0

-- A heap that differs in one page has lost one page at most.
free_pages-but_one :
    (n p : ℕ) (used used' : ℕ → Bool)
    → ((q : ℕ) → q ≢ p → used' q ≡ used q)
    → free_pages n used ≤ free_pages n used' + below p n
unfolding free_pages
free_pages-but_one zero p used used' same = omega arith
free_pages-but_one (suc n) p used used' same =
    let rest = free_pages-but_one n p used used' same in
    elim (ℕ_discrete n p) [
      | yes e ↦ ground (arith, rest)
      | no ne ↦ rw (same n ne) (ground (arith, rest))
    ]

-- A heap in which all pages but two are taken has at most two left.
free_pages-but_two :
    (n p q : ℕ) (used : ℕ → Bool)
    → ((x : ℕ) → x < n → x ≢ p → x ≢ q → used x ≡ true)
    → free_pages n used ≤ below p n + below q n
unfolding free_pages
free_pages-but_two zero p q used all = omega arith
free_pages-but_two (suc n) p q used all =
    let rest = free_pages-but_two n p q used (λ x lt a b. all x (omega arith) a b) in
    elim (ℕ_discrete n p) [
      | yes e ↦ ground (arith, rest)
      | no ne ↦ elim (ℕ_discrete n q) [
        | yes e ↦ ground (arith, rest)
        | no ne' ↦ rw (all n (omega arith) ne ne') (ground (arith, rest))
      ]
    ]

pub room-one :
    (p : ℕ) (used used' : ℕ → Bool)
    → ((q : ℕ) → q ≢ p → used' q ≡ used q)
    → free_pages heap_pages used ≤ free_pages heap_pages used' + 1
room-one p used used' same =
    omega (arith, free_pages-but_one heap_pages p used used' same, at_most_one p heap_pages)
  where
    at_most_one : (p n : ℕ) → below p n ≤ 1
    at_most_one p n = ground arith

pub room-full :
    (p q : ℕ) (used : ℕ → Bool)
    → ((x : ℕ) → x < heap_pages → x ≢ p → x ≢ q → used x ≡ true)
    → free_pages heap_pages used ≤ 2
room-full p q used all = omega (
  arith,
  free_pages-but_two heap_pages p q used all,
  at_most_one p heap_pages,
  at_most_one q heap_pages,
)
  where
    at_most_one : (p n : ℕ) → below p n ≤ 1
    at_most_one p n = ground arith

-- ===== src/Mm/UserHeap/Reuse.antt =====
-- What the search from nextFreeSpaceIndex means for a sequence of calls.
use evisor.Prelude.{
  ap, arith, dec_lt, false, inl, inr, sym, true, u64_mod, ℕ, ◌*◌, ◌+◌, ◌-◌, ◌<◌, ◌∙◌, ◌≡◌, ◌≤◌,
}
use evisor.Prelude.Outcome.{ok}
use evisor.Mm.UserHeap.{UserHeap, page_size, paging_pages, is_free, umm_malloc, umm_free}
use evisor.Mm.UserHeap.Laws.{
  IsValid, IsPages, Allocated, taken, umm_malloc_fresh, umm_free_lem, IsNext,
}

-- A free page at the index itself is the one that the search finds.
first_page :
    (h : UserHeap) (q : ℕ)
    → is_free h.map h.next ≡ true
    → IsNext (paging_pages - h.next) h.next h.map q
    → q ≡ h.next
first_page h q free f = elim (dec_lt h.next q) [
  | yes k ↦ absurd (clash (sym free ∙ f.before h.next (omega arith) k))
  | no k ↦ omega (arith, f)
]
  where
    clash : true ≡ false → ⊥
    clash e = cc

module _ (start : ℕ) where
  -- A call of the allocator: a request for whole pages, or the release of a page of the heap.
  pub data Step (h : UserHeap) : UserHeap → Type 0 where
    alloc :
        {h' : UserHeap} (size va : ℕ)
        → IsPages size
        → umm_malloc start size h ≡ ok (va, h')
        → Step h h'
    release :
        {h' : UserHeap} (p : ℕ)
        → p < paging_pages
        → umm_free start (start + p * page_size) h ≡ ok h'
        → Step h h'

  pub data Reach (h : UserHeap) : UserHeap → Type 0 where
    here : Reach h h
    next : {g h' : UserHeap} → Reach h g → Step g h' → Reach h h'

  module _ (fits : start + paging_pages * page_size ≤ u64_mod) where
    -- What a request that returned has done.
    alloc_inv :
        (size va : ℕ) (h h' : UserHeap)
        → IsPages size
        → IsValid h
        → umm_malloc start size h ≡ ok (va, h')
        → (p : ℕ) × (va ≡ start + p * page_size)
          × (h' ≡ taken start fits h p)
          × Allocated start fits h p
    alloc_inv size va h h' s v e = elim (umm_malloc_fresh start fits size h s v) [
      | inl (p, m, a) ↦ (p, cc, cc, a)
      | inr (m, all) ↦ cc
    ]

    -- Every call keeps the heap valid and never moves `nextFreeSpaceIndex` back.
    pub Step-IsValid : {h h' : UserHeap} → Step h h' → IsValid h → IsValid h' × (h.next ≤ h'.next)
    Step-IsValid {h} {h'} (alloc size va s e) v =
        let (p, a, m, r) = alloc_inv size va h h' s v e in
        (rw m r.valid, rw m (omega (arith, r.first)))
    Step-IsValid {h} {h'} (release p k e) v =
        let (g, e', b, n, w) = umm_free_lem start fits p h k v in
        let same : h' ≡ g = cc in (rw same w, rw same (omega (arith, n)))

    pub Reach-IsValid : {h h' : UserHeap} → Reach h h' → IsValid h → IsValid h' × (h.next ≤ h'.next)
    Reach-IsValid here v = (v, omega arith)
    Reach-IsValid (next r st) v =
        let (w, k) = Reach-IsValid r v in let (w', k') = Step-IsValid st w in (w', omega arith)

    -- In a valid heap that ends within 64 bits, whatever requests and releases come between two
    -- requests for whole pages, the later address lies at least a page behind the earlier one: no
    -- address is handed out twice, not even one that was freed. A block of a single page ends before
    -- every later address.
    pub umm_malloc_later :
        (size size' va va' : ℕ) (h h' g g' : UserHeap)
        → IsPages size
        → IsPages size'
        → IsValid h
        → umm_malloc start size h ≡ ok (va, h')
        → Reach h' g
        → umm_malloc start size' g ≡ ok (va', g')
        → va + page_size ≤ va'
    umm_malloc_later size size' va va' h h' g g' s s' v e r e' =
        let (p, a, m, x) = alloc_inv size va h h' s v e in
        let valid : IsValid h' = rw m x.valid in
        let moved : h'.next ≡ p + 1 = ap (λ (z : UserHeap). z.next) m in
        let (w, k) = Reach-IsValid r valid in
        let (p', a', m', x') = alloc_inv size' va' g g' s' w e' in
        omega (arith, a, a', moved, k, x'.first.from)

    -- A request for several pages reserves the first only: where the page behind it is free, the
    -- next request gets an address inside the block just returned.
    pub umm_malloc_overlap :
        (size size' va : ℕ) (h h' : UserHeap)
        → IsPages size
        → page_size < size
        → IsPages size'
        → IsValid h
        → umm_malloc start size h ≡ ok (va, h')
        → h'.next < paging_pages
        → is_free h'.map h'.next ≡ true
        → (va' : ℕ) × (g : UserHeap) × (umm_malloc start size' h' ≡ ok (va', g))
          × (va < va')
          × (va' < va + size)
    umm_malloc_overlap size size' va h h' s big s' v e k free =
        let (p, a, m, x) = alloc_inv size va h h' s v e in
        let valid : IsValid h' = rw m x.valid in
        let moved : h'.next ≡ p + 1 = ap (λ (z : UserHeap). z.next) m in
        elim (umm_malloc_fresh start fits size' h' s' valid) [
          | inl (q, f, y) ↦
              let at : q ≡ p + 1 = first_page h' q free y.first ∙ moved in
              (
                start + q * page_size,
                taken start fits h' q,
                f,
                omega (arith, at, a),
                omega (arith, at, a, big),
              )
          | inr (f, all) ↦ cc (sym free ∙ all h'.next (omega arith) (omega arith))
        ]

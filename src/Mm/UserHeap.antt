-- ===== src/Mm/UserHeap.antt =====
-- src/mm/user_heap/umm_malloc.cc: the pages given to the guests, one bit for each.
-- `map` is `userMemoryRegionMap_`, byte by byte, and `next` is `nextFreeSpaceIndex`; the address
-- `kUserStart` is a parameter.
pub mod Laws
pub mod Reuse
mod Tests
use evisor.Prelude.{
  ==_iff, All, All-append, All-get, All-map, All-set, Bool, Bool-cases, List, Option, Option-cases,
  [], ap, append-nil, append_assoc, arith, bit_and, bit_or, dec_le, dec_lt, false, fun_ext,
  get_elem?, get_elem?-lt, get_elem?-set_ne, get_elem?-set_self, get_elem?-some, if◌then◌else◌, inl,
  inr, leb, leb→le, length, length-append, length-map, length-replicate, length-set, ltb, ltb→lt,
  lt→ltb, map, none, not, refl, replicate, set, some, subst, suc, sym, take, true, u16_mod, u32_mod,
  u64_mod, u8_mod, update, zero, ℕ, ℕ_discrete, ◌%◌, ◌&&◌, ◌*◌, ◌++◌, ◌+◌, ◌-◌, ◌/◌, ◌<◌, ◌==◌, ◌^◌,
  ◌||◌, ◌↔◌, ◌∙◌, ◌∷◌, ◌≡◌, ◌≢◌, ◌≤◌, ◌⊎◌,
}
use evisor.Prelude.Bits.{is_clear}
use evisor.Prelude.Outcome.{Outcome, ok, panic, fault}

abbrev pub page_size : ℕ
page_size = 4096

-- `kPagingPages`
abbrev pub paging_pages : ℕ
paging_pages = 1024 * 1024 * 1024 * 2 / page_size

pub record UserHeap : Type 0 where
  pub map : ℕ → ℕ
  pub next : ℕ

-- `(userMemoryRegionMap_[i / 8] & (1 << (i % 8))) == 0`
abbrev pub is_free : (ℕ → ℕ) → ℕ → Bool
is_free map i = is_clear (map (i / 8)) (i % 8)

-- `userMemoryRegionMap_[i / 8] |= 1 << (i % 8)`
abbrev pub take_page : (ℕ → ℕ) → ℕ → ℕ → ℕ
take_page map i = update map (i / 8) (bit_or (map (i / 8)) (2 ^ (i % 8)))

-- `userMemoryRegionMap_[i / 8] &= ~(1 << (i % 8))`, in a byte
abbrev pub give_page : (ℕ → ℕ) → ℕ → ℕ → ℕ
give_page map i = update map (i / 8) (bit_and (map (i / 8)) (255 - 2 ^ (i % 8)))

-- The loop: the first free page of the `n` from `i` on.
pub scan : ℕ → ℕ → (ℕ → ℕ) → Option ℕ
scan zero i map = none
scan (suc n) i map = let rest = scan n (suc i) map in if is_free map i then some i else rest

module _ (start : ℕ) where
  -- The address returned (0 is null) and the heap after the call.
  pub umm_malloc : ℕ → UserHeap → Outcome (ℕ × UserHeap)
  umm_malloc size h =
      if ltb size page_size
      then ok (0, h)
      else if not (size % page_size == 0)
      then ok (0, h)
      else elim (scan (paging_pages - h.next) h.next h.map) [
        | none ↦ panic
        | some i ↦ ok (
          (start + i * page_size % u32_mod) % u64_mod,
          record { map = take_page h.map i; next = (i + 1) % u32_mod },
        )
      ]

  -- The page that an address lies in, as a `uint32_t`.
  pub page_index : ℕ → ℕ
  page_index va = (va + u64_mod - start) % u64_mod / page_size % u32_mod

  pub umm_free : ℕ → UserHeap → Outcome UserHeap
  umm_free va h =
      let page = page_index va in
      if ltb (page / 8) paging_pages then ok (record h { map = give_page h.map page }) else fault

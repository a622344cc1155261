-- ===== src/Mm/KernelHeap.antt =====
-- src/mm/heap/kmm_malloc.cc: the hypervisor's heap, one page for each request.
-- `map` is `kernelHeapMemMap`; the address `kHeapStart` is a parameter.
pub mod Laws
mod Tests
use evisor.Prelude.{
  ==_iff, All, All-append, All-get, All-map, All-set, Bool, Bool-cases, List, Option, Option-cases,
  [], ap, append-nil, append_assoc, arith, bit_and, bit_or, dec_le, dec_lt, false, fun_ext,
  get_elem?, get_elem?-lt, get_elem?-set_ne, get_elem?-set_self, get_elem?-some, if◌then◌else◌, inl,
  inr, leb, leb→le, length, length-append, length-map, length-replicate, length-set, ltb, ltb→lt,
  lt→ltb, map, none, not, refl, replicate, set, some, subst, suc, sym, take, true, u16_mod, u32_mod,
  u64_mod, u8_mod, update, zero, ℕ, ℕ_discrete, ◌%◌, ◌&&◌, ◌*◌, ◌++◌, ◌+◌, ◌-◌, ◌/◌, ◌<◌, ◌==◌, ◌^◌,
  ◌||◌, ◌↔◌, ◌∙◌, ◌∷◌, ◌≡◌, ◌≢◌, ◌≤◌, ◌⊎◌,
}
use evisor.Prelude.Outcome.{Outcome, ok, panic, fault}

-- `PAGE_SIZE` and `HEAP_PAGES`
abbrev pub page_size : ℕ
page_size = 4096

abbrev pub heap_pages : ℕ
heap_pages = 1024 * 1024 * 64 / page_size

-- The loop over the map: the first free page of the `n` from `i` on.
unfoldable pub first_free : ℕ → ℕ → (ℕ → Bool) → Option ℕ
first_free zero i map = none
first_free (suc n) i map = let rest = first_free n (suc i) map in if map i then rest else some i

module _ (start : ℕ) where
  -- The address returned (0 is null) and the map after the call.
  unfoldable pub kmm_malloc : ℕ → (ℕ → Bool) → Outcome (ℕ × (ℕ → Bool))
  kmm_malloc size map = if ltb size 1 then ok (0, map) else elim (first_free heap_pages 0 map) [
    | none ↦ panic
    | some i ↦ ok ((start + i * page_size % u32_mod) % u64_mod, update map i true)
  ]

  -- The page that an address lies in.
  pub page_index : ℕ → ℕ
  page_index va = (va + u64_mod - start) % u64_mod / page_size

  pub kmm_free : ℕ → (ℕ → Bool) → Outcome (ℕ → Bool)
  kmm_free va map =
      if ltb (page_index va) heap_pages then ok (update map (page_index va) false) else fault

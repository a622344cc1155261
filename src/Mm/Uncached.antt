-- ===== src/Mm/Uncached.antt =====
-- src/mm/uncached/kmm_uncached_malloc.cc and src/mm/mm_local.h: memory for the drivers, in blocks of
-- pages. The address `kUncachedStart` is a parameter.
pub mod Release
mod Tests
use evisor.Prelude.{
  ==_iff, ==_ne, ==_refl, All, All-append, All-get, All-map, All-set, Bool, Bool-cases, List,
  Option, Option-cases, [], ap, append-nil, append_assoc, ap₂, arith, bit_and, bit_or, dec_le,
  dec_lt, false, fun_ext, get_elem?, get_elem?-lt, get_elem?-set_ne, get_elem?-set_self,
  get_elem?-some, if◌then◌else◌, inl, inr, leb, leb→le, length, length-append, length-map,
  length-replicate, length-set, ltb, ltb→lt, lt→ltb, map, none, not, refl, replicate, set, some,
  subst, suc, sym, take, true, u16_mod, u32_mod, u64_mod, u8_mod, update, zero, ℕ, ℕ_discrete, ◌%◌,
  ◌&&◌, ◌*◌, ◌++◌, ◌+◌, ◌-◌, ◌/◌, ◌<◌, ◌==◌, ◌^◌, ◌||◌, ◌↔◌, ◌∙◌, ◌∷◌, ◌≡◌, ◌≢◌, ◌≤◌, ◌⊎◌,
}
use evisor.Prelude.Outcome.{Outcome, ok, panic, fault, ◌>>=◌}

-- `kRegionPageNums`
abbrev pub region_page_nums : ℕ
region_page_nums = 1024 * 1024 / 4096

-- `kernelUncachedMemoryRegionMap_`: the members of the `PageBlock` of each page.
pub record Region : Type 0 where
  pub size : ℕ → ℕ
  pub ref_count : ℕ → ℕ

-- `kmm_is_spaces_available` for `n` pages from `i` on; it reads behind the map where a block would
-- reach beyond it.
unfoldable pub is_spaces_available : Region → ℕ → ℕ → Outcome Bool
is_spaces_available r zero i = ok true
is_spaces_available r (suc n) i =
    let rest = is_spaces_available r n (i + 1) in
    if not (ltb i region_page_nums) then fault else if r.ref_count i == 0 then rest else ok false

-- The inner loop of `kmm_uncached_malloc` for `n` pages from `i` on.
unfoldable pub take_pages : ℕ → ℕ → ℕ → Region → Region
take_pages num_pages zero i r = r
take_pages num_pages (suc n) i r = take_pages num_pages n (i + 1) (record {
  size = update r.size i num_pages;
  ref_count = update r.ref_count i ((r.ref_count i + 1) % u8_mod);
})

-- The outer loop for the `n` pages from `i` on: the page where the block starts.
unfoldable pub search : Region → ℕ → ℕ → ℕ → Outcome ℕ
search r num_pages zero i = panic
search r num_pages (suc n) i =
    let rest = search r num_pages n (i + 1) in
    is_spaces_available r num_pages i >>= λ free. if free then ok i else rest

-- `__builtin_align_up(size, PAGE_SIZE) / PAGE_SIZE`
abbrev pub pages_of : ℕ → ℕ
pages_of size = (size + 4095) / 4096

module _ (start : ℕ) where
  unfoldable pub kmm_uncached_malloc : ℕ → Region → Outcome (ℕ × Region)
  kmm_uncached_malloc size r =
      if not (leb 1 size)
      then panic
      else search r (pages_of size) region_page_nums 0 >>= λ i.
          ok ((start + i * 4096) % u64_mod, take_pages (pages_of size) (pages_of size) i r)

-- The loop of `kmm_uncached_free`, which takes the page `i` in each of its `n` turns.
unfoldable pub release : ℕ → ℕ → Region → Region
release zero i r = r
release (suc n) i r = release n i (record {
  size = update r.size i 0;
  ref_count = update r.ref_count i ((r.ref_count i + (u8_mod - 1)) % u8_mod);
})

module _ (start : ℕ) where
  unfoldable pub kmm_uncached_free : ℕ → Region → Outcome Region
  kmm_uncached_free va r =
      let i = (va + u64_mod - start) % u64_mod / 4096 in
      if va == 0
      then panic
      else if ltb i region_page_nums
      then ok (release (r.size i) i r)
      else fault

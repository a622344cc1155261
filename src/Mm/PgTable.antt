-- ===== src/Mm/PgTable.antt =====
-- src/mm/pgtable_stage1.cc, src/mm/pgtable_stage2.cc and src/mm/heap/kmm_zalloc.cc: the page tables
-- that translate the addresses of the guests. A table is a page of the hypervisor's heap, of which
-- `mem` gives the 64-bit words. The flushes of the cache and of the translation buffer are left out.
pub mod Forest
pub mod Link
pub mod Extend
pub mod Create
pub mod First
pub mod Room
pub mod Route
pub mod Map
pub mod Space
mod Tests
use evisor.Prelude.{
  ==_iff, ==_ne, ==_refl, All, All-append, All-get, All-map, All-set, Bool, Bool-cases, List,
  Option, Option-cases, [], ap, append-nil, append_assoc, ap₂, arith, bit_and, bit_or, dec_le,
  dec_lt, false, fun_ext, get_elem?, get_elem?-lt, get_elem?-set_ne, get_elem?-set_self,
  get_elem?-some, if◌then◌else◌, inl, inr, leb, leb→le, length, length-append, length-map,
  length-replicate, length-set, ltb, ltb→lt, lt→ltb, map, none, not, refl, replicate, set, some,
  subst, suc, sym, take, true, u16_mod, u32_mod, u64_mod, u8_mod, update, zero, ℕ, ℕ_discrete, ◌%◌,
  ◌&&◌, ◌*◌, ◌++◌, ◌+◌, ◌-◌, ◌/◌, ◌<◌, ◌==◌, ◌^◌, ◌||◌, ◌↔◌, ◌∙◌, ◌∷◌, ◌≡◌, ◌≢◌, ◌≤◌, ◌⊎◌,
}
use evisor.Prelude.Outcome.{Outcome, ok, panic, fault, ◌>>=◌}
use evisor.Kernel.Task.{MmContext}
use evisor.Mm.KernelHeap.{page_size, kmm_malloc}

pub record Tables : Type 0 where
  pub heap : ℕ → Bool
  pub mem : ℕ → ℕ → ℕ

-- A word of a page written.
abbrev pub set_word : (ℕ → ℕ → ℕ) → ℕ → ℕ → ℕ → ℕ → ℕ → ℕ
set_word mem page i v = update mem page (update (mem page) i v)

-- `PTRS_PER_TABLE`, `LV1_SHIFT`, `LV2_SHIFT` and `PAGE_SHIFT`
abbrev pub ptrs_per_table : ℕ
ptrs_per_table = 512

abbrev pub lv1_shift : ℕ
lv1_shift = 30

abbrev pub lv2_shift : ℕ
lv2_shift = 21

abbrev pub page_shift : ℕ
page_shift = 12

-- `(ipa >> shift) & (PTRS_PER_TABLE - 1)`
abbrev pub table_index : ℕ → ℕ → ℕ
table_index ipa shift = ipa / 2 ^ shift % ptrs_per_table

-- `& PAGE_MASK`
abbrev pub page_mask : ℕ → ℕ
page_mask a = a - a % 2 ^ 12

-- `kStage2PteDram`, `kStage2PteDeviceNotAccessible` and `kStage2PteDeviceAccessible`
abbrev pub pte_dram : ℕ
pte_dram = 0x7ff

abbrev pub pte_device_not_accessible : ℕ
pte_device_not_accessible = 0x403

abbrev pub pte_device_accessible : ℕ
pte_device_accessible = 0x4c3

-- `SetPageTableEntry`: the address of the entry, and the words after the call.
abbrev pub set_page_table_entry : (ℕ → ℕ → ℕ) → ℕ → ℕ → ℕ → ℕ → ℕ × (ℕ → ℕ → ℕ)
set_page_table_entry mem pte ipa pa flags =
    let index = table_index ipa page_shift in
    (pte + 8 * index, set_word mem pte index (bit_or pa flags))

module _ (start : ℕ) where
  -- `kmm_zalloc(PAGE_SIZE)`
  unfoldable pub kmm_zalloc : Tables → Outcome (ℕ × Tables)
  kmm_zalloc s = kmm_malloc start page_size s.heap >>= λ (page, heap).
      ok (page, record { heap = heap; mem = update s.mem page (λ _. 0) })

  -- The branch of `CreatePageTable` that makes a table and enters it into the one above.
  unfoldable pub link_table : ℕ → ℕ → Tables → Outcome (ℕ × Tables)
  link_table table index s = kmm_zalloc s >>= λ (next, t).
      ok (next, record t { mem = set_word t.mem table index (bit_or next 3) })

  -- `CreatePageTable`
  unfoldable pub create_page_table : ℕ → ℕ → ℕ → Tables → Outcome (ℕ × Tables)
  create_page_table table shift ipa s =
      let index = table_index ipa shift in
      if s.mem table index == 0
      then link_table table index s
      else ok (page_mask (s.mem table index), s)

  -- The first test of `MapPage`: the table of level 1, made for the first page.
  unfoldable pub first_table : MmContext → Tables → Outcome (ℕ × Tables)
  first_table mm s = if mm.page_table == 0 then kmm_zalloc s else ok (mm.page_table, s)

  -- `MapPage`: the address of the entry, the context of the task and the tables after the call.
  unfoldable pub map_page : MmContext → ℕ → ℕ → ℕ → Tables → Outcome (ℕ × MmContext × Tables)
  map_page mm ipa page flags s = do
    (lv1_table, s1) ← first_table mm s
    (lv2_table, s2) ← create_page_table lv1_table lv1_shift ipa s1
    (lv3_table, s3) ← create_page_table lv2_table lv2_shift ipa s2
    let written = set_page_table_entry s3.mem lv3_table ipa page flags
    ok (
      written.0,
      record { page_table = lv1_table; pages = (mm.pages + 1) % u64_mod },
      record s3 { mem = written.1 },
    )

  -- `MapPageAccessible`
  abbrev pub map_page_accessible : MmContext → ℕ → ℕ → Tables → Outcome (ℕ × MmContext × Tables)
  map_page_accessible mm ipa page s = map_page mm ipa page pte_dram s

  -- `MapNewPage`
  abbrev pub map_new_page : MmContext → ℕ → ℕ → Tables → Outcome (ℕ × MmContext × Tables)
  map_new_page mm ipa page s = map_page mm (page_mask ipa) page pte_dram s

  -- `MapNewDevicePage`
  abbrev pub map_new_device_page :
      MmContext → ℕ → ℕ → Bool → Tables → Outcome (ℕ × MmContext × Tables)
  map_new_device_page mm ipa page accessable s =
      map_page mm (page_mask ipa) page
        (if accessable then pte_device_accessible else pte_device_not_accessible) s

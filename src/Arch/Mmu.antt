-- ===== src/Arch/Mmu.antt =====
-- src/arch/arm64/mmu.cc, mmu.h and src/arch/mmu_config.h: the page tables of the hypervisor itself,
-- from level 1 to level 3. `mem` gives the 64-bit word at an address; where the linker places the two
-- arrays of tables is a parameter. The registers of the MMU and the log are left out.
pub mod Walk
pub mod Split
pub mod Finish
mod Tests
use evisor.Prelude.{
  Bool, List, Option, [], bit_or, false, if◌then◌else◌, leb, ltb, none, not, some, suc, true,
  u32_mod, u64_mod, update, zero, ℕ, ◌%◌, ◌&&◌, ◌*◌, ◌+◌, ◌-◌, ◌/◌, ◌==◌, ◌^◌, ◌∷◌,
}
use evisor.Prelude.Digits.{bit}
use evisor.Prelude.Outcome.{Outcome, ok, panic, fault, ◌>>=◌}
use Prim.Native.Nat.{max}

-- `XLAT_TABLE_ENTRIES`, `CONFIG_MMU_MAX_XLAT_TABLES` and `CONFIG_MMU_TABLE_LEVEL_MAX`
abbrev pub xlat_table_entries : ℕ
xlat_table_entries = 512

abbrev pub max_xlat_tables : ℕ
max_xlat_tables = 14

abbrev pub table_level_max : ℕ
table_level_max = 3

-- `GET_VA_LEVEL_SHIFT`
abbrev pub get_va_level_shift : ℕ → ℕ
get_va_level_shift level = 12 + 9 * (table_level_max - level)

-- `PAGE_TABLE_BASE_LEVEL` for the 36 bits of CONFIG_MMU_VA_BITS
abbrev pub get_page_table_base_level : ℕ → ℕ
get_page_table_base_level va_bits =
    if ltb 39 va_bits then 0 else if ltb 30 va_bits then 1 else if ltb 21 va_bits then 2 else 3

abbrev pub va_bits : ℕ
va_bits = 36

abbrev pub page_table_base_level : ℕ
page_table_base_level = get_page_table_base_level va_bits

-- `NUM_BASE_LEVEL_ENTRIES`: the entries of `s_base_xlat_table`
abbrev pub num_base_level_entries : ℕ
num_base_level_entries = 2 ^ (va_bits - get_va_level_shift page_table_base_level)

-- `PTE_INVALID_DESC`, `PTE_BLOCK_DESC` and `PTE_TABLE_DESC`
abbrev pub pte_invalid_desc : ℕ
pte_invalid_desc = 0

abbrev pub pte_block_desc : ℕ
pte_block_desc = 1

abbrev pub pte_table_desc : ℕ
pte_table_desc = 3

-- `MmuMapRegion`, without the name
pub record MmuMapRegion : Type 0 where
  pub base_pa : ℕ
  pub base_va : ℕ
  pub size : ℕ
  pub attrs : ℕ

-- The tables, and the static variable of `NewXlatTablesEntry`.
pub record Tables : Type 0 where
  pub mem : ℕ → ℕ
  pub idx : ℕ

-- `GetVaIndex`
abbrev pub get_va_index : ℕ → ℕ → ℕ
get_va_index va level = va / 2 ^ get_va_level_shift level % xlat_table_entries

-- `PteDescType`
abbrev pub pte_desc_type : (ℕ → ℕ) → ℕ → ℕ
pte_desc_type mem pte = mem pte % 2 ^ 2

-- `*pte & 0x0000fffffffff000`
abbrev pub table_address : ℕ → ℕ
table_address desc = desc % 2 ^ 48 / 2 ^ 12 * 2 ^ 12

-- The loop of `FindPteIndex` with `n` turns to go, at the level `i`.
unfoldable pub find_from : ℕ → ℕ → (ℕ → ℕ) → ℕ → ℕ → ℕ → Option ℕ
find_from zero i mem va level table = none
find_from (suc n) i mem va level table =
    let pte = table + 8 * get_va_index va i in
    let rest = find_from n (i + 1) mem va level (table_address (mem pte)) in
    if i == level then some pte else if pte_desc_type mem pte == pte_table_desc then rest else none

-- `SetPteTableDesc`
abbrev pub set_pte_table_desc : ℕ → ℕ → (ℕ → ℕ) → ℕ → ℕ
set_pte_table_desc pte table mem = update mem pte (bit_or pte_table_desc table)

-- The attributes by the type of memory, at the end of `SetPteBlockDesc`.
abbrev pub shareability : ℕ → ℕ → ℕ → ℕ
shareability mem_type attrs desc =
    if leb mem_type 2
    then bit_or (bit_or (bit_or desc (2 * 2 ^ 8)) (2 ^ 53)) (2 ^ 54)
    else if leb mem_type 5
    then (let shared = bit_or desc (if mem_type == 4 then 3 * 2 ^ 8 else 2 * 2 ^ 8) in
        if bit attrs 5 == 1 then bit_or shared (2 ^ 53) else shared)
    else desc

-- The value that `SetPteBlockDesc` writes.
unfoldable pub block_desc : ℕ → ℕ → ℕ → ℕ
block_desc pa attrs level =
    let typed = bit_or pa (if level == 3 then 3 else 1) in
    let secured = bit_or typed (if bit attrs 4 == 1 then 2 ^ 5 else 0) in
    let writable = bit_or secured (if bit attrs 3 == 1 then 0 else 2 ^ 7) in
    let mem_type = attrs % 2 ^ 3 in
    shareability mem_type attrs (bit_or (bit_or writable (2 ^ 10)) (mem_type * 2 ^ 2))

-- `SetPteBlockDesc`; the attributes are cut to 32 bits.
unfoldable pub set_pte_block_desc : ℕ → ℕ → ℕ → ℕ → (ℕ → ℕ) → ℕ → ℕ
set_pte_block_desc pte pa attrs level mem = update mem pte (block_desc pa (attrs % u32_mod) level)

-- One entry of the table that `SplitPteBlockDesc` makes.
abbrev pub split_entry : ℕ → ℕ → ℕ → ℕ
split_entry old_block_desc level i =
    let part = bit_or old_block_desc (i * 2 ^ get_va_level_shift (level + 1) % u32_mod) in
    if level == 2 then bit_or part 3 else part

-- Its loop with `n` turns to go, at `i`.
unfoldable pub split_from : ℕ → ℕ → ℕ → ℕ → ℕ → (ℕ → ℕ) → ℕ → ℕ
split_from zero i old_block_desc level new_table mem = mem
split_from (suc n) i old_block_desc level new_table mem =
    split_from n (suc i) old_block_desc level new_table
      (update mem (new_table + 8 * i) (split_entry old_block_desc level i))

-- The variables of the loop of `InitXlatTables`.
pub record Cursor : Type 0 where
  pub va : ℕ
  pub pa : ℕ
  pub size : ℕ
  pub level : ℕ

module _ (s_base_xlat_table s_xlat_tables : ℕ) where
  -- `FindPteIndex`: null where a table is missing on the way. An entry behind the end of the base
  -- table is undefined.
  abbrev pub find_pte_index : (ℕ → ℕ) → ℕ → ℕ → Outcome (Option ℕ)
  find_pte_index mem va level =
      if leb num_base_level_entries (get_va_index va page_table_base_level)
      then fault
      else ok (
          find_from (suc table_level_max - page_table_base_level) page_table_base_level mem va level
            s_base_xlat_table)

  -- `NewXlatTablesEntry`
  unfoldable pub new_xlat_tables_entry : Tables → Outcome (ℕ × Tables)
  new_xlat_tables_entry t =
      if ltb t.idx max_xlat_tables
      then ok (s_xlat_tables + t.idx * 4096, record t { idx = t.idx + 1 })
      else panic

  -- `SplitPteBlockDesc`
  unfoldable pub split_pte_block_desc : ℕ → ℕ → Tables → Outcome Tables
  unfolding new_xlat_tables_entry
  split_pte_block_desc pte level t =
      let old_block_desc = t.mem pte in
      new_xlat_tables_entry t >>= λ (new_table, t'). ok (record t' {
        mem =
            set_pte_table_desc pte new_table
              (split_from xlat_table_entries 0 old_block_desc level new_table t'.mem);
      })

  -- The branch of `InitXlatTables` for an entry that is not valid.
  unfoldable pub link_table : ℕ → Tables → Outcome Tables
  link_table pte t = new_xlat_tables_entry t >>= λ (new_table, t').
      ok (record t' { mem = set_pte_table_desc pte new_table t'.mem })

  -- One turn of the loop.
  unfoldable pub turn : ℕ → Cursor → Tables → Outcome (Cursor × Tables)
  turn attrs c t =
      let level_size = 2 ^ get_va_level_shift c.level in
      let deeper = record c { level = c.level + 1 } in
      if not (leb c.level table_level_max)
      then panic
      else elim (find_pte_index t.mem c.va c.level) [
        | panic ↦ panic
        | fault ↦ fault
        | ok none ↦ panic
        | ok (some pte) ↦
            if leb level_size c.size && c.va % level_size == 0
            then ok (
              record {
                va = (c.va + level_size) % u64_mod;
                pa = (c.pa + level_size) % u64_mod;
                size = c.size - level_size;
                level = page_table_base_level;
              },
              record t { mem = set_pte_block_desc pte c.pa attrs c.level t.mem },
            )
            else if pte_desc_type t.mem pte == pte_invalid_desc
            then (link_table pte t >>= (λ t'. ok (deeper, t')))
            else if pte_desc_type t.mem pte == pte_block_desc
            then (split_pte_block_desc pte c.level t >>= (λ t'. ok (deeper, t')))
            else if pte_desc_type t.mem pte == pte_table_desc
            then ok (deeper, t)
            else panic
      ]

  -- The loop; none where the fuel runs out.
  unfoldable pub map_region : ℕ → ℕ → Cursor → Tables → Option (Outcome Tables)
  map_region zero attrs c t = none
  map_region (suc fuel) attrs c t = elim (c.size == 0) [
    | true ↦ some (ok t)
    | false ↦ elim (turn attrs c t) [
      | ok (c', t') ↦ map_region fuel attrs c' t'
      | panic ↦ some panic
      | fault ↦ some fault
    ]
  ]

  -- `InitXlatTables`
  unfoldable pub init_xlat_tables : ℕ → MmuMapRegion → Tables → Option (Outcome Tables)
  init_xlat_tables fuel region t =
      if not (region.base_va % 2 ^ 12 == 0)
      then some panic
      else if not (region.size % 2 ^ 12 == 0)
      then some panic
      else map_region fuel region.attrs
          (record {
            va = region.base_va;
            pa = region.base_pa;
            size = region.size;
            level = page_table_base_level;
          })
          t

  -- A loop of `CreatePageTables`
  unfoldable pub init_regions : ℕ → List MmuMapRegion → Tables → Option (Outcome Tables)
  init_regions fuel [] t = some (ok t)
  init_regions fuel (region ∷ regions) t =
      let rest = init_regions fuel regions in
      elim (init_xlat_tables fuel region t) [
        | none ↦ none
        | some (ok t') ↦ rest t'
        | some panic ↦ some panic
        | some fault ↦ some fault
      ]

  -- `CreatePageTables`: first the regions of the guests.
  abbrev pub create_page_tables :
      ℕ → List MmuMapRegion → List MmuMapRegion → Tables → Option (Outcome Tables)
  create_page_tables fuel kernel_regions guest_regions t =
      elim (init_regions fuel guest_regions t) [
        | none ↦ none
        | some (ok t') ↦ init_regions fuel kernel_regions t'
        | some panic ↦ some panic
        | some fault ↦ some fault
      ]

-- The loop of `CheckMmuConfigs`: the ends of the regions.
abbrev pub highest : List MmuMapRegion → ℕ × ℕ → ℕ × ℕ
highest [] (max_pa, max_va) = (max_pa, max_va)
highest (region ∷ regions) (max_pa, max_va) = highest regions (
  max max_pa ((region.base_pa + region.size) % u64_mod),
  max max_va ((region.base_va + region.size) % u64_mod),
)

-- `CheckMmuConfigs`: the regions of the guests only.
abbrev pub check_mmu_configs : List MmuMapRegion → Outcome (Unit {0})
check_mmu_configs guest_regions =
    let (max_pa, max_va) = highest guest_regions (0, 0) in
    if leb max_pa (2 ^ 36) && leb max_va (2 ^ va_bits) then ok tt else panic

-- `GetTcr`
abbrev pub get_tcr : ℕ → ℕ
get_tcr el =
    let tcr_ps_bits : ℕ = 1 in
    let tcr = if el == 1 then bit_or (tcr_ps_bits * 2 ^ 32) (2 ^ 23) else tcr_ps_bits * 2 ^ 16 in
    bit_or (bit_or tcr (64 - va_bits)) (bit_or (bit_or (3 * 2 ^ 12) (2 ^ 10)) (2 ^ 8))

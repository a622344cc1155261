-- ===== src/Arch/Mmu/Finish.antt =====
-- src/arch/arm64/mmu.cc: the loop of InitXlatTables ends.
use evisor.Prelude.{
  ==_iff, Bool-cases, Option, ◌⊎◌, arith, inl, inr, refl, some, suc, zero, false, ℕ, ◌%◌, ◌*◌, ◌+◌,
  ◌-◌, ◌/◌, ◌<◌, ◌==◌, ◌^◌, ◌≡◌, ◌≤◌,
}
use evisor.Prelude.Outcome.{Outcome, ok, panic, fault}
use evisor.Arch.Mmu.{
  Cursor, MmuMapRegion, Tables, init_xlat_tables, link_table, map_region, new_xlat_tables_entry,
  split_pte_block_desc, turn,
}

-- Whole pages below the end of the base table, at a level that there is.
pub record IsWhole (c : Cursor) : Type 0 where
  pub va_whole : c.va % 2 ^ 12 ≡ 0
  pub size_whole : c.size % 2 ^ 12 ≡ 0
  pub from : 1 ≤ c.level
  pub upto : c.level ≤ 3
  pub fits : c.va + c.size ≤ 2 ^ 36

-- The turns that can follow.
abbrev pub turns_left : Cursor → ℕ
turns_left c = 4 * (c.size / 2 ^ 12) + (3 - c.level)

-- The code is left with tables or in PANIC.
abbrev pub Ends : Option (Outcome Tables) → Type 0
Ends r = ((t' : Tables) × (r ≡ some (ok t'))) ⊎ (r ≡ some panic)

module _ (base tables attrs : ℕ) where
  -- A turn that goes on leaves whole pages and fewer turns.
  turn_lem :
      (va pa size level : ℕ) (t : Tables) {c' : Cursor} {t' : Tables}
      → IsWhole (record { va = va; pa = pa; size = size; level = level })
      → (size == 0) ≡ false
      → turn base tables attrs (record { va = va; pa = pa; size = size; level = level }) t
        ≡ ok (c', t')
      → IsWhole c' × (turns_left c' < 4 * (size / 2 ^ 12) + (3 - level))
  unfolding turn
  turn_lem va pa size zero t w more e = absurd (omega arith)
  turn_lem va pa size (suc zero) t w more e = ground arith
  turn_lem va pa size (suc (suc zero)) t w more e = ground arith
  turn_lem va pa size (suc (suc (suc zero))) t w more e = ground arith
  turn_lem va pa size (suc (suc (suc (suc level)))) t w more e = absurd (omega arith)

  -- No turn reaches behind the end of the base table.
  turn_safe :
      (va pa size level : ℕ) (t : Tables)
      → IsWhole (record { va = va; pa = pa; size = size; level = level })
      → (size == 0) ≡ false
      → turn base tables attrs (record { va = va; pa = pa; size = size; level = level }) t ≡ fault
      → ⊥
  unfolding turn link_table split_pte_block_desc new_xlat_tables_entry
  turn_safe va pa size level t w more e = ground arith

  -- With more fuel than turns can follow the loop ends.
  map_region_lem :
      (fuel : ℕ) (c : Cursor) (t : Tables)
      → IsWhole c
      → turns_left c < fuel
      → Ends (map_region base tables fuel attrs c t)
  unfolding map_region
  map_region_lem zero c t w lt = absurd (omega arith)
  map_region_lem (suc fuel) c t w lt = elim (Bool-cases (c.size == 0)) [
    | inl done ↦ inl (t, rw (map_region, done) refl)
    | inr more ↦
        go more (λ c' t' w' h. map_region_lem fuel c' t' w' h) (turn base tables attrs c t) refl
  ]
    where
      go :
          (c.size == 0) ≡ false
          → ((c' : Cursor) (t' : Tables)
              → IsWhole c'
              → turns_left c' < fuel
              → Ends (map_region base tables fuel attrs c' t'))
          → (next : Outcome (Cursor × Tables)) → turn base tables attrs c t ≡ next
          → Ends (map_region base tables (suc fuel) attrs c t)
      go more ih (ok (c', t')) e =
          let (w', fewer) = turn_lem c.va c.pa c.size c.level t w more e in
          rw (map_region, more, e) (ih c' t' w' (omega arith))
      go more ih panic e = inr (rw (map_region, more, e) refl)
      go more ih fault e = absurd (turn_safe c.va c.pa c.size c.level t w more e)

-- For a region that ends within the 36 bits of an address, `InitXlatTables` leaves tables or stops in
-- PANIC, whatever the tables hold, and does not reach behind the base table: four turns for each page
-- and three more are enough.
pub init_xlat_tables_total :
    (base tables fuel : ℕ) (region : MmuMapRegion) (t : Tables)
    → region.base_va + region.size ≤ 2 ^ 36
    → 4 * (region.size / 2 ^ 12) + 2 < fuel
    → Ends (init_xlat_tables base tables fuel region t)
unfolding init_xlat_tables
init_xlat_tables_total base tables fuel region t fits enough =
    elim (Bool-cases (region.base_va % 2 ^ 12 == 0)) [
      | inr odd ↦ inr (rw odd refl)
      | inl even ↦ elim (Bool-cases (region.size % 2 ^ 12 == 0)) [
        | inr odd ↦ inr (rw (even, odd) refl)
        | inl whole ↦
            let start : Cursor = record {
              va = region.base_va;
              pa = region.base_pa;
              size = region.size;
              level = 1;
            } in
            let aligned : region.base_va % 2 ^ 12 ≡ 0 =
              (==_iff (region.base_va % 2 ^ 12) 0).0 even in
            let pages : region.size % 2 ^ 12 ≡ 0 = (==_iff (region.size % 2 ^ 12) 0).0 whole in
            rw (even, whole)
              (map_region_lem base tables region.attrs fuel start t
                (record {
                  va_whole = aligned;
                  size_whole = pages;
                  from = omega arith;
                  upto = omega arith;
                  fits = fits;
                })
                enough)
      ]
    ]

-- ===== src/Mm/PgTable/Space.antt =====
-- The address space of a guest whose devices are entered: the tables refine a map from the numbers of
-- its pages to entries, in which a page that is not there has the entry 0.
use evisor.Prelude.{
  ==_iff, ==_ne, Bool, arith, bit_or, if◌then◌else◌, suc, sym, u64_mod, zero, ℕ, ℕ_discrete, ◌%◌,
  ◌*◌, ◌+◌, ◌<◌, ◌==◌, ◌∙◌, ◌≡◌, ◌≢◌, ◌≤◌,
}
use evisor.Prelude.Outcome.{ok}
use evisor.Kernel.Task.{MmContext}
use evisor.Mm.KernelHeap.{heap_pages, page_size}
use evisor.Mm.PgTable.{
  Tables, page_mask, map_new_device_page, pte_device_accessible, pte_device_not_accessible,
}
use evisor.Mm.PgTable.Forest.{IsForest, translate}
use evisor.Mm.PgTable.Room.{free_pages}
use evisor.Mm.PgTable.Map.{
  Mapped, page_number, map_page_enough, translate_page, page_number-page_mask,
}

-- The tables of a new guest, made in a forest of other guests, show a space.
pub record Shows (start : ℕ) (level : ℕ → ℕ) (s : Tables) (space : ℕ → ℕ) (mm : MmContext)
    (s' : Tables) : Type 0 where
  pub level' : ℕ → ℕ
  pub key' : ℕ → ℕ
  pub forest : IsForest start level' key' s'
  pub kept : (u : ℕ) → 1 ≤ level u → level' u ≡ level u
  pub root : mm.page_table ≢ 0 → level' mm.page_table ≡ 1
  pub fresh : mm.page_table ≢ 0 → level mm.page_table ≡ 0
  pub shows :
      mm.page_table ≢ 0 → (ipa : ℕ) → translate s'.mem mm.page_table ipa ≡ space (page_number ipa)
  pub none : mm.page_table ≡ 0 → (page : ℕ) → space page ≡ 0
  pub others : (r ipa : ℕ) → level r ≡ 1 → translate s'.mem r ipa ≡ translate s.mem r ipa

-- A page entered into a space.
abbrev pub enter : (ℕ → ℕ) → ℕ → ℕ → ℕ → ℕ
enter space page entry p = if p == page then entry else space p

abbrev pub device_flags : Bool → ℕ
device_flags accessable = if accessable then pte_device_accessible else pte_device_not_accessible

module _ (start : ℕ) (positive : 0 < start) (fits : start + heap_pages * page_size ≤ u64_mod)
    (aligned : start % 4096 ≡ 0) where
  above_start :
      (level key : ℕ → ℕ) (s : Tables) (t : ℕ) → IsForest start level key s → level t ≡ 1 → t ≢ 0
  above_start level key s t f one z = let (p, lt, e, taken) = f.held t (omega arith) in omega arith

  Mapped-Shows :
      (level : ℕ → ℕ) (s s' s'' : Tables) (space : ℕ → ℕ) (mm mm' : MmContext) (ipa entry : ℕ)
      (h : Shows start level s space mm s')
      → Mapped start h.level' h.key' s' mm (page_mask ipa) entry mm' s''
      → Shows start level s (enter space (page_number ipa) entry) mm' s''
  Mapped-Shows level s s' s'' space mm mm' ipa entry h m = record {
    level' = m.level';
    key' = m.key';
    forest = m.forest;
    kept = λ u up. m.kept u (omega (arith, h.kept u up)) ∙ h.kept u up;
    root = λ _. m.root;
    fresh = λ _. new;
    shows = λ nz other. elim (ℕ_discrete (page_number other) (page_number ipa)) [
      | yes e ↦
          rw ((==_iff (page_number other) (page_number ipa)).1 e)
            (translate_page s''.mem mm'.page_table other (page_mask ipa) (e ∙ sym masked) ∙ m.here)
      | no ne ↦
          rw (==_ne (page_number other) (page_number ipa) ne) (before other (λ e. ne (e ∙ masked)))
    ];
    none = λ z. absurd (above_start m.level' m.key' s'' mm'.page_table m.forest m.root z);
    others = λ r other one.
        m.elsewhere r other (h.kept r (omega (arith, one)) ∙ one)
          (λ q. absurd (clash (sym (rw q new) ∙ one)))
        ∙ h.others r other one;
  }
    where
      masked : page_number (page_mask ipa) ≡ page_number ipa
      masked = page_number-page_mask ipa

      clash : zero ≡ suc zero → ⊥
      clash e = omega arith

      low : (u : ℕ) → h.level' u ≡ 0 → level u ≡ 0
      low u z = elim (ℕ_discrete (level u) 0) [
        | yes e ↦ e
        | no ne ↦ sym (h.kept u (omega arith)) ∙ z
      ]

      new : level mm'.page_table ≡ 0
      new = elim (ℕ_discrete mm.page_table 0) [
        | yes z ↦ low mm'.page_table (m.new_root z)
        | no nz ↦ rw (m.same_root nz) (h.fresh nz)
      ]

      before :
          (other : ℕ)
          → page_number other ≢ page_number (page_mask ipa)
          → translate s''.mem mm'.page_table other ≡ space (page_number other)
      before other ne = elim (ℕ_discrete mm.page_table 0) [
        | yes z ↦ m.empty other z ne ∙ sym (h.none z (page_number other))
        | no nz ↦
            rw (m.same_root nz)
              (m.elsewhere mm.page_table other (h.root nz) (λ _. ne) ∙ h.shows nz other)
      ]

  -- A device entered with three pages free.
  pub map_new_device_page-Shows :
      (level : ℕ → ℕ) (s s' : Tables) (space : ℕ → ℕ) (mm : MmContext) (ipa page : ℕ)
      (accessable : Bool)
      → Shows start level s space mm s'
      → 3 ≤ free_pages heap_pages s'.heap
      → (slot : ℕ) × (mm' : MmContext) × (s'' : Tables) × (map_new_device_page start mm ipa page
            accessable s'
          ≡ ok (slot, mm', s''))
        × Shows start level s
            (enter space (page_number ipa) (bit_or page (device_flags accessable)))
            mm'
            s''
        × (free_pages heap_pages s'.heap ≤ free_pages heap_pages s''.heap + 3)
  map_new_device_page-Shows level s s' space mm ipa page accessable h room =
      let (slot, mm', s'', e, m) =
        map_page_enough start fits aligned h.level' h.key' s' mm (page_mask ipa) page
          (device_flags accessable) positive h.forest h.root room in
      (
        slot,
        mm',
        s'',
        e,
        Mapped-Shows level s s' s'' space mm mm' ipa (bit_or page (device_flags accessable)) h m,
        m.room,
      )

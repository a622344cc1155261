-- ===== src/Mm/PgTable/Map.antt =====
-- src/mm/pgtable_stage2.cc: what MapPage does to the translation of every guest.
use evisor.Prelude.{
  Bool, arith, bit_or, inl, inr, refl, sym, true, u64_mod, ℕ, ◌%◌, ◌*◌, ◌+◌, ◌/◌, ◌<◌, ◌^◌, ◌∙◌,
  ◌≡◌, ◌≢◌, ◌≤◌, ◌⊎◌,
}
use evisor.Prelude.Outcome.{ok, panic}
use evisor.Kernel.Task.{MmContext}
use evisor.Mm.KernelHeap.{heap_pages, page_size}
use evisor.Mm.PgTable.{
  Tables, table_index, set_word, map_page, ptrs_per_table, lv1_shift, lv2_shift, page_shift,
  page_mask,
}
use evisor.Mm.PgTable.Forest.{IsForest, translate, set_word-IsForest}
use evisor.Mm.PgTable.Room.{free_pages, room-full}
use evisor.Mm.PgTable.Create.{create_lem}
use evisor.Mm.PgTable.First.{first_lem}
use evisor.Mm.PgTable.Route.{
  Tabled, deep, written_here, written_elsewhere, middle_level, tables_lem,
}

-- The number of the page that an address lies in, as far as the tables read it.
abbrev pub page_number : ℕ → ℕ
page_number ipa = ipa / 4096 % 2 ^ 27

-- Addresses in one page have one translation.
pub translate_page :
    (mem : ℕ → ℕ → ℕ) (r a b : ℕ)
    → page_number a ≡ page_number b
    → translate mem r a ≡ translate mem r b
translate_page mem r a b e =
    let one : table_index a lv1_shift ≡ table_index b lv1_shift = omega arith in
    let two : table_index a lv2_shift ≡ table_index b lv2_shift = omega arith in
    let three : table_index a page_shift ≡ table_index b page_shift = omega arith in
    rw (one, two, three) refl

pub page_number-page_mask : (a : ℕ) → page_number (page_mask a) ≡ page_number a
page_number-page_mask a = omega arith

-- What `MapPage` leaves: the address of the page finds the new entry, and every other page of this
-- guest, and every page of the others, finds what it found before.
pub record Mapped (start : ℕ) (level key : ℕ → ℕ) (s : Tables) (mm : MmContext) (ipa entry : ℕ)
    (mm' : MmContext) (s' : Tables) : Type 0 where
  pub level' : ℕ → ℕ
  pub key' : ℕ → ℕ
  pub forest : IsForest start level' key' s'
  pub root : level' mm'.page_table ≡ 1
  pub kept : (u : ℕ) → 1 ≤ level u → level' u ≡ level u
  pub room : free_pages heap_pages s.heap ≤ free_pages heap_pages s'.heap + 3
  pub roots : (u : ℕ) → level' u ≡ 1 → u ≢ mm'.page_table → level u ≡ 1
  pub new_root : mm.page_table ≡ 0 → level mm'.page_table ≡ 0
  pub same_root : mm.page_table ≢ 0 → mm'.page_table ≡ mm.page_table
  pub counted : mm'.pages ≡ (mm.pages + 1) % u64_mod
  pub here : translate s'.mem mm'.page_table ipa ≡ entry
  pub elsewhere :
      (r other : ℕ)
      → level r ≡ 1
      → (r ≡ mm'.page_table → page_number other ≢ page_number ipa)
      → translate s'.mem r other ≡ translate s.mem r other
  pub empty :
      (other : ℕ)
      → mm.page_table ≡ 0
      → page_number other ≢ page_number ipa
      → translate s'.mem mm'.page_table other ≡ 0

-- The entry written into the tables that were made.
mapped_lem :
    (start : ℕ) (level key : ℕ → ℕ) (s s' : Tables) (mm : MmContext) (ipa page flags r n : ℕ)
    → Tabled start level key s mm (table_index ipa lv1_shift) (table_index ipa lv2_shift) r n s'
    → Mapped start level key s mm ipa
        (bit_or page flags)
        (record { page_table = r; pages = (mm.pages + 1) % u64_mod })
        (record s' { mem = set_word s'.mem n (table_index ipa page_shift) (bit_or page flags) })
mapped_lem start level key s s' mm ipa page flags r n t =
    let i = table_index ipa lv1_shift in
    let j = table_index ipa lv2_shift in
    let k = table_index ipa page_shift in
    let v = bit_or page flags in
    let l = t.level' in
    let w = t.key' in
    let a : i < ptrs_per_table = omega arith in
    let b : j < ptrs_per_table = omega arith in
    record {
      level' = l;
      key' = w;
      forest =
          set_word-IsForest start l w s' n k v (deep start l w s' r i j k n v t.route a b).0
            t.route.forest;
      root = t.route.root;
      kept = t.kept;
      room = t.room;
      roots = t.roots;
      new_root = t.new_root;
      same_root = t.same_root;
      counted = refl;
      here = written_here start l w s' r i j k n v t.route a b;
      elsewhere = λ u other one apart.
          written_elsewhere start l w s' r i j k n v t.route a b u (table_index other lv1_shift)
            (table_index other lv2_shift) (table_index other page_shift)
            (t.kept u (omega (arith, one)) ∙ one) (omega arith) (omega arith)
            (λ e e1 e2 e3. apart e (digits other e1 e2 e3))
          ∙ t.walks u (table_index other lv1_shift) (table_index other lv2_shift)
              (table_index other page_shift) one (omega arith) (omega arith);
      empty = λ other none apart.
          written_elsewhere start l w s' r i j k n v t.route a b r (table_index other lv1_shift)
            (table_index other lv2_shift) (table_index other page_shift) t.route.root (omega arith)
            (omega arith) (λ e e1 e2 e3. apart (digits other e1 e2 e3))
          ∙ t.new (table_index other lv1_shift) (table_index other lv2_shift)
              (table_index other page_shift) none (omega arith) (omega arith);
    }
  where
    digits :
        (other : ℕ)
        → table_index other lv1_shift ≡ table_index ipa lv1_shift
        → table_index other lv2_shift ≡ table_index ipa lv2_shift
        → table_index other page_shift ≡ table_index ipa page_shift
        → page_number other ≡ page_number ipa
    digits other e1 e2 e3 = omega arith

-- All the pages of the heap but at most two are taken.
abbrev pub AlmostFull : (ℕ → Bool) → Type 0
AlmostFull used = (p : ℕ) × (q : ℕ) × ((x : ℕ) → x < heap_pages → x ≢ p → x ≢ q → used x ≡ true)

module _ (start : ℕ) (fits : start + heap_pages * page_size ≤ u64_mod)
    (aligned : start % 4096 ≡ 0) where
  -- In tables that form a forest over a heap of whole pages, `MapPage` for a guest whose table, if it has one, is a
  -- root: it returns tables that form a forest, in which the address finds the new entry, a guest without a table has
  -- nothing else, and every other page of this guest and of all others finds what it found; or it stops in PANIC, and
  -- then at most two pages of the heap were free.
  pub map_page_lem :
      (level key : ℕ → ℕ) (s : Tables) (mm : MmContext) (ipa page flags : ℕ)
      → 0 < start
      → IsForest start level key s
      → (mm.page_table ≢ 0 → level mm.page_table ≡ 1)
      → ((slot : ℕ) × (mm' : MmContext) × (s' : Tables) × (map_page start mm ipa page flags s
            ≡ ok (slot, mm', s'))
          × Mapped start level key s mm ipa (bit_or page flags) mm' s')
        ⊎ ((map_page start mm ipa page flags s ≡ panic) × AlmostFull s.heap)
  unfolding map_page
  map_page_lem level key s mm ipa page flags positive f one =
      let i = table_index ipa lv1_shift in
      let j = table_index ipa lv2_shift in
      let k = table_index ipa page_shift in
      elim (first_lem start fits aligned level key s mm positive f one) [
        | inr (e, all) ↦ inr (rw e refl, (0, 0, λ x lt _ _. all x (omega arith) lt))
        | inl (r, s1, l1, k1, e1, x1, root, sole, fresh, nz, same, new) ↦
            elim (create_lem start fits aligned l1 k1 s1 r lv1_shift ipa x1.forest (omega arith)
              (omega arith)) [
                | inr (e, all) ↦
                    let (p, same) = x1.taken in
                    inr
                      (rw (e1, e) refl, (p, p, λ x lt d _. sym (same x d) ∙ all x (omega arith) lt))
                | inl (n2, s2, e2, (l2, k2, x2, nz2, p2, back)) ↦
                    let one2 : l2 r ≡ 1 = (x2.kept r (omega (arith, root))).0 ∙ root in
                    let two : l2 n2 ≡ 2 =
                      middle_level start l2 k2 s2 r i n2 x2.forest one2 (omega arith) nz2 p2 in
                    elim (create_lem start fits aligned l2 k2 s2 n2 lv2_shift ipa x2.forest
                      (omega arith) (omega arith)) [
                        | inr (e, all) ↦
                            let (p, same1) = x1.taken in
                            let (q, same2) = x2.taken in
                            inr (
                              rw (e1, e2, e) refl,
                              (
                                p,
                                q,
                                λ x lt d d'.
                                    sym (same1 x d) ∙ (sym (same2 x d') ∙ all x (omega arith) lt),
                              ),
                            )
                        | inl (n3, s3, e3, (l3, k3, x3, nz3, p3, back')) ↦ inl (
                          n3 + 8 * table_index ipa page_shift,
                          record { page_table = r; pages = (mm.pages + 1) % u64_mod },
                          record s3 {
                            mem =
                                set_word s3.mem n3 (table_index ipa page_shift) (bit_or page flags);
                          },
                          rw (e1, e2, e3) refl,
                          mapped_lem start level key s s3 mm ipa page flags r n3 (
                              tables_lem start level key l1 k1 l2 k2 l3 k3 s s1 s2 s3 mm i j r n2 n3
                                (omega arith) x1 root sole fresh same new x2 nz2 p2 back x3 nz3 p3
                                back'),
                        )
                      ]
              ]
      ]

  -- With three pages free, `MapPage` returns.
  pub map_page_enough :
      (level key : ℕ → ℕ) (s : Tables) (mm : MmContext) (ipa page flags : ℕ)
      → 0 < start
      → IsForest start level key s
      → (mm.page_table ≢ 0 → level mm.page_table ≡ 1)
      → 3 ≤ free_pages heap_pages s.heap
      → (slot : ℕ) × (mm' : MmContext) × (s' : Tables) × (map_page start mm ipa page flags s
          ≡ ok (slot, mm', s'))
        × Mapped start level key s mm ipa (bit_or page flags) mm' s'
  map_page_enough level key s mm ipa page flags positive f one room =
      elim (map_page_lem level key s mm ipa page flags positive f one) [
        | inl found ↦ found
        | inr (e, (p, q, full)) ↦ absurd (omega (arith, room-full p q s.heap full))
      ]

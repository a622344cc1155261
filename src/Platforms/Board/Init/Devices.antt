-- ===== src/Platforms/Board/Init/Devices.antt =====
-- The devices that a guest finds after `Init`.
use evisor.Prelude.{
  Bool, ap, arith, bit_or, false, if◌then◌else◌, leb, ltb, refl, sym, true, u64_mod, ℕ, ℕ_discrete,
  ◌%◌, ◌&&◌, ◌*◌, ◌+◌, ◌-◌, ◌/◌, ◌<◌, ◌∙◌, ◌≡◌, ◌≢◌, ◌≤◌,
}
use evisor.Prelude.Outcome.{ok}
use evisor.Prelude.Flags.{bit_or_low}
use evisor.Kernel.Task.{MmContext}
use evisor.Mm.KernelHeap.{heap_pages, page_size}
use evisor.Mm.PgTable.{Tables}
use evisor.Mm.PgTable.Forest.{IsForest, translate}
use evisor.Mm.PgTable.Room.{free_pages}
use evisor.Mm.PgTable.Map.{page_number}
use evisor.Mm.PgTable.Space.{Shows, device_flags}
use evisor.Platforms.Board.{Board, qemu, bcm2711, bcm2711_nuttx, uart_base, gic_base}
use evisor.Platforms.Board.Init.{Pages, distributor, cpu_interface, uart, count, init}
use evisor.Platforms.Board.Init.Space.{space_after, window, space_after-window, map_pages-Shows}

-- Pages in a row: from the page `first` on, `n` of them show the addresses from `pa` on.
abbrev row : ℕ → ℕ → ℕ → ℕ → (ℕ → ℕ) → ℕ → ℕ
row first n pa flags rest p =
    if leb first p && ltb p (first + n) then pa + (p - first) * 4096 + flags else rest p

-- Where a guest finds the CPU interface, and how many pages its distributor has.
abbrev cpu_base : Board → ℕ
cpu_base qemu = 0x08010000
cpu_base bcm2711 = 0xff846000
cpu_base bcm2711_nuttx = 0x08010000

abbrev gic_pages : Board → ℕ
gic_pages qemu = 16
gic_pages bcm2711 = 1
gic_pages bcm2711_nuttx = 1

-- The entries of a guest, by the numbers of its pages. An access to the serial line or to the
-- distributor traps; two pages lead to the virtual CPU interface; nothing else is there.
abbrev gic_space : Board → ℕ → ℕ
gic_space b = row (gic_base b / 4096) (gic_pages b) (distributor b).first 0x403 (λ _. 0)

abbrev cpu_space : Board → ℕ → ℕ
cpu_space b = row (cpu_base b / 4096) 2 (cpu_interface b).first 0x4c3 (gic_space b)

abbrev pub guest_space : Board → ℕ → ℕ
guest_space b = row (uart_base b / 4096) 1 (uart b).first 0x403 (cpu_space b)

window-row :
    (first n pa : ℕ) (accessable : Bool) (space rest : ℕ → ℕ) (p : ℕ)
    → pa % 4096 ≡ 0
    → space p ≡ rest p
    → window first n pa accessable space p ≡ row first n pa (device_flags accessable) rest p
window-row first n pa accessable space rest p whole same =
    let sum : bit_or (pa + (p - first) * 4096) (device_flags accessable)
        ≡ pa + (p - first) * 4096 + device_flags accessable =
      bit_or_low (pa + (p - first) * 4096) (device_flags accessable) (omega arith)
        (small accessable) in
    rw (sum, same) refl
  where
    small : (b : Bool) → device_flags b < 4096
    small true = omega arith
    small false = omega arith

-- A range entered is a row in the space.
entered :
    (r : Pages) (n first : ℕ) (space rest : ℕ → ℕ)
    → ((k : ℕ) → k < n → page_number (r.va (r.first + k * 4096)) ≡ first + k)
    → r.first % 4096 ≡ 0
    → ((p : ℕ) → space p ≡ rest p)
    → (p : ℕ)
    → space_after r.va r.accessable n r.first space p
      ≡ row first n r.first (device_flags r.accessable) rest p
entered r n first space rest follow whole same p =
    space_after-window n r.va r.accessable r.first first space follow p
    ∙ window-row first n r.first r.accessable space rest p whole (same p)

-- The space that the three loops make, one after the other.
abbrev made : Board → ℕ → ℕ
made b =
    let d = distributor b in
    let c = cpu_interface b in
    let u = uart b in
    space_after u.va u.accessable (count u) u.first (
      space_after c.va c.accessable (count c) c.first
        (space_after d.va d.accessable (count d) d.first (λ _. 0)))

one_page : (f : ℕ → ℕ) (a b : ℕ) → f a ≡ b → (k : ℕ) → k < 1 → f (a + k * 4096) ≡ b + k
one_page f a b e k lt = let z : k ≡ 0 = omega arith in rw z (ap f (omega arith) ∙ (e ∙ omega arith))

two_pages :
    (f : ℕ → ℕ) (a b : ℕ)
    → f a ≡ b
    → f (a + 4096) ≡ b + 1
    → (k : ℕ) → k < 2
    → f (a + k * 4096) ≡ b + k
two_pages f a b e e' k lt = elim (ℕ_discrete k 0) [
  | yes z ↦ rw z (ap f (omega arith) ∙ (e ∙ omega arith))
  | no nz ↦ let z : k ≡ 1 = omega arith in rw z (ap f (omega arith) ∙ e')
]

made-guest_space : (b : Board) (p : ℕ) → made b p ≡ guest_space b p
made-guest_space qemu =
    entered (uart qemu) 1 0x9000 _ (cpu_space qemu) (λ k lt. omega arith) refl
      (entered (cpu_interface qemu) 2 0x8010 _ (gic_space qemu) (λ k lt. omega arith) refl
        (entered (distributor qemu) 16 0x8000 _ (λ _. 0) (λ k lt. omega arith) refl (λ _. refl)))
made-guest_space bcm2711 =
    entered (uart bcm2711) 1 0xfe201 _ (cpu_space bcm2711) (λ k lt. omega arith) refl
      (entered (cpu_interface bcm2711) 2 0xff846 _ (gic_space bcm2711) (λ k lt. omega arith) refl
        (entered (distributor bcm2711) 1 0xff841 _ (λ _. 0) (λ k lt. omega arith) refl (λ _. refl)))
made-guest_space bcm2711_nuttx =
    let u = uart bcm2711_nuttx in
    let c = cpu_interface bcm2711_nuttx in
    let d = distributor bcm2711_nuttx in
    entered u 1 0x9000 _ (cpu_space bcm2711_nuttx)
      (one_page (λ a. page_number (u.va a)) u.first 0x9000 refl) refl
      (entered c 2 0x8010 _ (gic_space bcm2711_nuttx)
        (two_pages (λ a. page_number (c.va a)) c.first 0x8010 refl refl) refl
        (entered d 1 0x8000 _ (λ _. 0) (one_page (λ a. page_number (d.va a)) d.first 0x8000 refl)
          refl (λ _. refl)))

counts : (b : Board) → count (distributor b) + count (cpu_interface b) + count (uart b) ≤ 19
counts qemu = omega arith
counts bcm2711 = omega arith
counts bcm2711_nuttx = omega arith

module _ (start : ℕ) (positive : 0 < start) (fits : start + heap_pages * page_size ≤ u64_mod)
    (aligned : start % 4096 ≡ 0) where
  nothing-Shows :
      (level key : ℕ → ℕ) (s : Tables) (mm : MmContext)
      → mm.page_table ≡ 0
      → IsForest start level key s
      → Shows start level s (λ _. 0) mm s
  nothing-Shows level key s mm z f = record {
    level' = level;
    key' = key;
    forest = f;
    kept = λ u up. refl;
    root = λ nz. absurd (nz z);
    fresh = λ nz. absurd (nz z);
    shows = λ nz. absurd (nz z);
    none = λ z page. refl;
    others = λ r ipa one. refl;
  }

  uart_there : (b : Board) → guest_space b (uart_base b / 4096) ≢ 0
  uart_there qemu e = omega (arith, e)
  uart_there bcm2711 e = omega (arith, e)
  uart_there bcm2711_nuttx e = omega (arith, e)

  has_root :
      (b : Board) (level : ℕ → ℕ) (s s' : Tables) (mm : MmContext)
      → Shows start level s (made b) mm s'
      → mm.page_table ≢ 0
  has_root b level s s' mm h z =
      let page = uart_base b / 4096 in uart_there b (sym (made-guest_space b page) ∙ h.none z page)

  -- In a sound forest with 57 pages of the heap free, `Init` returns for a guest without tables; the
  -- guest then finds exactly the devices of its board, and no other guest finds anything else than before.
  pub init_lem :
      (b : Board) (level key : ℕ → ℕ) (s : Tables) (mm : MmContext)
      → mm.page_table ≡ 0
      → IsForest start level key s
      → 57 ≤ free_pages heap_pages s.heap
      → (mm' : MmContext) × (s' : Tables) × (init start b mm s ≡ ok (mm', s'))
        × (level' : ℕ → ℕ) × (key' : ℕ → ℕ) × IsForest start level' key' s'
        × (level' mm'.page_table ≡ 1)
        × ((ipa : ℕ) → translate s'.mem mm'.page_table ipa ≡ guest_space b (page_number ipa))
        × ((r ipa : ℕ) → level r ≡ 1 → translate s'.mem r ipa ≡ translate s.mem r ipa)
  unfolding init
  init_lem b level key s mm z f room =
      let d = distributor b in
      let c = cpu_interface b in
      let u = uart b in
      let (mm1, s1, e1, h1, r1) =
        map_pages-Shows start positive fits aligned (count d) d.va d.accessable d.first level s s _
          mm (nothing-Shows level key s mm z f) (omega (arith, counts b)) in
      let (mm2, s2, e2, h2, r2) =
        map_pages-Shows start positive fits aligned (count c) c.va c.accessable c.first level s s1 _
          mm1 h1 (omega (arith, counts b, r1)) in
      let (mm3, s3, e3, h3, r3) =
        map_pages-Shows start positive fits aligned (count u) u.va u.accessable u.first level s s2 _
          mm2 h2 (omega (arith, counts b, r1, r2)) in
      (
        mm3,
        s3,
        rw (e1, e2) e3,
        h3.level',
        h3.key',
        h3.forest,
        h3.root (has_root b level s s3 mm3 h3),
        λ ipa. h3.shows (has_root b level s s3 mm3 h3) ipa ∙ made-guest_space b (page_number ipa),
        h3.others,
      )

-- ===== src/Fs/Loader/Image.antt =====
-- src/fs/loader.cc: the whole image, in the pages of the guest.
use evisor.Prelude.{
  ==_iff, ==_ne, ap, arith, dec_le, false, inl, inr, refl, some, suc, true, u64_mod, zero, ℕ, ◌%◌,
  ◌*◌, ◌+◌, ◌-◌, ◌/◌, ◌<◌, ◌==◌, ◌^◌, ◌∙◌, ◌≡◌, ◌≢◌, ◌≤◌,
}
use evisor.Prelude.Outcome.{ok}
use evisor.Common.Cstring.{memzero}
use evisor.Drivers.VirtioBlk.{Regs, Shared, disk_sector_size, get_disk_capacity}
use evisor.Drivers.VirtioBlk.Device.{Serves}
use evisor.Drivers.VirtioBlk.Transfer.{IsIdle, sectors_lem}
use evisor.Fs.Loader.{Loading, Sectors, load_pages, loader_load_file}
use evisor.Fs.Loader.Sector.{IsClear, IsCount, load_sectors_lem}
use evisor.Fs.Loader.Page.{IsFar, IsLoaded, done-IsLoaded, loaded, more-IsLoaded}
use evisor.Mm.Fault.Given.{HasRoom, page_map_lem}
use evisor.Mm.Fault.Served.{IsSound}
use evisor.Mm.KernelHeap.{heap_pages}
use evisor.Mm.PgTable.{page_mask}
use evisor.Mm.UserHeap.{page_size, paging_pages}

-- As many sectors as a page takes, or as there are.
pick-IsCount : (n remains : ℕ) → (k : ℕ) × IsCount n remains k
pick-IsCount n remains = elim (dec_le n remains) [
  | yes full ↦ (n, record { turns = omega arith; sectors = full; whole = inl refl })
  | no short ↦ (remains, record { turns = omega arith; sectors = omega arith; whole = inr refl })
]

module _ {D : Type 0} (disk : D → ℕ → ℕ → ℕ) (start user_start : ℕ) where
  module _ (notify : D → Shared → D × Shared) (capacity : ℕ) (serves : Serves notify disk capacity)
      (r : Regs) (positive : 0 < start) (fits : start + heap_pages * page_size ≤ user_start)
      (user_fits : user_start + paging_pages * page_size ≤ u64_mod) (aligned : start % 4096 ≡ 0)
      (user_aligned : user_start % 4096 ≡ 0) where
    pub load_pages-IsLoaded :
        (n fuel cur : ℕ) (c : Sectors) (l : Loading D) (level key : ℕ → ℕ)
        → n < fuel
        → c.remains ≤ n * 8
        → n * 8 < c.remains + 8
        → cur % 4096 ≡ 0
        → cur + n * page_size < 2 ^ 39
        → HasRoom n l.memory
        → IsSound start user_start level key l.memory
        → level l.tsk.mm.page_table ≡ 1
        → IsIdle l.device.1.virtq
        → IsFar user_start l.device.1.virtq.blk_req
        → c.offset + c.remains ≤ capacity
        → c.offset + c.remains ≤ r.device_config_space0 % 2 ^ 23
        → (l' : Loading D) × (load_pages notify r start user_start fuel cur c l
            ≡ some (ok (true, l')))
          × IsLoaded disk start user_start level n cur c l l'
    unfolding load_pages
    load_pages-IsLoaded n zero cur c l level key enough few many whole high room v up idle far small
          inside =
        absurd (omega arith)
    load_pages-IsLoaded zero (suc fuel) cur c l level key enough few many whole high room v up idle
          far small inside =
        let z : c.remains ≡ 0 = omega arith in
        (
          l,
          rw ((==_iff c.remains 0).1 z) refl,
          done-IsLoaded disk start user_start level key cur c l z v up,
        )
    load_pages-IsLoaded (suc n) (suc fuel) cur c l level key enough few many whole high room v up
          idle far small inside =
        let some_left : (c.remains == 0) ≡ false = ==_ne c.remains 0 (omega arith) in
        let base : ℕ = user_start + l.memory.user.next * page_size in
        let cleared : Shared = record l.device.1 { mem = memzero base page_size l.device.1.mem } in
        let (mm, memory, e, served, page, kept, next, room') =
          page_map_lem start user_start positive fits user_fits aligned user_aligned level key n
            l.tsk cur l.memory whole more_room v (λ _. up) in
        let (k, count) = pick-IsCount 8 c.remains in
        let (d, s, run, page_bytes) =
          load_sectors_lem notify disk capacity serves r 8 k base c l.device.0 cleared count idle
            (clear k count.turns) (omega (arith, count.sectors)) (omega (arith, count.sectors)) in
        let c' : Sectors = record { remains = c.remains - k; offset = c.offset + k } in
        let l1 : Loading D = loaded (record l.tsk { mm = mm }) memory (d, s) in
        let same : mm.page_table ≡ l.tsk.mm.page_table = served.same_root nonzero in
        let up' : served.level' mm.page_table ≡ 1 = served.here.0 in
        let (l', run', rest) =
          load_pages-IsLoaded n fuel (cur + page_size) c' l1 served.level' served.key' (omega arith)
            (fewer k count) (more k count) (omega arith) (omega arith) room' served.sound up'
            page_bytes.idle (rw page_bytes.request far) (omega (arith, count.sectors))
            (omega (arith, count.sectors)) in
        (
          l',
          rw (some_left, e, run)
              (ap (λ a. load_pages notify r start user_start fuel a c' l1) (omega arith) ∙ run'),
          more-IsLoaded disk start user_start level n cur k c l l' mm memory d s high whole count
              far (omega (arith, room.pages)) up same served page next kept page_bytes rest,
        )
      where
        nonzero : l.tsk.mm.page_table ≢ 0
        nonzero z =
            let (p, below, place, taken) = v.forest.held l.tsk.mm.page_table (omega (arith, up)) in
            omega (arith, place)

        more_room : HasRoom (n + 1) l.memory
        more_room = record {
          unused = room.unused;
          pages = omega (arith, room.pages);
          tables = omega (arith, room.tables);
        }

        clear :
            (k : ℕ)
            → k ≤ 8
            → IsClear k (user_start + l.memory.user.next * page_size) l.device.1.virtq.blk_req
        clear k le = elim far [
          | inl under ↦ inl (omega (arith, room.pages))
          | inr over ↦ inr (omega arith)
        ]

        fewer : (k : ℕ) → IsCount 8 c.remains k → c.remains - k ≤ n * 8
        fewer k count = elim count.whole [ inl e ↦ omega arith | inr e ↦ omega arith ]

        more : (k : ℕ) → IsCount 8 c.remains k → n * 8 < c.remains - k + 8
        more k count = elim count.whole [
          | inl e ↦ omega (arith, count.sectors)
          | inr e ↦ omega (arith, count.turns)
        ]

    -- From a sound state, for a guest that has tables, with room for the pages, and a device that serves
    -- requests and has the sectors that the driver sees: `LoaderLoadFile` returns true with fuel for
    -- each page and one turn more. The state is sound; the guest has the pages from the one of `va` on,
    -- which are the next ones of the guests' memory, and in these lie the bytes of the disk, from the
    -- first to the last. Every other page of this guest and of all others is where it was; outside of
    -- those pages and of the request no byte changes, and the disk holds what it held.
    pub loader_load_file-IsLoaded :
        (n fuel va : ℕ) (l : Loading D) (level key : ℕ → ℕ)
        → n ≡ (get_disk_capacity r / disk_sector_size + 7) / 8
        → n < fuel
        → page_mask va + n * page_size < 2 ^ 39
        → HasRoom n l.memory
        → IsSound start user_start level key l.memory
        → level l.tsk.mm.page_table ≡ 1
        → IsIdle l.device.1.virtq
        → IsFar user_start l.device.1.virtq.blk_req
        → get_disk_capacity r / disk_sector_size ≤ capacity
        → (l' : Loading D) × (loader_load_file notify r start user_start fuel va l
            ≡ some (ok (true, l')))
          × IsLoaded disk start user_start level n
              (page_mask va)
              (record { remains = get_disk_capacity r / disk_sector_size; offset = 0 })
              l
              l'
    loader_load_file-IsLoaded n fuel va l level key count enough high room v up idle far small =
        load_pages-IsLoaded n fuel (page_mask va)
          (record { remains = get_disk_capacity r / disk_sector_size; offset = 0 }) l level key
          enough (omega arith) (omega arith) (omega arith) high room v up idle far (omega arith)
          (omega (arith, sectors_lem r))

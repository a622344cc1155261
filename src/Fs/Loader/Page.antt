-- ===== src/Fs/Loader/Page.antt =====
-- src/fs/loader.cc: the pages that the loop over them leaves, one after the other.
use evisor.Prelude.{
  ==_ne, ap, ap₂, arith, dec_lt, false, inl, inr, refl, suc, update, zero, ℕ, ℕ_discrete, ◌%◌, ◌*◌,
  ◌+◌, ◌-◌, ◌/◌, ◌<◌, ◌==◌, ◌^◌, ◌∙◌, ◌≡◌, ◌≤◌, ◌⊎◌,
}
use evisor.Common.Cstring.{memzero, zero_from}
use evisor.Drivers.VirtioBlk.{Shared, disk_sector_size}
use evisor.Drivers.VirtioBlk.Transfer.{IsOutside}
use evisor.Fs.Loader.{Loading, Sectors}
use evisor.Fs.Loader.Sector.{IsCount, WasLoaded}
use evisor.Kernel.Task.{MmContext, Tcb}
use evisor.Mm.Fault.{Memory}
use evisor.Mm.Fault.Given.{faulted}
use evisor.Mm.Fault.Isolation.{Maps, dram_entry}
use evisor.Mm.Fault.Served.{IsSound, Served}
use evisor.Mm.PgTable.Forest.{translate}
use evisor.Mm.PgTable.Map.{page_number}
use evisor.Mm.UserHeap.{page_size, paging_pages}

zero_from-outside :
    (dest i n : ℕ) (mem : ℕ → ℕ) (a : ℕ)
    → (a < dest + i) ⊎ (dest + i + n ≤ a)
    → zero_from dest i n mem a ≡ mem a
unfolding zero_from
zero_from-outside dest i zero mem a out = refl
zero_from-outside dest i (suc n) mem a out =
    let other : (dest + i == a) ≡ false = ==_ne (dest + i) a (omega (arith, out)) in
    zero_from-outside dest (suc i) n (update mem (dest + i) 0) a
      (elim out [ inl low ↦ inl (omega arith) | inr high ↦ inr (omega arith) ])
    ∙ rw other refl

-- Another page than the `n` from the one of `cur` on.
abbrev pub IsBeyond : ℕ → ℕ → ℕ → Type 0
IsBeyond n cur a = (page_number a < page_number cur) ⊎ (page_number cur + n ≤ page_number a)

-- The pages of the guests' memory are apart from the request.
abbrev pub IsFar : ℕ → ℕ → Type 0
IsFar user_start req = (user_start + paging_pages * page_size ≤ req) ⊎ (req + 529 ≤ user_start)

-- What the loop over the pages leaves: the guest has `n` pages in a row from `cur` on, which are the
-- next `n` of the guests' memory, and in these are the bytes of the sectors, in a row.
pub record IsLoaded {D : Type 0} (disk : D → ℕ → ℕ → ℕ) (start user_start : ℕ) (level : ℕ → ℕ)
    (n cur : ℕ) (c : Sectors) (l l' : Loading D) : Type 0 where
  pub level' : ℕ → ℕ
  pub key' : ℕ → ℕ
  pub sound : IsSound start user_start level' key' l'.memory
  pub root : l'.tsk.mm.page_table ≡ l.tsk.mm.page_table
  pub up : level' l'.tsk.mm.page_table ≡ 1
  pub pages :
      (q : ℕ)
      → q < n
      → Maps user_start level' l'.memory.tables.mem l'.tsk.mm.page_table
          (cur + q * page_size)
          (l.memory.user.next + q)
  pub elsewhere :
      (r a : ℕ)
      → level r ≡ 1
      → (r ≡ l.tsk.mm.page_table → IsBeyond n cur a)
      → translate l'.memory.tables.mem r a ≡ translate l.memory.tables.mem r a
  pub bytes :
      (i : ℕ)
      → i < c.remains * disk_sector_size
      → l'.device.1.mem (user_start + l.memory.user.next * page_size + i)
        ≡ disk l.device.0 (c.offset + i / disk_sector_size) (i % disk_sector_size)
  pub others :
      (a : ℕ)
      → IsOutside (user_start + l.memory.user.next * page_size) (n * page_size) a
      → IsOutside l.device.1.virtq.blk_req 529 a
      → l'.device.1.mem a ≡ l.device.1.mem a
  pub kept : (sector offset : ℕ) → disk l'.device.0 sector offset ≡ disk l.device.0 sector offset

-- Nothing is left to load.
pub done-IsLoaded :
    {D : Type 0} (disk : D → ℕ → ℕ → ℕ) (start user_start : ℕ) (level key : ℕ → ℕ) (cur : ℕ)
    (c : Sectors) (l : Loading D)
    → c.remains ≡ 0
    → IsSound start user_start level key l.memory
    → level l.tsk.mm.page_table ≡ 1
    → IsLoaded disk start user_start level 0 cur c l l
done-IsLoaded disk start user_start level key cur c l z v up = record {
  level' = level;
  key' = key;
  sound = v;
  root = refl;
  up = up;
  pages = λ q lt. absurd (none q lt);
  elsewhere = λ r a one out. refl;
  bytes = λ i lt. absurd (none i (omega arith));
  others = λ a out away. refl;
  kept = λ sector offset. refl;
}
  where
    none : (i : ℕ) → i < 0 → ⊥
    none i lt = omega arith

-- The state between two pages.
abbrev pub loaded : {D : Type 0} → Tcb → Memory → D × Shared → Loading D
loaded tsk memory device = record { tsk = tsk; memory = memory; device = device }

module _ {D : Type 0} (disk : D → ℕ → ℕ → ℕ) (start user_start : ℕ) where
  -- One page, and then the others.
  pub more-IsLoaded :
      (level : ℕ → ℕ) (n cur k : ℕ) (c : Sectors) (l l' : Loading D) (mm : MmContext)
      (memory : Memory) (d : D) (s : Shared)
      → cur + suc n * page_size < 2 ^ 39
      → cur % 4096 ≡ 0
      → IsCount 8 c.remains k
      → IsFar user_start l.device.1.virtq.blk_req
      → l.memory.user.next + suc n ≤ paging_pages
      → level l.tsk.mm.page_table ≡ 1
      → mm.page_table ≡ l.tsk.mm.page_table
      → (v : Served start user_start level l.tsk cur l.memory (faulted l.tsk mm) memory)
      → v.page ≡ l.memory.user.next
      → memory.user.next ≡ l.memory.user.next + 1
      → ((u : ℕ) → 1 ≤ level u → v.level' u ≡ level u)
      → WasLoaded disk k
          (user_start + l.memory.user.next * page_size)
          c.offset
          l.device.0
          (record l.device.1 {
            mem = memzero (user_start + l.memory.user.next * page_size) page_size l.device.1.mem;
          })
          d
          s
      → IsLoaded disk start user_start v.level' n
          (cur + page_size)
          (record { remains = c.remains - k; offset = c.offset + k })
          (loaded (record l.tsk { mm = mm }) memory (d, s))
          l'
      → IsLoaded disk start user_start level (suc n) cur c l l'
  more-IsLoaded level n cur k c l l' mm memory d s high whole count far fit up same v page next kept
        page_bytes rest =
      let base : ℕ = user_start + l.memory.user.next * page_size in
      record {
        level' = rest.level';
        key' = rest.key';
        sound = rest.sound;
        root = rest.root ∙ same;
        up = rest.up;
        pages = λ q lt. elim (ℕ_discrete q 0) [
          | yes z ↦ (
            rest.up,
            omega arith,
            ap₂ (translate l'.memory.tables.mem) rest.root (omega arith)
                ∙ rest.elsewhere mm.page_table cur v.here.0 (λ _. inl (omega arith))
                ∙ v.here.2
                ∙ ap (dram_entry user_start) (page ∙ omega arith),
          )
          | no nz ↦
              let (root, below, found) = rest.pages (q - 1) (omega arith) in
              (
                root,
                omega arith,
                ap (translate l'.memory.tables.mem l'.tsk.mm.page_table) (omega arith)
                    ∙ found
                    ∙ ap (dram_entry user_start) (omega (arith, next)),
              )
        ];
        elsewhere = λ r a one out.
            rest.elsewhere r a (kept r (omega (arith, one)) ∙ one) (λ e. beyond a (out (e ∙ same)))
            ∙ v.elsewhere r a one (λ e same_page. another a same_page (out (e ∙ same)));
        bytes = λ i lt. elim (dec_lt i page_size) [
          | yes low ↦
              rest.others (base + i) (inl (omega (arith, next))) (away i low)
              ∙ page_bytes.bytes i (within i lt low)
          | no up ↦
              let j : ℕ = i - page_size in
              ap l'.device.1.mem (omega (arith, next))
              ∙ rest.bytes j (omega (arith, full i lt (omega arith)))
              ∙ page_bytes.kept _ _
              ∙ ap₂ (disk l.device.0) (omega (arith, full i lt (omega arith))) (omega arith)
        ];
        others = λ a out apart.
            rest.others a (inner a out) (rw page_bytes.request apart)
            ∙ page_bytes.others a (outer a out) apart
            ∙ zero_from-outside base 0 page_size l.device.1.mem a (cleared a out);
        kept = λ sector offset. rest.kept sector offset ∙ page_bytes.kept sector offset;
      }
    where
      beyond : (a : ℕ) → IsBeyond (suc n) cur a → IsBeyond n (cur + page_size) a
      beyond a (inl low) = inl (omega arith)
      beyond a (inr up) = inr (omega arith)

      another : (a : ℕ) → page_number a ≡ page_number cur → IsBeyond (suc n) cur a → ⊥
      another a e (inl low) = omega arith
      another a e (inr up) = omega arith

      away :
          (i : ℕ)
          → i < page_size
          → IsOutside s.virtq.blk_req 529 (user_start + l.memory.user.next * page_size + i)
      away i low =
          rw page_bytes.request
            (elim far [ inl under ↦ inl (omega arith) | inr over ↦ inr (omega arith) ])

      within : (i : ℕ) → i < c.remains * disk_sector_size → i < page_size → i < k * disk_sector_size
      within i lt low = elim count.whole [ inl e ↦ omega arith | inr e ↦ omega arith ]

      full : (i : ℕ) → i < c.remains * disk_sector_size → page_size ≤ i → k ≡ 8
      full i lt up = elim count.whole [ inl e ↦ e | inr e ↦ omega (arith, count.turns) ]

      inner :
          (a : ℕ)
          → IsOutside (user_start + l.memory.user.next * page_size) (suc n * page_size) a
          → IsOutside (user_start + memory.user.next * page_size) (n * page_size) a
      inner a (inl low) = inl (omega (arith, next))
      inner a (inr up) = inr (omega (arith, next))

      outer :
          (a : ℕ)
          → IsOutside (user_start + l.memory.user.next * page_size) (suc n * page_size) a
          → IsOutside (user_start + l.memory.user.next * page_size) (k * disk_sector_size) a
      outer a (inl low) = inl low
      outer a (inr up) = inr (omega (arith, count.turns))

      cleared :
          (a : ℕ)
          → IsOutside (user_start + l.memory.user.next * page_size) (suc n * page_size) a
          → (a < user_start + l.memory.user.next * page_size + 0)
            ⊎ (user_start + l.memory.user.next * page_size + 0 + page_size ≤ a)
      cleared a (inl low) = inl (omega arith)
      cleared a (inr up) = inr (omega arith)

-- ===== src/Fs/Loader/Sector.antt =====
-- src/fs/loader.cc: the sectors that are read into a page.
use evisor.Prelude.{
  ==_ne, ==_iff, subst, false, ap, ap₂, arith, dec_lt, inl, inr, refl, some, suc, sym, true,
  u32_mod, zero, ℕ, ◌%◌, ◌*◌, ◌+◌, ◌-◌, ◌/◌, ◌<◌, ◌==◌, ◌^◌, ◌∙◌, ◌≡◌, ◌≤◌, ◌⊎◌,
}
use evisor.Drivers.VirtioBlk.{Regs, Shared, disk_sector_size}
use evisor.Drivers.VirtioBlk.Device.{Serves}
use evisor.Drivers.VirtioBlk.Read.{read_disk_lem}
use evisor.Drivers.VirtioBlk.Request.{IsApart}
use evisor.Drivers.VirtioBlk.Transfer.{IsIdle, IsOutside, WasRead}
use evisor.Fs.Loader.{Sectors, load_sectors, next_sector}

-- What the loop leaves after `k` sectors from `sector` on: their bytes in a row from `buf` on, and
-- nothing else outside of the request.
pub record WasLoaded {D : Type 0} (disk : D → ℕ → ℕ → ℕ) (k buf sector : ℕ) (d : D) (s : Shared)
    (d' : D) (s' : Shared) : Type 0 where
  pub bytes :
      (i : ℕ)
      → i < k * disk_sector_size
      → s'.mem (buf + i) ≡ disk d (sector + i / disk_sector_size) (i % disk_sector_size)
  pub others :
      (a : ℕ)
      → IsOutside buf (k * disk_sector_size) a
      → IsOutside s.virtq.blk_req 529 a
      → s'.mem a ≡ s.mem a
  pub kept : (other offset : ℕ) → disk d' other offset ≡ disk d other offset
  pub idle : IsIdle s'.virtq
  pub request : s'.virtq.blk_req ≡ s.virtq.blk_req

-- The `k` sectors from `buf` on are apart from the request.
abbrev pub IsClear : ℕ → ℕ → ℕ → Type 0
IsClear k buf req = (buf + k * disk_sector_size ≤ req) ⊎ (req + 529 ≤ buf)

-- As many turns as there are, or as many as there are sectors left.
pub record IsCount (n remains k : ℕ) : Type 0 where
  pub turns : k ≤ n
  pub sectors : k ≤ remains
  pub whole : (k ≡ n) ⊎ (k ≡ remains)

nothing-WasLoaded :
    {D : Type 0} (disk : D → ℕ → ℕ → ℕ) (k buf sector : ℕ) (d : D) (s : Shared)
    → k ≡ 0
    → IsIdle s.virtq
    → WasLoaded disk k buf sector d s d s
nothing-WasLoaded disk k buf sector d s z idle = record {
  bytes = λ i lt. absurd (none i (omega arith));
  others = λ a out away. refl;
  kept = λ other offset. refl;
  idle = idle;
  request = refl;
}
  where
    none : (i : ℕ) → i < 0 → ⊥
    none i lt = omega arith

-- One sector, and then the others.
more-WasLoaded :
    {D : Type 0} (disk : D → ℕ → ℕ → ℕ) (k buf sector : ℕ) (d d1 d2 : D) (s s1 s2 : Shared)
    → IsClear (suc k) buf s.virtq.blk_req
    → WasRead disk buf sector d s d1 s1
    → WasLoaded disk k (buf + disk_sector_size) (sector + 1) d1 s1 d2 s2
    → WasLoaded disk (suc k) buf sector d s d2 s2
more-WasLoaded disk k buf sector d d1 d2 s s1 s2 clear first rest = record {
  bytes = λ i lt. elim (dec_lt i disk_sector_size) [
    | yes low ↦
        rest.others (buf + i) (inl (omega arith)) (away i lt)
        ∙ first.bytes i low
        ∙ ap₂ (disk d) (omega arith) (omega arith)
    | no high ↦
        let j : ℕ = i - disk_sector_size in
        ap s2.mem (omega arith)
        ∙ rest.bytes j (omega arith)
        ∙ first.kept _ _
        ∙ ap₂ (disk d) (omega arith) (omega arith)
  ];
  others = λ a out far.
      rest.others a (inner a out) (rw first.request far) ∙ first.others a (outer a out) far;
  kept = λ other offset. rest.kept other offset ∙ first.kept other offset;
  idle = rest.idle;
  request = rest.request ∙ first.request;
}
  where
    away : (i : ℕ) → i < suc k * disk_sector_size → IsOutside s1.virtq.blk_req 529 (buf + i)
    away i lt =
        rw first.request (elim clear [ inl low ↦ inl (omega arith) | inr high ↦ inr (omega arith) ])

    inner :
        (a : ℕ)
        → IsOutside buf (suc k * disk_sector_size) a
        → IsOutside (buf + disk_sector_size) (k * disk_sector_size) a
    inner a (inl low) = inl (omega arith)
    inner a (inr high) = inr (omega arith)

    outer : (a : ℕ) → IsOutside buf (suc k * disk_sector_size) a → IsOutside buf disk_sector_size a
    outer a (inl low) = inl low
    outer a (inr high) = inr (omega arith)

module _ {D : Type 0} (notify : D → Shared → D × Shared) (disk : D → ℕ → ℕ → ℕ) (capacity : ℕ)
    (serves : Serves notify disk capacity) (r : Regs) where
  -- With a device that serves requests, on a queue with none under way, for a page apart from the
  -- request and sectors that both the device and the driver have: the loop of `LoaderLoadFile` over a
  -- page succeeds with `k` sectors, all that fit or all that are left. The page holds their bytes in
  -- a row, the disk holds what it held, and outside of them and of the request no byte changes.
  pub load_sectors_lem :
      (n k buf : ℕ) (c : Sectors) (d : D) (s : Shared)
      → IsCount n c.remains k
      → IsIdle s.virtq
      → IsClear k buf s.virtq.blk_req
      → c.offset + k ≤ capacity
      → c.offset + k ≤ r.device_config_space0 % 2 ^ 23
      → (d' : D) × (s' : Shared) × (load_sectors notify r n buf c (d, s)
          ≡ some (true, (record { remains = c.remains - k; offset = c.offset + k }, (d', s'))))
        × WasLoaded disk k buf c.offset d s d' s'
  unfolding load_sectors
  load_sectors_lem zero k buf c d s count idle clear small inside =
      let z : k ≡ 0 = omega (arith, count.turns) in
      (
        d,
        s,
        ap₂ (λ m o. some (true, (record { remains = m; offset = o }, (d, s)))) (omega arith)
            (omega arith),
        nothing-WasLoaded disk k buf c.offset d s z idle,
      )
  load_sectors_lem (suc n) zero buf c d s count idle clear small inside =
      let none_left : c.remains ≡ 0 = elim count.whole [
        | inl e ↦ absurd (clash e)
        | inr e ↦ sym e
      ] in
      (
        d,
        s,
        rw ((==_iff c.remains 0).1 none_left) (
            ap₂ (λ m o. some (true, (record { remains = m; offset = o }, (d, s)))) (omega arith)
              (omega arith)),
        nothing-WasLoaded disk 0 buf c.offset d s refl idle,
      )
    where
      clash : zero ≡ suc n → ⊥
      clash e = omega arith
  load_sectors_lem (suc n) (suc k) buf c d s count idle clear small inside =
      let some_left : (c.remains == 0) ≡ false = ==_ne c.remains 0 (λ e. absurd (left e)) in
      let follows : (c.offset + 1) % u32_mod ≡ c.offset + 1 = omega arith in
      let (d1, s1, run, first) =
        read_disk_lem notify disk capacity serves r buf c.offset d s idle apart (omega arith)
          (omega arith) in
      let (d2, s2, run', rest) =
        load_sectors_lem n k (buf + disk_sector_size) (next_sector c) d1 s1 fewer first.idle
          (rw first.request beyond) (omega arith) (omega arith) in
      (
        d2,
        s2,
        rw (some_left, run)
            (run'
              ∙ ap₂ (λ m o. some (true, (record { remains = m; offset = o }, (d2, s2))))
                  (omega arith) (omega arith)),
        more-WasLoaded disk k buf c.offset d d1 d2 s s1 s2 clear first
            (subst (λ o. WasLoaded disk k (buf + disk_sector_size) o d1 s1 d2 s2) follows rest),
      )
    where
      left : c.remains ≡ 0 → ⊥
      left e = omega (arith, count.sectors)

      apart : IsApart buf s.virtq.blk_req
      apart = elim clear [ inl low ↦ inl (omega arith) | inr high ↦ inr high ]

      beyond : IsClear k (buf + disk_sector_size) s.virtq.blk_req
      beyond = elim clear [ inl low ↦ inl (omega arith) | inr high ↦ inr (omega arith) ]

      fewer : IsCount n (c.remains - 1) k
      fewer = record {
        turns = omega (arith, count.turns);
        sectors = omega (arith, count.sectors);
        whole = elim count.whole [ inl e ↦ inl (omega arith) | inr e ↦ inr (omega arith) ];
      }

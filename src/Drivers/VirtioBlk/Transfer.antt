-- ===== src/Drivers/VirtioBlk/Transfer.antt =====
-- src/drivers/virtio/virtio-blk.cc: ReadDisk and WriteDisk with a device that serves requests.
use evisor.Prelude.{arith, false, leb, u16_mod, ℕ, ◌%◌, ◌+◌, ◌/◌, ◌<◌, ◌==◌, ◌^◌, ◌≡◌, ◌≤◌, ◌⊎◌}
use evisor.Drivers.VirtioBlk.{Regs, Shared, Virtq, disk_sector_size, get_disk_capacity}

-- No request is under way.
pub record IsIdle (q : Virtq) : Type 0 where
  pub small_index : q.avail_index < u16_mod
  pub done : q.last_used_index ≡ q.used_index

-- The number of sectors that the driver works with: the capacity in bytes is cut to 32 bits.
pub sectors_lem :
    (r : Regs) → get_disk_capacity r / disk_sector_size ≡ r.device_config_space0 % 2 ^ 23
sectors_lem r = omega arith

-- The address lies outside of a block of `n` bytes.
abbrev pub IsOutside : ℕ → ℕ → ℕ → Type 0
IsOutside start n a = (a < start) ⊎ (start + n ≤ a)

-- What ReadDisk leaves: the bytes of the sector in the buffer, and nothing else outside of the
-- request.
pub record WasRead {D : Type 0} (disk : D → ℕ → ℕ → ℕ) (buf sector : ℕ) (d : D) (s : Shared)
    (d' : D) (s' : Shared) : Type 0 where
  pub bytes :
      (offset : ℕ) → offset < disk_sector_size → s'.mem (buf + offset) ≡ disk d sector offset
  pub others :
      (a : ℕ)
      → IsOutside buf disk_sector_size a
      → IsOutside s.virtq.blk_req 529 a
      → s'.mem a ≡ s.mem a
  pub kept : (other offset : ℕ) → disk d' other offset ≡ disk d other offset
  pub idle : IsIdle s'.virtq
  pub request : s'.virtq.blk_req ≡ s.virtq.blk_req

-- What WriteDisk leaves: the bytes of the buffer in the sector, every other sector as it was, and
-- nothing else outside of the request.
pub record WasWritten {D : Type 0} (disk : D → ℕ → ℕ → ℕ) (buf sector : ℕ) (d : D) (s : Shared)
    (d' : D) (s' : Shared) : Type 0 where
  pub bytes :
      (offset : ℕ) → offset < disk_sector_size → disk d' sector offset ≡ s.mem (buf + offset)
  pub kept :
      (other offset : ℕ)
      → offset < disk_sector_size
      → (other == sector) ≡ false
      → disk d' other offset ≡ disk d other offset
  pub others : (a : ℕ) → IsOutside s.virtq.blk_req 529 a → s'.mem a ≡ s.mem a
  pub idle : IsIdle s'.virtq
  pub request : s'.virtq.blk_req ≡ s.virtq.blk_req

-- A sector that the driver works with.
pub in_capacity :
    (r : Regs) (sector : ℕ)
    → sector < r.device_config_space0 % 2 ^ 23
    → leb (get_disk_capacity r / disk_sector_size) sector ≡ false
in_capacity r sector inside = rw (sectors_lem r) (ground arith)

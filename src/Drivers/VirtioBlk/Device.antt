-- ===== src/Drivers/VirtioBlk/Device.antt =====
-- What the driver relies on of a block device (Virtual I/O Device, version 1.3, sections 2.7 and 5.2):
-- how it reads a chain of descriptors, and what it does when it is notified of one request.
use evisor.Prelude.{Bool, if◌then◌else◌, leb, ltb, u16_mod, ℕ, ◌%◌, ◌&&◌, ◌+◌, ◌-◌, ◌<◌, ◌==◌, ◌≡◌}
use evisor.Prelude.Digits.{bit}
use evisor.Prelude.Words.{load}
use evisor.Drivers.VirtioBlk.{Shared, VirtqDesc, virt_queue_size, disk_sector_size}

-- The descriptors of the chain that was made available last.
abbrev pub head : Shared → VirtqDesc
head s =
    s.virtq.descs
      (s.virtq.avail_ring ((s.virtq.avail_index + (u16_mod - 1)) % u16_mod % virt_queue_size))

abbrev pub body : Shared → VirtqDesc
body s = s.virtq.descs (head s).next

abbrev pub last : Shared → VirtqDesc
last s = s.virtq.descs (body s).next

-- The two numbers of the header.
abbrev pub request_type : Shared → ℕ
request_type s = load 4 s.mem (head s).addr

abbrev pub request_sector : Shared → ℕ
request_sector s = load 8 s.mem ((head s).addr + 8)

-- A chain of a header that the device reads, a block of one sector, and a status that it writes.
pub record IsChain (s : Shared) : Type 0 where
  pub head_continues : bit (head s).flags 0 ≡ 1
  pub head_len : (head s).len ≡ 16
  pub body_continues : bit (body s).flags 0 ≡ 1
  pub body_len : (body s).len ≡ disk_sector_size
  pub last_ends : bit (last s).flags 0 ≡ 0
  pub last_written : bit (last s).flags 1 ≡ 1
  pub last_len : (last s).len ≡ 1

-- Is `a` in the block of one sector at `start`?
abbrev pub in_sector : ℕ → ℕ → Bool
in_sector start a = leb start a && ltb a (start + disk_sector_size)

-- The memory with a status of 0, after the bytes of a sector have been written to the block.
abbrev pub with_status : ℕ → (ℕ → ℕ) → ℕ → ℕ
with_status at mem a = if a == at then 0 else mem a

abbrev pub with_sector : ℕ → (ℕ → ℕ) → (ℕ → ℕ) → ℕ → ℕ
with_sector start sector mem a = if in_sector start a then sector (a - start) else mem a

-- The request entered into the used ring.
abbrev pub used : Shared → (ℕ → ℕ) → Shared
used s mem = record {
  virtq = record s.virtq { used_index = (s.virtq.used_index + 1) % u16_mod };
  mem = mem;
}

-- A device whose state holds `capacity` sectors: `disk d sector offset` is a byte.
pub record Serves {D : Type 0} (notify : D → Shared → D × Shared) (disk : D → ℕ → ℕ → ℕ)
    (capacity : ℕ) : Type 0 where
  pub read_served :
      (d : D) (s : Shared)
      → IsChain s
      → request_type s ≡ 0
      → bit (body s).flags 1 ≡ 1
      → request_sector s < capacity
      → ((notify d s).1
          ≡ used s (
              with_status
                (last s).addr
                (with_sector (body s).addr (disk d (request_sector s)) s.mem)))
        × ((sector offset : ℕ) → disk (notify d s).0 sector offset ≡ disk d sector offset)
  pub write_served :
      (d : D) (s : Shared)
      → IsChain s
      → request_type s ≡ 1
      → bit (body s).flags 1 ≡ 0
      → request_sector s < capacity
      → ((notify d s).1 ≡ used s (with_status (last s).addr s.mem))
        × ((sector offset : ℕ)
            → offset < disk_sector_size
            → disk (notify d s).0 sector offset ≡ (
                if sector == request_sector s
                then s.mem ((body s).addr + offset)
                else disk d sector offset))

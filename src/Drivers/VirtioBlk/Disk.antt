-- ===== src/Drivers/VirtioBlk/Disk.antt =====
-- A disk that serves requests as the specification of virtio says: the device of the tests.
use evisor.Prelude.{if◌then◌else◌, refl, ℕ, ◌+◌, ◌==◌}
use evisor.Drivers.VirtioBlk.{Shared}
use evisor.Drivers.VirtioBlk.Device.{
  Serves, body, last, request_sector, request_type, used, with_sector, with_status,
}

-- The bytes of each sector.
abbrev pub Disk : Type 0
Disk = ℕ → ℕ → ℕ

abbrev pub disk : Disk → ℕ → ℕ → ℕ
disk d sector offset = d sector offset

-- What the disk does with the request that was made available last.
pub serve : Disk → Shared → Disk × Shared
serve d s =
    if request_type s == 0
    then (
      d,
      used s (with_status (last s).addr (with_sector (body s).addr (d (request_sector s)) s.mem)),
    )
    else (
      λ sector offset.
          if sector == request_sector s then s.mem ((body s).addr + offset) else d sector offset,
      used s (with_status (last s).addr s.mem),
    )

pub serve-Serves : (capacity : ℕ) → Serves serve disk capacity
unfolding serve
serve-Serves capacity = record {
  read_served = λ d s chain type flags small. rw type (refl, λ sector offset. refl);
  write_served = λ d s chain type flags small. rw type (refl, λ sector offset lt. refl);
}

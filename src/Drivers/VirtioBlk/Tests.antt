-- ===== src/Drivers/VirtioBlk/Tests.antt =====
-- The theorem about a disk of 64 sectors.
use evisor.Prelude.{arith, if◌then◌else◌, refl, some, true, ℕ, ◌%◌, ◌+◌, ◌<◌, ◌==◌, ◌^◌, ◌≡◌}
use evisor.Drivers.VirtioBlk.{Regs, Shared, disk_sector_size, read_disk, write_disk}
use evisor.Drivers.VirtioBlk.Disk.{Disk, disk, serve, serve-Serves}
use evisor.Drivers.VirtioBlk.Transfer.{IsOutside}
use evisor.Drivers.VirtioBlk.Write.{write_disk-read_disk}

abbrev regs : Regs
regs = record {
  magic_value = 0x74726976;
  version = 1;
  device_id = 2;
  queue_sel = 0;
  queue_num = 16;
  queue_align = 4096;
  queue_pfn = 0x3000;
  queue_ready = 1;
  device_status = 15;
  device_config_space0 = 64;
}

abbrev shared : Shared
shared = record {
  virtq = record {
    descs = λ _. record { addr = 0; len = 0; flags = 0; next = 0 };
    avail_index = 65535;
    avail_ring = λ _. 7;
    used_index = 65535;
    blk_req = 0x5000;
    last_used_index = 65535;
  };
  mem = λ a. a % 2 ^ 8;
}

write_disk-read_disk_example :
    (d1 : Disk) × (s1 : Shared) × (d2 : Disk) × (s2 : Shared) × (write_disk serve regs 0x1000 3
        (λ _ _. 0, shared)
      ≡ some (true, (d1, s1)))
    × (read_disk serve regs 0x2000 3 (d1, s1) ≡ some (true, (d2, s2)))
    × ((offset : ℕ)
        → offset < disk_sector_size
        → s2.mem (0x2000 + offset) ≡ (if 3 == 3 then shared.mem (0x1000 + offset) else 0))
    × ((a : ℕ)
        → IsOutside 0x2000 disk_sector_size a
        → IsOutside 0x5000 529 a
        → s2.mem a ≡ shared.mem a)
write_disk-read_disk_example =
    write_disk-read_disk serve disk 64 regs 0x1000 0x2000 3 3 (λ _ _. 0) shared (serve-Serves 64)
      (record { small_index = omega arith; done = refl }) (omega arith) (omega arith) (omega arith)
      (omega arith) (omega arith) (omega arith)

-- ===== src/Fs/Fat32/Read/Tests.antt =====
-- Reading a file of 1000 bytes in one cluster of 8 sectors.
use evisor.Prelude.{
  List, arith, get_elem?, refl, some, true, ℕ, ◌%◌, ◌*◌, ◌+◌, ◌/◌, ◌<◌, ◌≡◌, ◌≢◌, ◌≤◌,
}
use evisor.Prelude.Outcome.{ok, fault}
use evisor.Fs.Fat32.{Volume}
use evisor.Fs.Fat32.Cluster.{is_valid_cluster, calc_sector}
use evisor.Fs.Fat32.Chain.{follow}
use evisor.Fs.Fat32.Read.{File, init_file, read_file}
use evisor.Fs.Fat32.Read.Sector.{Asked}
use evisor.Fs.Fat32.Read.Bytes.{Below, file_byte, read_file-file_byte}
use evisor.Fs.Fat32.Read.Crossing.{read_file_crossing}

abbrev volume : Volume
volume = record {
  bpb = record {
    byts_per_sec = 512;
    sec_per_clus = 8;
    rsvd_sec_cnt = 32;
    num_fats = 2;
    root_ent_cnt = 0;
    tot_sec32 = 0x100000;
    fat_sz32 = 0x400;
    root_clus = 2;
    fil_sys_type = λ i. b'F';
    boot_sign = 0xaa55;
  };
  first_lba = 0x800;
  fat_first_sector = 32;
  fat_sectors = 0x800;
  rde_first_sector = 0x820;
  rde_sectors = 0;
  data_first_sector = 0x820;
  data_sectors = 0xff7e0;
}

-- Each byte tells the sector and the place that it was read from.
abbrev disk : ℕ → ℕ → ℕ
disk lba i = (lba + i) % 256

abbrev file : File
file = init_file volume 0x20 1000 3

-- `float` is exact for so few bytes.
abbrev rounded : ℕ → ℕ
rounded n = (n + 256) / 512

asked : (offset len : ℕ) → offset + len ≤ 1000 → 0 < len → Asked disk file offset len
unfolding is_valid_cluster follow
asked offset len fits some_bytes = record {
  linked = tt;
  blocks = refl;
  some_bytes = some_bytes;
  inside = fits;
  small = omega arith;
  good = let first : offset / (8 * 512) ≡ 0 = omega arith in rw first refl;
}

low_sectors : Below disk file 600
unfolding calc_sector follow
low_sectors = record { first = omega arith; table = omega arith; sector = omega arith }

read_file-file_byte_example :
    (bytes : List ℕ) × (nodes : List ℕ) × (read_file disk rounded true file 600 8
      ≡ ok (8, bytes, record file { rest = nodes }))
    × ((i : ℕ) → i < 8 → get_elem? bytes i ≡ some (file_byte disk file (600 + i)))
read_file-file_byte_example =
    read_file-file_byte disk rounded file 600 8 (asked 600 8 (omega arith) (omega arith))
      low_sectors (omega arith)

sector_inner : calc_sector volume 3 500 % 8 ≢ 7
unfolding calc_sector
sector_inner e = omega (arith, e)

read_file_crossing_example : read_file disk rounded true file 500 20 ≡ fault
read_file_crossing_example =
    read_file_crossing disk rounded file 500 20 (asked 500 20 (omega arith) (omega arith)) refl
      (omega arith) (omega arith) (omega arith) sector_inner

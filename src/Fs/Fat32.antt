-- ===== src/Fs/Fat32.antt =====
-- src/fs/fat/fat32.h and fat32.cc: the on-disk structures and the mounting of volumes.
-- The block device is a parameter: `read lba` are the bytes of a sector. Logging, the allocation of
-- sector buffers and the optional print of the volume label are left out.
pub mod Mount
pub mod Cluster
pub mod Chain
pub mod Name
pub mod Read
pub mod Lfn
pub mod Open
mod Tests
use evisor.Prelude.{
  ==_iff, ==_ne, ==_refl, All, All-append, All-get, All-map, All-set, Bool, Bool-cases, List,
  Option, Option-cases, [], ap, append-nil, append_assoc, ap₂, arith, bit_and, bit_or, dec_le,
  dec_lt, false, fun_ext, get_elem?, get_elem?-lt, get_elem?-set_ne, get_elem?-set_self,
  get_elem?-some, if◌then◌else◌, inl, inr, leb, leb→le, length, length-append, length-map,
  length-replicate, length-set, ltb, ltb→lt, lt→ltb, map, none, not, refl, replicate, set, some,
  subst, suc, sym, take, true, u16_mod, u32_mod, u64_mod, u8_mod, update, zero, ℕ, ℕ_discrete, ◌%◌,
  ◌&&◌, ◌*◌, ◌++◌, ◌+◌, ◌-◌, ◌/◌, ◌<◌, ◌==◌, ◌^◌, ◌||◌, ◌↔◌, ◌∙◌, ◌∷◌, ◌≡◌, ◌≢◌, ◌≤◌, ◌⊎◌,
}
use evisor.Prelude.Outcome.{Outcome, ok, panic, fault, ◌>>=◌}

-- Little-endian numbers at a position of a sector.
abbrev pub le16 : (ℕ → ℕ) → ℕ → ℕ
le16 b i = b i + b (i + 1) * 2 ^ 8

abbrev pub le32 : (ℕ → ℕ) → ℕ → ℕ
le32 b i = le16 b i + le16 b (i + 2) * 2 ^ 16

-- `kBlockSize`, `kBootSignature`, `MAX_FAT_VOLUME_SIZE`
abbrev pub block_size : ℕ
block_size = 512

abbrev pub boot_signature : ℕ
boot_signature = 0xaa55

-- `ReadSector` on a card of sectors: byte `k` of the buffer. The position on the card is computed in
-- 32 bits.
abbrev pub read_sector : (ℕ → ℕ → ℕ) → ℕ → ℕ → ℕ
read_sector read lba k =
    read (block_size * lba % u32_mod / block_size + k / block_size) (k % block_size)

-- The fields of the BIOS parameter block that the code reads.
pub record Bpb : Type 0 where
  pub byts_per_sec : ℕ
  pub sec_per_clus : ℕ
  pub rsvd_sec_cnt : ℕ
  pub num_fats : ℕ
  pub root_ent_cnt : ℕ
  pub tot_sec32 : ℕ
  pub fat_sz32 : ℕ
  pub root_clus : ℕ
  pub fil_sys_type : ℕ → ℕ
  pub boot_sign : ℕ

-- `*(fat32_bpb_t*)buf`
pub parse_bpb : (ℕ → ℕ) → Bpb
parse_bpb b = record {
  byts_per_sec = le16 b 11;
  sec_per_clus = b 13;
  rsvd_sec_cnt = le16 b 14;
  num_fats = b 16;
  root_ent_cnt = le16 b 17;
  tot_sec32 = le32 b 32;
  fat_sz32 = le32 b 36;
  root_clus = le32 b 44;
  fil_sys_type = λ i. b (82 + i);
  boot_sign = le16 b 510;
}

-- `fat32_fat_t`, with the cluster and the size of its root file.
pub record Volume : Type 0 where
  pub bpb : Bpb
  pub first_lba : ℕ
  pub fat_first_sector : ℕ
  pub fat_sectors : ℕ
  pub rde_first_sector : ℕ
  pub rde_sectors : ℕ
  pub data_first_sector : ℕ
  pub data_sectors : ℕ

pub check_bpb : Bpb → Bool
check_bpb b =
    if not (b.byts_per_sec == block_size)
    then false
    else if not (b.boot_sign == boot_signature)
    then false
    else if not (b.fil_sys_type 0 == b'F' && b.fil_sys_type 1 == b'A' && b.fil_sys_type 2 == b'T')
    then false
    else true

-- "Calculate areas in partition", in 32-bit arithmetic.
pub areas : Bpb → ℕ → Volume
areas b lba =
    let fat_sectors = b.fat_sz32 * b.num_fats % u32_mod in
    let rde_first = (b.rsvd_sec_cnt + fat_sectors) % u32_mod in
    let rde_sectors = (32 * b.root_ent_cnt + b.byts_per_sec - 1) / b.byts_per_sec % u32_mod in
    let data_first = (rde_first + rde_sectors) % u32_mod in
    record {
      bpb = b;
      first_lba = lba;
      fat_first_sector = b.rsvd_sec_cnt;
      fat_sectors = fat_sectors;
      rde_first_sector = rde_first;
      rde_sectors = rde_sectors;
      data_first_sector = data_first;
      data_sectors = (b.tot_sec32 + u32_mod - data_first) % u32_mod;
    }

-- The second loop of `Init` for one volume: none if it is not valid. A cluster of 0 sectors is a
-- division by zero.
pub mount : (ℕ → ℕ → ℕ) → ℕ → Outcome (Option Volume)
mount read lba =
    let b = parse_bpb (read_sector read lba) in
    let v = areas b lba in
    if not (check_bpb b)
    then ok none
    else if b.sec_per_clus == 0
    then fault
    else if ltb (v.data_sectors / b.sec_per_clus) 65526
    then ok none
    else ok (some v)

-- `MBR_Partition[i]`: the type of a partition and its first sector.
abbrev pub pt_system : (ℕ → ℕ) → ℕ → ℕ
pt_system mbr i = mbr (446 + 16 * i + 4)

abbrev pub pt_lba_ofs : (ℕ → ℕ) → ℕ → ℕ
pt_lba_ofs mbr i = le32 mbr (446 + 16 * i + 8)

-- The partition of slot `i`; the first sector is always taken from slot 0.
pub mount_slot : (ℕ → ℕ → ℕ) → ℕ → Outcome (Option Volume)
mount_slot read i =
    let mbr = read_sector read 0 in
    if not (pt_system mbr i == 0xc) then ok none else mount read (pt_lba_ofs mbr 0)

pub mount_slots : (ℕ → ℕ → ℕ) → Outcome (List (Option Volume))
mount_slots read = do
  a ← mount_slot read 0
  b ← mount_slot read 1
  c ← mount_slot read 2
  d ← mount_slot read 3
  ok (a ∷ b ∷ c ∷ d ∷ [])

-- `Init`: false for a bad signature, otherwise the four volumes.
pub init : (ℕ → ℕ → ℕ) → Outcome (Option (List (Option Volume)))
init read =
    if not (le16 (read_sector read 0) 510 == boot_signature)
    then ok none
    else mount_slots read >>= λ vs. ok (some vs)

-- ===== src/Fs/Fat32/Read/Bytes.antt =====
-- What Read gives for bytes of one sector, in terms of the sectors of the card.
use evisor.Prelude.{
  List, arith, get_elem?, refl, some, true, suc, u32_mod, zero, ℕ, ◌%◌, ◌*◌, ◌+◌, ◌/◌, ◌<◌, ◌^◌,
  ◌≡◌, ◌≤◌, ◌∙◌, if◌then◌else◌, ap,
}
use evisor.Prelude.Outcome.{ok}
use evisor.Fs.Fat32.{Volume, block_size, le32, read_sector}
use evisor.Fs.Fat32.Cluster.{calc_sector, is_valid_cluster}
use evisor.Fs.Fat32.Chain.{fat_entry, follow, bad_cluster}
use evisor.Fs.Fat32.Read.{File, read_file}
use evisor.Fs.Fat32.Read.Sector.{
  Asked, stored_byte, same_turns, calc_sector-block, read_file-stored_byte,
}

-- The entry of a cluster: four bytes for each in the table, of which 28 bits count.
abbrev pub table_entry : (ℕ → ℕ → ℕ) → Volume → ℕ → ℕ
table_entry read v c =
    le32 (read (v.first_lba + v.fat_first_sector + 4 * c / block_size)) (4 * c % block_size)
    % 2 ^ 28

abbrev pub cluster_of : (ℕ → ℕ → ℕ) → File → ℕ → ℕ
cluster_of read f a =
    follow (table_entry read f.fat) (a / (f.fat.bpb.sec_per_clus * block_size)) f.first

-- Byte `a` of a file, from the table and the sectors of the card.
abbrev pub file_byte : (ℕ → ℕ → ℕ) → File → ℕ → ℕ
file_byte read f a =
    read (f.fat.first_lba + calc_sector f.fat (cluster_of read f a) a) (a % block_size)

-- The first cluster is a number of 28 bits, and the largest table and the sector of the byte end
-- below 4 GiB of the card.
pub record Below (read : ℕ → ℕ → ℕ) (f : File) (offset : ℕ) : Type 0 where
  pub first : f.first < 2 ^ 28
  pub table : f.fat.first_lba + f.fat.fat_first_sector + 2 ^ 21 ≤ 2 ^ 23
  pub sector : f.fat.first_lba + calc_sector f.fat (cluster_of read f offset) offset < 2 ^ 23

-- Below 4 GiB a sector is read where it lies.
read_sector_below :
    (read : ℕ → ℕ → ℕ) (lba k : ℕ)
    → lba < 2 ^ 23
    → k < block_size
    → read_sector read (lba % u32_mod) k ≡ read lba k
read_sector_below read lba k h small =
    let at : block_size * (lba % u32_mod) % u32_mod / block_size + k / block_size ≡ lba =
      omega arith in
    let byte : k % block_size ≡ k = omega arith in rw (at, byte) refl

fat_entry-table_entry :
    (read : ℕ → ℕ → ℕ) (v : Volume) (c : ℕ)
    → v.bpb.byts_per_sec ≡ block_size
    → c < 2 ^ 28
    → v.first_lba + v.fat_first_sector + 2 ^ 21 ≤ 2 ^ 23
    → fat_entry read v c ≡ table_entry read v c
unfolding fat_entry
fat_entry-table_entry read v c blocks small table =
    let lba = v.first_lba + v.fat_first_sector + 4 * c / block_size in
    let place = 4 * c % block_size in
    let sum : (v.first_lba + (v.fat_first_sector + c * 4 % u32_mod / block_size) % u32_mod)
          % u32_mod
        ≡ lba % u32_mod =
      omega arith in
    let byte : c * 4 % u32_mod % block_size ≡ place = omega arith in
    let low : lba < 2 ^ 23 = omega arith in
    let one = read_sector_below read lba place low (omega arith) in
    let two = read_sector_below read lba (place + 1) low (omega arith) in
    let three = read_sector_below read lba (place + 2) low (omega arith) in
    let four = read_sector_below read lba (place + 2 + 1) low (omega arith) in
    rw (blocks, sum, byte, one, two, three, four) refl

-- Chains that stay among numbers of 28 bits agree where the entries of those numbers do.
follow-agrees :
    (entry entry' : ℕ → ℕ) (n c : ℕ)
    → ((d : ℕ) → d < 2 ^ 28 → entry d ≡ entry' d)
    → ((d : ℕ) → entry' d < 2 ^ 28)
    → c < 2 ^ 28
    → follow entry n c ≡ follow entry' n c
unfolding follow
follow-agrees entry entry' zero c same small h = refl
follow-agrees entry entry' (suc n) c same small h = rw (same c h) (
    ap (λ (d : ℕ). if is_valid_cluster (entry' c) then d else bad_cluster)
      (follow-agrees entry entry' n (entry' c) same small (small c)))

cluster_lem :
    (read : ℕ → ℕ → ℕ) (f : File) (offset a : ℕ)
    → f.fat.bpb.byts_per_sec ≡ block_size
    → Below read f offset
    → follow (fat_entry read f.fat) (a / (f.fat.bpb.sec_per_clus * block_size)) f.first
      ≡ cluster_of read f a
cluster_lem read f offset a blocks b =
    follow-agrees (fat_entry read f.fat) (table_entry read f.fat)
      (a / (f.fat.bpb.sec_per_clus * block_size)) f.first
      (λ d h. fat_entry-table_entry read f.fat d blocks h b.table) (λ d. omega arith) b.first

-- The bytes that the code stores are those of the file.
stored_byte-file_byte :
    (read : ℕ → ℕ → ℕ) (f : File) (offset i : ℕ)
    → f.fat.bpb.byts_per_sec ≡ block_size
    → Below read f offset
    → (offset + i) / block_size ≡ offset / block_size
    → stored_byte read f (offset + i) ≡ file_byte read f (offset + i)
stored_byte-file_byte read f offset i blocks b block =
    let turns = same_turns (offset + i) offset f.fat.bpb.sec_per_clus block in
    let cluster : cluster_of read f (offset + i) ≡ cluster_of read f offset =
      ap (λ (n : ℕ). follow (table_entry read f.fat) n f.first) turns in
    let sector =
      ap (λ (c : ℕ). calc_sector f.fat c (offset + i)) cluster
      ∙ calc_sector-block f.fat (cluster_of read f offset) (offset + i) offset block in
    let low : f.fat.first_lba + calc_sector f.fat (cluster_of read f (offset + i)) (offset + i)
        < 2 ^ 23 =
      rw sector b.sector in
    rw (cluster_lem read f offset (offset + i) blocks b) (
      read_sector_below read
        (f.fat.first_lba + calc_sector f.fat (cluster_of read f (offset + i)) (offset + i))
        ((offset + i) % block_size) low (omega arith))

module _ (read : ℕ → ℕ → ℕ) (to_sectors : ℕ → ℕ) where
  -- Bytes inside of a file, at least one, that lie in one block of 512, on a volume with sectors
  -- of 512 bytes and on a card whose table and whose sector of these bytes lie below 4 GiB, where
  -- the file system is initialized, the first cluster is a number of 28 bits, the list of the
  -- file agrees with the table, and the chain reaches a valid cluster for them: `Read` returns
  -- how many were asked for, and the bytes stored are those of the sector that the chain of the
  -- table leads to; of the file only the list of clusters can change.
  pub read_file-file_byte :
      (f : File) (offset len : ℕ)
      → Asked read f offset len
      → Below read f offset
      → offset % block_size + len ≤ block_size
      → (bytes : List ℕ) × (nodes : List ℕ) × (read_file read to_sectors true f offset len
          ≡ ok (len, bytes, record f { rest = nodes }))
        × ((i : ℕ) → i < len → get_elem? bytes i ≡ some (file_byte read f (offset + i)))
  read_file-file_byte f offset len a b one =
      let (bytes, nodes, run, stored) = read_file-stored_byte read to_sectors f offset len a one in
      (
        bytes,
        nodes,
        run,
        λ i lt.
            stored i lt ∙ ap some (stored_byte-file_byte read f offset i a.blocks b (omega arith)),
      )

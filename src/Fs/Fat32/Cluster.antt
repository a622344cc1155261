-- ===== src/Fs/Fat32/Cluster.antt =====
-- src/fs/fat/fat32.cc: CalcSector and IsValidCluster, from clusters to sectors.
use evisor.Prelude.{Bool, arith, leb, u32_mod, ℕ, ◌%◌, ◌&&◌, ◌*◌, ◌+◌, ◌-◌, ◌/◌, ◌<◌, ◌≡◌, ◌≤◌}
use native.Mathlib.Nat.{mod-lt}
use evisor.Fs.Fat32.{Volume, block_size}

-- `CalcSector`, in 32-bit arithmetic; `offset` is a byte position in the file.
unfoldable pub calc_sector : Volume → ℕ → ℕ → ℕ
calc_sector v cluster offset =
    let first =
      (v.data_first_sector + (cluster + u32_mod - 2) % u32_mod * v.bpb.sec_per_clus) % u32_mod in
    (first + offset % (v.bpb.sec_per_clus * block_size) / block_size % u32_mod) % u32_mod

-- `IsValidCluster`
unfoldable pub is_valid_cluster : ℕ → Bool
is_valid_cluster cluster = leb 2 cluster && leb cluster 0xffffff6

-- A data cluster of the volume: its number names one, and its sectors lie in the data area.
pub record IsData (v : Volume) (cluster : ℕ) : Type 0 where
  pub above : 2 ≤ cluster
  pub below : (cluster - 1) * v.bpb.sec_per_clus ≤ v.data_sectors
  pub fits : v.data_first_sector + v.data_sectors < u32_mod
  pub some_sectors : 0 < v.bpb.sec_per_clus

pub within : (o s : ℕ) → 0 < s → o % (s * 512) / 512 < s
within o s h = let k : o % (s * 512) < s * 512 = mod-lt o (omega arith) in omega arith

split_last : (c s : ℕ) → 2 ≤ c → (c - 1) * s ≡ (c - 2) * s + s
split_last c s two = let k : c - 1 ≡ c - 2 + 1 = omega arith in rw k (omega arith)

plain :
    (d n c s o : ℕ)
    → 2 ≤ c
    → (c - 1) * s ≤ n
    → d + n < u32_mod
    → 0 < s
    → ((d + (c + u32_mod - 2) % u32_mod * s) % u32_mod + o % (s * 512) / 512 % u32_mod) % u32_mod
      ≡ d + (c - 2) * s + o % (s * 512) / 512
plain d n c s o two h f p =
    let w : o % (s * 512) / 512 < s = within o s p in
    let q : c - 1 ≤ (c - 1) * s = grind arith in
    let r : (c - 1) * s ≡ (c - 2) * s + s = split_last c s two in
    let small : (c + u32_mod - 2) % u32_mod ≡ c - 2 = omega arith in rw small (omega arith)

-- The sector of a byte of a data cluster: no step of the 32-bit arithmetic wraps.
pub calc_sector_lem :
    (v : Volume) (cluster offset : ℕ)
    → IsData v cluster
    → calc_sector v cluster offset
      ≡ v.data_first_sector
        + (cluster - 2) * v.bpb.sec_per_clus
        + offset % (v.bpb.sec_per_clus * block_size) / block_size
unfolding calc_sector
calc_sector_lem v cluster offset d =
    plain v.data_first_sector v.data_sectors cluster v.bpb.sec_per_clus offset d.above d.below
      d.fits d.some_sectors

-- The sectors of a data cluster lie in the data area of the volume.
pub calc_sector_bounds :
    (v : Volume) (cluster offset : ℕ)
    → IsData v cluster
    → (v.data_first_sector ≤ calc_sector v cluster offset)
      × (calc_sector v cluster offset < v.data_first_sector + v.data_sectors)
calc_sector_bounds v cluster offset d =
    let w : offset % (v.bpb.sec_per_clus * 512) / 512 < v.bpb.sec_per_clus =
      within offset v.bpb.sec_per_clus d.some_sectors in
    let two : 2 ≤ cluster = d.above in
    let h : (cluster - 1) * v.bpb.sec_per_clus ≤ v.data_sectors = d.below in
    let r : (cluster - 1) * v.bpb.sec_per_clus
        ≡ (cluster - 2) * v.bpb.sec_per_clus + v.bpb.sec_per_clus =
      split_last cluster v.bpb.sec_per_clus two in
    rw (calc_sector_lem v cluster offset d) (omega arith)

-- Two data clusters share no sector: every sector of the lower lies before every one of the higher.
pub calc_sector_disjoint :
    (v : Volume) (c c' offset offset' : ℕ)
    → IsData v c
    → IsData v c'
    → c < c'
    → calc_sector v c offset < calc_sector v c' offset'
calc_sector_disjoint v c c' offset offset' d d' h =
    let w : offset % (v.bpb.sec_per_clus * 512) / 512 < v.bpb.sec_per_clus =
      within offset v.bpb.sec_per_clus d.some_sectors in
    let r : (c - 2) * v.bpb.sec_per_clus + v.bpb.sec_per_clus ≤ (c' - 2) * v.bpb.sec_per_clus =
      step c c' v.bpb.sec_per_clus d.above h in
    rw (calc_sector_lem v c offset d, calc_sector_lem v c' offset' d') (omega arith)
  where
    step : (c c' s : ℕ) → 2 ≤ c → c < c' → (c - 2) * s + s ≤ (c' - 2) * s
    step c c' s two h = let k : c - 2 + 1 ≤ c' - 2 = omega arith in grind arith

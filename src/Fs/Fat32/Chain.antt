-- ===== src/Fs/Fat32/Chain.antt =====
-- src/fs/fat/fat32.cc: CalcCluster, CalcNextCluster and CalcNextSector, over the linked list in
-- which a file keeps the clusters that were read from the table. The list of a file is its first
-- cluster and those after it; a freed buffer has no model.
use evisor.Prelude.{
  Bool-cases, List, [], arith, if◌then◌else◌, inl, inr, not, refl, suc, sym, true, u32_mod, zero, ℕ,
  ◌%◌, ◌*◌, ◌+◌, ◌-◌, ◌/◌, ◌<◌, ◌==◌, ◌^◌, ◌∙◌, ◌∷◌, ◌≡◌,
}
use evisor.Fs.Fat32.{Volume, block_size, le32, read_sector}
use evisor.Fs.Fat32.Cluster.{
  calc_sector, is_valid_cluster, IsData, calc_sector_lem, calc_sector_bounds, within,
}
use native.Mathlib.Nat.{mod-add-div', add-mul-mod_self_right, mod-eq_of_lt}

-- `kBadCluster`
abbrev pub bad_cluster : ℕ
bad_cluster = 0xffffff7

-- The entry of a cluster in the file allocation table.
unfoldable pub fat_entry : (ℕ → ℕ → ℕ) → Volume → ℕ → ℕ
fat_entry read v cluster =
    let sector = (v.fat_first_sector + cluster * 4 % u32_mod / v.bpb.byts_per_sec) % u32_mod in
    let offset = cluster * 4 % u32_mod % v.bpb.byts_per_sec in
    le32 (read_sector read ((v.first_lba + sector) % u32_mod)) offset % 2 ^ 28

-- The loop of `CalcCluster` for `n` more clusters, from a cluster and the nodes after it; with the
-- nodes that the list then has.
unfoldable pub walk : (ℕ → ℕ) → ℕ → ℕ → List ℕ → ℕ × List ℕ
walk entry zero c rest = (c, rest)
walk entry (suc n) c [] =
    let deeper = walk entry n (entry c) [] in
    if is_valid_cluster (entry c) then (deeper.0, entry c ∷ deeper.1) else (bad_cluster, [])
walk entry (suc n) c (x ∷ rest) = let deeper = walk entry n x rest in (deeper.0, x ∷ deeper.1)

-- `CalcCluster`
unfoldable pub calc_cluster : (ℕ → ℕ → ℕ) → Volume → ℕ → List ℕ → ℕ → ℕ × List ℕ
calc_cluster read v root rest offset =
    walk (fat_entry read v) (offset / (v.bpb.sec_per_clus * v.bpb.byts_per_sec)) root rest

-- `CalcNextCluster` at a node and the nodes after it.
unfoldable pub calc_next_cluster : (ℕ → ℕ → ℕ) → Volume → ℕ → List ℕ → ℕ × List ℕ
calc_next_cluster read v c [] = (fat_entry read v c, fat_entry read v c ∷ [])
calc_next_cluster read v c (x ∷ rest) = (x, x ∷ rest)

-- `CalcNextSector`
unfoldable pub calc_next_sector : (ℕ → ℕ → ℕ) → Volume → ℕ → ℕ → List ℕ → ℕ × List ℕ
calc_next_sector read v cur_sector c rest =
    let next = calc_next_cluster read v c rest in
    if not (cur_sector % v.bpb.sec_per_clus == v.bpb.sec_per_clus - 1)
    then ((cur_sector + 1) % u32_mod, rest)
    else (calc_sector v next.0 0, next.1)

-- The chain of a file without a list: `n` entries of the table further, bad where one is invalid.
unfoldable pub follow : (ℕ → ℕ) → ℕ → ℕ → ℕ
follow entry zero c = c
follow entry (suc n) c =
    let deeper = follow entry n (entry c) in
    if is_valid_cluster (entry c) then deeper else bad_cluster

-- A list that agrees with the table.
abbrev pub Linked : (ℕ → ℕ) → ℕ → List ℕ → Type 0
Linked entry c [] = Unit {0}
Linked entry c (x ∷ rest) = (x ≡ entry c) × (is_valid_cluster x ≡ true) × Linked entry x rest

-- The loop follows the table, and keeps the list in agreement with it.
walk-follow :
    (entry : ℕ → ℕ) (n c : ℕ) (rest : List ℕ)
    → Linked entry c rest
    → ((walk entry n c rest).0 ≡ follow entry n c) × Linked entry c (walk entry n c rest).1
unfolding walk follow
walk-follow entry zero c rest h = (refl, h)
walk-follow entry (suc n) c [] h = elim (Bool-cases (is_valid_cluster (entry c))) [
  | inl good ↦
      let (same, linked) = walk-follow entry n (entry c) [] tt in
      rw good (same, (refl, good, linked))
  | inr bad ↦ rw bad (refl, tt)
]
walk-follow entry (suc n) c (x ∷ rest) (here, good, h) =
    let (same, linked) = walk-follow entry n x rest h in
    (same ∙ sym (followed entry n c x here good), (here, good, linked))
  where
    followed :
        (entry : ℕ → ℕ) (n c x : ℕ)
        → x ≡ entry c
        → is_valid_cluster x ≡ true
        → follow entry (suc n) c ≡ follow entry n x
    followed entry n c x here good = rw (sym here, good) refl

-- Over a list that agrees with the table, `CalcCluster` gives the cluster that the table alone leads
-- to, or the bad cluster where an entry on the way names none, and the list that it leaves agrees with
-- the table.
pub calc_cluster-follow :
    (read : ℕ → ℕ → ℕ) (v : Volume) (root : ℕ) (rest : List ℕ) (offset : ℕ)
    → Linked (fat_entry read v) root rest
    → let turns = offset / (v.bpb.sec_per_clus * v.bpb.byts_per_sec) in
      let (cluster, list) = calc_cluster read v root rest offset in
      (cluster ≡ follow (fat_entry read v) turns root) × Linked (fat_entry read v) root list
unfolding calc_cluster
calc_cluster-follow read v root rest offset h =
    walk-follow (fat_entry read v) (offset / (v.bpb.sec_per_clus * v.bpb.byts_per_sec)) root rest h

-- The sector within its cluster of a byte of a file.
abbrev pub sector_in_cluster : Volume → ℕ → ℕ
sector_in_cluster v offset = offset % (v.bpb.sec_per_clus * block_size) / block_size

aligned : (d s q i : ℕ) → d % s ≡ 0 → i < s → (d + q * s + i) % s ≡ i
aligned d s q i h small =
    let whole : 0 + d / s * s ≡ d = rw h at (mod-add-div' d s) in
    let dist : (d / s + q) * s ≡ d / s * s + q * s = omega arith in
    let sum : d + q * s + i ≡ i + (d / s + q) * s = omega arith in
    rw (sum, add-mul-mod_self_right i (d / s + q) s) (mod-eq_of_lt small)

next-fat_entry :
    (read : ℕ → ℕ → ℕ) (v : Volume) (c : ℕ) (rest : List ℕ)
    → Linked (fat_entry read v) c rest
    → (calc_next_cluster read v c rest).0 ≡ fat_entry read v c
unfolding calc_next_cluster
next-fat_entry read v c [] h = refl
next-fat_entry read v c (x ∷ rest) (here, _, h) = here

-- On a volume whose data area starts at a multiple of the cluster's size, the sector after the one
-- of a byte is the next of the same cluster, or after the last one the first of the cluster that
-- the table names.
pub calc_next_sector_lem :
    (read : ℕ → ℕ → ℕ) (v : Volume) (c offset : ℕ) (rest : List ℕ)
    → IsData v c
    → v.data_first_sector % v.bpb.sec_per_clus ≡ 0
    → Linked (fat_entry read v) c rest
    → (calc_next_sector read v (calc_sector v c offset) c rest).0 ≡ (
        if sector_in_cluster v offset == v.bpb.sec_per_clus - 1
        then calc_sector v (fat_entry read v c) 0
        else calc_sector v c offset + 1)
unfolding calc_next_sector
calc_next_sector_lem read v c offset rest d h linked =
    let inside : sector_in_cluster v offset < v.bpb.sec_per_clus =
      within offset v.bpb.sec_per_clus d.some_sectors in
    let place : calc_sector v c offset % v.bpb.sec_per_clus ≡ sector_in_cluster v offset =
      rw (calc_sector_lem v c offset d) (
        aligned v.data_first_sector v.bpb.sec_per_clus (c - 2) (sector_in_cluster v offset) h
          inside) in
    let next = next-fat_entry read v c rest linked in
    let (_, below) = calc_sector_bounds v c offset d in
    let fits : v.data_first_sector + v.data_sectors < u32_mod = d.fits in
    let unwrapped : (calc_sector v c offset + 1) % u32_mod ≡ calc_sector v c offset + 1 =
      mod-eq_of_lt (omega arith) in
    rw place (elim (Bool-cases (sector_in_cluster v offset == v.bpb.sec_per_clus - 1)) [
      | inl last ↦ rw (last, next) refl
      | inr inner ↦ rw inner unwrapped
    ])

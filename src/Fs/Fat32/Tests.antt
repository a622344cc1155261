-- ===== src/Fs/Fat32/Tests.antt =====
-- The theorems about the file system at a concrete disk, on which every sector is the same: it is a
-- partition table with two FAT32 partitions and a boot sector.
use evisor.Prelude.{
  List, Option, [], arith, false, if◌then◌else◌, ltb, none, refl, some, u32_mod, ℕ, ◌%◌, ◌*◌, ◌+◌,
  ◌-◌, ◌/◌, ◌<◌, ◌==◌, ◌∷◌, ◌≡◌, ◌≤◌,
}
use evisor.Prelude.Outcome.{ok}
use evisor.Fs.Fat32.{
  Bpb, Volume, parse_bpb, read_sector, check_bpb, areas, mount, mount_slot, mount_slots, init,
}
use evisor.Fs.Fat32.Mount.{areas_fill}
use evisor.Fs.Fat32.Cluster.{IsData, calc_sector, calc_sector_bounds, calc_sector_disjoint}
use evisor.Fs.Fat32.Chain.{
  Linked, follow, fat_entry, sector_in_cluster, calc_next_sector, calc_cluster, calc_cluster-follow,
  calc_next_sector_lem,
}
use evisor.Fs.Fat32.Name.{
  create_lfn_sum, checksum, get_sfn, kanji, create_lfn_sum-checksum, get_sfn_char,
}

abbrev disk : ℕ → ℕ → ℕ
disk lba i =
    if i == 12
    then 2
    else if i == 13
    then 8
    else if i == 14
    then 32
    else if i == 16
    then 2
    else if i == 34
    then 0x10
    else if i == 37
    then 4
    else if i == 44
    then 2
    else if i == 82
    then b'F'
    else if i == 83
    then b'A'
    else if i == 84
    then b'T'
    else if i == 450
    then 0xc
    else if i == 455
    then 8
    else if i == 466
    then 0xc
    else if i == 471
    then 0x80
    else if i == 510
    then 0x55
    else if i == 511
    then 0xaa
    else 0

abbrev bpb : Bpb
bpb = parse_bpb (read_sector disk 0x800)

abbrev volume : Volume
volume = areas bpb 0x800

mounted : mount disk 0x800 ≡ ok (some volume)
unfolding mount check_bpb areas parse_bpb
mounted = refl

bpb_sizes :
    (0 < bpb.byts_per_sec)
    × (bpb.rsvd_sec_cnt
          + bpb.fat_sz32 * bpb.num_fats
          + (32 * bpb.root_ent_cnt + bpb.byts_per_sec - 1) / bpb.byts_per_sec
        ≤ bpb.tot_sec32)
    × (bpb.tot_sec32 < u32_mod)
unfolding parse_bpb
bpb_sizes = (omega arith, omega arith, omega arith)

areas_fill_run :
    (volume.fat_first_sector + volume.fat_sectors ≡ volume.rde_first_sector)
    × (volume.rde_first_sector + volume.rde_sectors ≡ volume.data_first_sector)
    × (volume.data_first_sector + volume.data_sectors ≡ bpb.tot_sec32)
areas_fill_run = areas_fill bpb 0x800 bpb_sizes.0 bpb_sizes.1 bpb_sizes.2

abbrev volumes : List (Option Volume)
volumes = some volume ∷ some volume ∷ none ∷ none ∷ []

initialized : init disk ≡ ok (some volumes)
unfolding init mount_slots mount_slot mount check_bpb areas parse_bpb
initialized = refl

cluster-IsData : (c : ℕ) → 2 ≤ c → c < 1000 → IsData volume c
unfolding areas parse_bpb
cluster-IsData c low high = record {
  above = low;
  below = omega arith;
  fits = omega arith;
  some_sectors = omega arith;
}

calc_sector_bounds_run :
    (volume.data_first_sector ≤ calc_sector volume 5 3000)
    × (calc_sector volume 5 3000 < volume.data_first_sector + volume.data_sectors)
calc_sector_bounds_run =
    calc_sector_bounds volume 5 3000 (cluster-IsData 5 (omega arith) (omega arith))

calc_sector_disjoint_example : calc_sector volume 5 3000 < calc_sector volume 6 0
calc_sector_disjoint_example =
    calc_sector_disjoint volume 5 6 3000 0 (cluster-IsData 5 (omega arith) (omega arith))
      (cluster-IsData 6 (omega arith) (omega arith)) (omega arith)

calc_cluster-follow_example :
    let turns = 9000 / (volume.bpb.sec_per_clus * volume.bpb.byts_per_sec) in
    let (cluster, list) = calc_cluster disk volume 5 [] 9000 in
    (cluster ≡ follow (fat_entry disk volume) turns 5) × Linked (fat_entry disk volume) 5 list
calc_cluster-follow_example = calc_cluster-follow disk volume 5 [] 9000 tt

aligned_data : volume.data_first_sector % volume.bpb.sec_per_clus ≡ 0
unfolding areas parse_bpb
aligned_data = refl

calc_next_sector_lem_example : (calc_next_sector disk volume (calc_sector volume 5 3584) 5 []).0 ≡ (
    if sector_in_cluster volume 3584 == volume.bpb.sec_per_clus - 1
    then calc_sector volume (fat_entry disk volume 5) 0
    else calc_sector volume 5 3584 + 1)
calc_next_sector_lem_example =
    calc_next_sector_lem disk volume 5 3584 [] (cluster-IsData 5 (omega arith) (omega arith))
      aligned_data tt

create_lfn_sum-checksum_run :
    create_lfn_sum (b'A' ∷ b'B' ∷ b' ' ∷ []) ≡ checksum 0 (b'A' ∷ b'B' ∷ b' ' ∷ [])
create_lfn_sum-checksum_run = create_lfn_sum-checksum (b'A' ∷ b'B' ∷ b' ' ∷ [])

-- The name of two letters of which the rest is spaces.
abbrev short_name : ℕ → ℕ
short_name i = if ltb i 2 then b'A' else b' '

letters : (j : ℕ) → j < 2 → (short_name j == b' ') ≡ false
letters j h = ground arith

get_sfn_char_run : get_sfn (λ _. b'X') short_name 2 ≡ kanji (short_name 2)
get_sfn_char_run = get_sfn_char (λ _. b'X') short_name 2 (omega arith) letters

-- ===== src/Fs/Fat32/Read/Crossing.antt =====
-- Read where the bytes lie in two sectors of one cluster.
use evisor.Prelude.{
  ==_ne, ==_refl, [], ap, arith, inl, refl, some, suc, true, zero, ℕ, ◌%◌, ◌*◌, ◌+◌, ◌-◌, ◌/◌, ◌<◌,
  ◌∙◌, ◌∷◌, ◌≡◌, ◌≢◌,
}
use evisor.Prelude.Outcome.{fault}
use evisor.Fs.Fat32.{Volume, block_size}
use evisor.Fs.Fat32.Cluster.{calc_sector, is_valid_cluster}
use evisor.Fs.Fat32.Chain.{calc_cluster, calc_next_sector, walk, fat_entry, follow}
use evisor.Fs.Fat32.Read.{File, seek_node, read_loop, read_file, min_of}
use evisor.Fs.Fat32.Read.Sector.{Asked, enter_lem, turn_lem, portion_lem}
use native.Mathlib.Nat.{div-eq_of_lt}

module _ (read : ℕ → ℕ → ℕ) (to_sectors : ℕ → ℕ) where
  -- The null pointer is followed as soon as a byte is missing.
  null_lem :
      (fuel : ℕ) (v : Volume) (cluster n sector : ℕ)
      → is_valid_cluster cluster ≡ true
      → 0 < n
      → read_loop read to_sectors (suc fuel) v cluster n sector 0 [] ≡ fault
  unfolding read_loop
  null_lem fuel v cluster n sector good some_bytes = rw (==_ne n 0 (omega arith), good) refl

  inner_lem :
      (v : Volume) (sector c : ℕ)
      → sector % v.bpb.sec_per_clus ≢ v.bpb.sec_per_clus - 1
      → (calc_next_sector read v sector c []).1 ≡ []
  unfolding calc_next_sector
  inner_lem v sector c inner =
      rw (==_ne (sector % v.bpb.sec_per_clus) (v.bpb.sec_per_clus - 1) inner) refl

  first_cluster :
      (f : File) (offset : ℕ)
      → f.rest ≡ []
      → f.fat.bpb.byts_per_sec ≡ block_size
      → offset < f.fat.bpb.sec_per_clus * block_size
      → calc_cluster read f.fat f.first f.rest offset ≡ (f.first, [])
  unfolding calc_cluster walk
  first_cluster f offset opened blocks early = rw (opened, blocks, div-eq_of_lt early) refl

  only_node : (c : ℕ) → seek_node c (c ∷ []) ≡ some ([], c ∷ [])
  unfolding seek_node
  only_node c = rw (==_refl c) refl

  good_first :
      (f : File) (offset : ℕ)
      → offset < f.fat.bpb.sec_per_clus * block_size
      → is_valid_cluster
          (follow (fat_entry read f.fat) (offset / (f.fat.bpb.sec_per_clus * block_size)) f.first)
        ≡ true
      → is_valid_cluster f.first ≡ true
  unfolding follow
  good_first f offset early good = rw (div-eq_of_lt early) at good

  -- A file just opened, on a volume with sectors of 512 bytes, of which bytes inside of it are
  -- asked for that start inside of a block, reach behind its end, and begin in the first cluster,
  -- a valid one, in a sector whose number on the volume is not the last modulo the sectors of a
  -- cluster: `Read` follows a null pointer.
  pub read_file_crossing :
      (f : File) (offset len : ℕ)
      → Asked read f offset len
      → f.rest ≡ []
      → offset < f.fat.bpb.sec_per_clus * block_size
      → 0 < offset % block_size
      → block_size < offset % block_size + len
      → calc_sector f.fat f.first offset % f.fat.bpb.sec_per_clus ≢ f.fat.bpb.sec_per_clus - 1
      → read_file read to_sectors true f offset len ≡ fault
  read_file_crossing f offset zero a opened early within crossing inner =
      absurd (omega (arith, a.some_bytes))
  read_file_crossing f offset (suc len) a opened early within crossing inner =
      let found = first_cluster f offset opened a.blocks early in
      let sector = calc_sector f.fat f.first offset in
      let so = offset % block_size in
      let some_left : block_size - so < suc len = omega arith in
      let part : min_of (suc len) (block_size - so) ≡ block_size - so = ground (arith, some_left) in
      let good = good_first f offset early a.good in
      let turn =
        turn_lem read to_sectors (suc len) f.fat f.first sector so (suc len) (block_size - so)
          f.first [] good (omega arith)
          (portion_lem read to_sectors f.fat sector so (suc len) (inl within)
            ∙ ap (λ n. (1, n)) part)
          (omega arith) in
      let after =
        null_lem len f.fat f.first (suc len - (block_size - so))
          (calc_next_sector read f.fat sector f.first []).0 good (omega arith) in
      enter_lem read to_sectors f offset (suc len) f.first [] [] a (ap (λ w. w.0) found)
        (rw found (only_node f.first))
      ∙ rw turn (rw (inner_lem f.fat sector f.first inner, after) refl)

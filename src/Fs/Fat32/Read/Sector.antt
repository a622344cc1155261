-- ===== src/Fs/Fat32/Read/Sector.antt =====
-- What Read gives for bytes of one sector, and what it does for bytes of two.
use evisor.Prelude.{
  ==_iff, ==_ne, ==_refl, Bool-cases, List, [], ap, append-nil, arith, false, get_elem?, inl, inr,
  ltb, refl, some, subst, suc, sym, true, u32_mod, u64_mod, zero, ℕ, ℕ_discrete, ◌%◌, ◌*◌, ◌++◌,
  ◌+◌, ◌-◌, ◌/◌, ◌<◌, ◌==◌, ◌∙◌, ◌∷◌, ◌≡◌, ◌≤◌, ◌⊎◌,
}
use evisor.Prelude.Outcome.{ok, ◌>>=◌}
use evisor.Fs.Fat32.{Volume, block_size, read_sector}
use evisor.Fs.Fat32.Cluster.{calc_sector, is_valid_cluster}
use evisor.Fs.Fat32.Chain.{
  calc_cluster, calc_next_sector, walk, fat_entry, follow, Linked, bad_cluster, calc_cluster-follow,
}
use evisor.Fs.Fat32.Read.{File, seek_node, copy, portion, read_loop, read_file, min_of, nodes_after}
use native.Mathlib.Nat.{div-div-eq-div-mul, mod-eq-sub-mul-div}

-- Byte `a` of a file, through `ReadSector`.
abbrev pub stored_byte : (ℕ → ℕ → ℕ) → File → ℕ → ℕ
stored_byte read f a =
    let cluster =
      follow (fat_entry read f.fat) (a / (f.fat.bpb.sec_per_clus * block_size)) f.first in
    read_sector read ((f.fat.first_lba + calc_sector f.fat cluster a) % u32_mod) (a % block_size)

-- Bytes of one block of 512 lie in one cluster, and in one sector of it.
pub same_turns : (a b s : ℕ) → a / 512 ≡ b / 512 → a / (s * 512) ≡ b / (s * 512)
same_turns a b s e =
    let swap : s * 512 ≡ 512 * s = omega arith in
    rw swap
      (sym (div-div-eq-div-mul a 512 s) ∙ (ap (λ (q : ℕ). q / s) e ∙ div-div-eq-div-mul b 512 s))

same_sector : (a b s : ℕ) → a / 512 ≡ b / 512 → a % (s * 512) / 512 ≡ b % (s * 512) / 512
same_sector a b s e =
    let one : a % (s * 512) ≡ a - s * 512 * (a / (s * 512)) = mod-eq-sub-mul-div a (s * 512) in
    let two : b % (s * 512) ≡ b - s * 512 * (b / (s * 512)) = mod-eq-sub-mul-div b (s * 512) in
    let turns = same_turns a b s e in rw (one, two, turns) (blocks a b s (b / (s * 512)) e)
  where
    blocks : (a b s q : ℕ) → a / 512 ≡ b / 512 → (a - s * 512 * q) / 512 ≡ (b - s * 512 * q) / 512
    blocks a b s q e = let x : s * 512 * q ≡ 512 * (s * q) = omega arith in rw x (omega arith)

pub calc_sector-block :
    (v : Volume) (c a b : ℕ) → a / 512 ≡ b / 512 → calc_sector v c a ≡ calc_sector v c b
unfolding calc_sector
calc_sector-block v c a b e = rw (same_sector a b v.bpb.sec_per_clus e) refl

bad_invalid : is_valid_cluster bad_cluster ≡ false
unfolding is_valid_cluster
bad_invalid = refl

-- A cluster is in a list: the nodes passed, and those after it.
abbrev In : ℕ → List ℕ → Type 0
In w list = (before : List ℕ) × (after : List ℕ) × (seek_node w list ≡ some (before, w ∷ after))

seek_node-further : (w c : ℕ) (list : List ℕ) → In w list → In w (c ∷ list)
unfolding seek_node
seek_node-further w c list (before, after, e) = elim (ℕ_discrete c w) [
  | yes same ↦ ([], list, rw ((==_iff c w).1 same, same) refl)
  | no ne ↦ (c ∷ before, after, rw (==_ne c w ne, e) refl)
]

abbrev Found : ℕ → ℕ × List ℕ → Type 0
Found c w = In w.0 (c ∷ w.1)

-- The cluster that `CalcCluster` names, where it is one, is in the list that it leaves.
seek_node-walk :
    (entry : ℕ → ℕ) (n c : ℕ) (rest : List ℕ)
    → is_valid_cluster (walk entry n c rest).0 ≡ true
    → Found c (walk entry n c rest)
unfolding seek_node walk
seek_node-walk entry zero c rest good = ([], rest, rw (==_refl c) refl)
seek_node-walk entry (suc n) c [] good = elim (Bool-cases (is_valid_cluster (entry c))) [
  | inl fine ↦
      let deeper = walk entry n (entry c) [] in
      let step : walk entry (suc n) c [] ≡ (deeper.0, entry c ∷ deeper.1) = rw fine refl in
      let found =
        seek_node-walk entry n (entry c) [] (subst (λ w. is_valid_cluster w.0 ≡ true) step good) in
      subst (Found c) (sym step) (seek_node-further deeper.0 c (entry c ∷ deeper.1) found)
  | inr bad ↦ absurd (clash (sym bad_invalid ∙ (rw bad at good)))
]
  where
    clash : false ≡ true → ⊥
    clash e = cc
seek_node-walk entry (suc n) c (x ∷ rest) good =
    seek_node-further (walk entry n x rest).0 c (x ∷ (walk entry n x rest).1)
      (seek_node-walk entry n x rest good)

-- Where the bytes asked for lie, and what the file is.
pub record Asked (read : ℕ → ℕ → ℕ) (f : File) (offset len : ℕ) : Type 0 where
  pub linked : Linked (fat_entry read f.fat) f.first f.rest
  pub blocks : f.fat.bpb.byts_per_sec ≡ block_size
  pub some_bytes : 0 < len
  pub inside : offset + len ≤ f.size
  pub small : f.size < u32_mod
  pub good :
      is_valid_cluster
        (follow (fat_entry read f.fat) (offset / (f.fat.bpb.sec_per_clus * block_size)) f.first)
      ≡ true

module _ (read : ℕ → ℕ → ℕ) (to_sectors : ℕ → ℕ) where
  -- The cluster and the list that the loop starts from.
  start_lem :
      (f : File) (offset len : ℕ)
      → Asked read f offset len
      → In
          (calc_cluster read f.fat f.first f.rest offset).0
          (f.first ∷ (calc_cluster read f.fat f.first f.rest offset).1)
        × ((calc_cluster read f.fat f.first f.rest offset).0
            ≡ follow
                (fat_entry read f.fat)
                (offset / (f.fat.bpb.sec_per_clus * block_size))
                f.first)
  unfolding calc_cluster
  start_lem f offset len a =
      let turns = offset / (f.fat.bpb.sec_per_clus * f.fat.bpb.byts_per_sec) in
      let same : (walk (fat_entry read f.fat) turns f.first f.rest).0
          ≡ follow (fat_entry read f.fat) (offset / (f.fat.bpb.sec_per_clus * block_size)) f.first =
        (calc_cluster-follow read f.fat f.first f.rest offset a.linked).0 ∙ rw a.blocks refl in
      (seek_node-walk (fat_entry read f.fat) turns f.first f.rest (rw same a.good), same)

  -- `Read` where the bytes lie in the file, from the first turn of its loop on.
  pub enter_lem :
      (f : File) (offset len : ℕ) (cluster : ℕ) (before after : List ℕ)
      → Asked read f offset len
      → (calc_cluster read f.fat f.first f.rest offset).0 ≡ cluster
      → seek_node cluster (f.first ∷ (calc_cluster read f.fat f.first f.rest offset).1)
        ≡ some (before, cluster ∷ after)
      → read_file read to_sectors true f offset len ≡ (
          read_loop read to_sectors
            (suc len)
            f.fat
            cluster
            len
            (calc_sector f.fat cluster offset)
            (offset % block_size)
            (cluster ∷ after)
          >>= λ piece. ok (
            (len + u32_mod + u32_mod - piece.remains) % u32_mod,
            piece.bytes,
            record f { rest = nodes_after (before ++ piece.nodes) },
          ))
  unfolding read_file
  enter_lem f offset len cluster before after a same e =
      let whole : (offset + len % u32_mod) % u32_mod ≡ offset + len = omega (arith, a) in
      let tail : min_of (offset + len) f.size ≡ offset + len = ground (arith, a.inside) in
      let guard : ltb f.size ((offset + len) % u64_mod) ≡ false = ground (arith, a) in
      let left : (offset + len + u32_mod - offset) % u32_mod ≡ len = omega (arith, a) in
      let more : offset + len + u32_mod - offset ≡ len + u32_mod = omega arith in
      rw (guard, same, e, same, whole, tail, left, more) refl

  -- Nothing is left to read.
  read_loop-done :
      (fuel : ℕ) (v : Volume) (cluster n sector so : ℕ) (list : List ℕ)
      → n ≡ 0
      → read_loop read to_sectors (suc fuel) v cluster n sector so list
        ≡ ok (record { bytes = []; remains = 0; nodes = list })
  unfolding read_loop
  read_loop-done fuel v cluster n sector so [] z = rw z refl
  read_loop-done fuel v cluster n sector so (c ∷ rest) z = rw z refl

  -- A turn that reads one sector.
  pub turn_lem :
      (fuel : ℕ) (v : Volume) (cluster sector so n len c : ℕ) (rest : List ℕ)
      → is_valid_cluster cluster ≡ true
      → 0 < n
      → portion read to_sectors v sector so n ≡ (1, len)
      → so + len ≤ block_size
      → read_loop read to_sectors (suc fuel) v cluster n sector so (c ∷ rest) ≡ (
          read_loop read to_sectors fuel v cluster
            (n - len)
            (calc_next_sector read v sector c rest).0
            0
            (calc_next_sector read v sector c rest).1
          >>= λ piece. ok (record piece {
            bytes = copy read ((v.first_lba + sector) % u32_mod) so len ++ piece.bytes;
            nodes = c ∷ piece.nodes;
          }))
  unfolding read_loop
  turn_lem fuel v cluster sector so n len c rest good some_bytes part one =
      let busy : (n == 0) ≡ false = ==_ne n 0 (omega arith) in
      let fits : ltb (1 * block_size) (so + len) ≡ false = ground arith in
      rw (busy, good, part, fits) refl

  pub portion_lem :
      (v : Volume) (sector so n : ℕ)
      → (0 < so) ⊎ (n ≤ block_size)
      → portion read to_sectors v sector so n ≡ (1, min_of n (block_size - so))
  portion_lem v sector so n one = ground arith

  -- The last turn of the loop.
  last_turn :
      (fuel : ℕ) (v : Volume) (cluster sector so len c : ℕ) (rest : List ℕ)
      → is_valid_cluster cluster ≡ true
      → 0 < len
      → so + len ≤ block_size
      → read_loop read to_sectors (suc (suc fuel)) v cluster len sector so (c ∷ rest)
        ≡ ok (record {
          bytes = copy read ((v.first_lba + sector) % u32_mod) so len ++ [];
          remains = 0;
          nodes = c ∷ (calc_next_sector read v sector c rest).1;
        })
  last_turn fuel v cluster sector so len c rest good some_bytes one =
      let all : min_of len (block_size - so) ≡ len = ground arith in
      turn_lem (suc fuel) v cluster sector so len len c rest good some_bytes
        (portion_lem v sector so len (inr (omega arith)) ∙ ap (λ n. (1, n)) all) one
      ∙ rw
          (read_loop-done fuel v cluster (len - len) (calc_next_sector read v sector c rest).0 0
            (calc_next_sector read v sector c rest).1 (omega arith))
          refl

copy-get :
    (read : ℕ → ℕ → ℕ) (lba from n i : ℕ)
    → i < n
    → get_elem? (copy read lba from n) i ≡ some (read_sector read lba (from + i))
unfolding copy
copy-get read lba from zero i lt = absurd (omega arith)
copy-get read lba from (suc n) zero lt = let e : from + 0 ≡ from = omega arith in rw e refl
copy-get read lba from (suc n) (suc i) lt =
    let e : from + suc i ≡ suc from + i = omega arith in
    rw e (copy-get read lba (suc from) n i (omega arith))

-- The bytes of one block, in the words of the device and in those of the file.
copy-stored_byte :
    (read : ℕ → ℕ → ℕ) (f : File) (offset n i : ℕ)
    → offset % block_size + n ≤ block_size
    → i < n
    → let cluster =
        follow (fat_entry read f.fat) (offset / (f.fat.bpb.sec_per_clus * block_size)) f.first in
      get_elem?
        (copy read
          ((f.fat.first_lba + calc_sector f.fat cluster offset) % u32_mod)
          (offset % block_size)
          n)
        i
      ≡ some (stored_byte read f (offset + i))
copy-stored_byte read f offset n i one lt =
    let block : (offset + i) / block_size ≡ offset / block_size = omega arith in
    let turns = same_turns (offset + i) offset f.fat.bpb.sec_per_clus block in
    let cluster =
      follow (fat_entry read f.fat) (offset / (f.fat.bpb.sec_per_clus * block_size)) f.first in
    let sector = calc_sector-block f.fat cluster (offset + i) offset block in
    let lba = (f.fat.first_lba + calc_sector f.fat cluster offset) % u32_mod in
    let place : offset % block_size + i ≡ (offset + i) % block_size = omega arith in
    copy-get read lba (offset % block_size) n i lt ∙ rw (place, turns, sector) refl

module _ (read : ℕ → ℕ → ℕ) (to_sectors : ℕ → ℕ) where
  pub read_file-stored_byte :
      (f : File) (offset len : ℕ)
      → Asked read f offset len
      → offset % block_size + len ≤ block_size
      → (bytes : List ℕ) × (nodes : List ℕ) × (read_file read to_sectors true f offset len
          ≡ ok (len, bytes, record f { rest = nodes }))
        × ((i : ℕ) → i < len → get_elem? bytes i ≡ some (stored_byte read f (offset + i)))
  read_file-stored_byte f offset (suc len) a one =
      let ((before, after, e), same) = start_lem read to_sectors f offset (suc len) a in
      let cluster =
        follow (fat_entry read f.fat) (offset / (f.fat.bpb.sec_per_clus * block_size)) f.first in
      let sector = calc_sector f.fat cluster offset in
      let bytes =
        copy read ((f.fat.first_lba + sector) % u32_mod) (offset % block_size) (suc len) in
      let nodes = cluster ∷ (calc_next_sector read f.fat sector cluster after).1 in
      let turn =
        last_turn read to_sectors len f.fat cluster sector (offset % block_size) (suc len) cluster
          after a.good (omega arith) one in
      let count : (suc len + u32_mod + u32_mod - 0) % u32_mod ≡ suc len = omega (arith, a) in
      (
        bytes,
        nodes_after (before ++ nodes),
        enter_lem read to_sectors f offset (suc len) cluster before after a same (rw same at e)
            ∙ (rw turn (
                rw count (
                  ap (λ b. ok (suc len, b, record f { rest = nodes_after (before ++ nodes) }))
                    (append-nil bytes)))),
        λ i lt. copy-stored_byte read f offset (suc len) i one lt,
      )
  read_file-stored_byte f offset zero a one = absurd (omega (arith, a.some_bytes))

-- ===== src/Fs/Fat32/Read.antt =====
-- src/fs/fat/fat32.cc: InitFile, Read, GetFileSize and IsDirectory. A list of clusters is written from a node
-- on, and the empty list is the null pointer. How `static_cast<float>(n) / kBlockSize + 0.5` rounds is a
-- parameter, and so are the sectors of the device.
pub mod Sector
pub mod Bytes
pub mod Crossing
mod Tests
use evisor.Prelude.{
  ==_iff, ==_ne, ==_refl, All, All-append, All-get, All-map, All-set, Bool, Bool-cases, List,
  Option, Option-cases, [], ap, append-nil, append_assoc, ap₂, arith, bit_and, bit_or, dec_le,
  dec_lt, false, fun_ext, get_elem?, get_elem?-lt, get_elem?-set_ne, get_elem?-set_self,
  get_elem?-some, if◌then◌else◌, inl, inr, leb, leb→le, length, length-append, length-map,
  length-replicate, length-set, ltb, ltb→lt, lt→ltb, map, none, not, refl, replicate, set, some,
  subst, suc, sym, take, true, u16_mod, u32_mod, u64_mod, u8_mod, update, zero, ℕ, ℕ_discrete, ◌%◌,
  ◌&&◌, ◌*◌, ◌++◌, ◌+◌, ◌-◌, ◌/◌, ◌<◌, ◌==◌, ◌^◌, ◌||◌, ◌↔◌, ◌∙◌, ◌∷◌, ◌≡◌, ◌≢◌, ◌≤◌, ◌⊎◌,
}
use evisor.Prelude.Outcome.{Outcome, ok, panic, fault, ◌>>=◌}
use evisor.Fs.Fat32.{Volume, block_size, read_sector}
use evisor.Fs.Fat32.Cluster.{calc_sector, is_valid_cluster}
use evisor.Fs.Fat32.Chain.{calc_cluster, calc_next_sector}

-- `fat32_file_t`: the first node of `cluster_root`, and the nodes after it.
pub record File : Type 0 where
  pub fat : Volume
  pub attr : ℕ
  pub size : ℕ
  pub first : ℕ
  pub rest : List ℕ

-- `InitFile`
abbrev pub init_file : Volume → ℕ → ℕ → ℕ → File
init_file fat attr size cluster = record {
  fat = fat;
  attr = attr;
  size = size;
  first = cluster;
  rest = [];
}

-- `GetFileSize`
abbrev pub get_file_size : File → ℕ
get_file_size f = f.size

-- `IsDirectory`
abbrev pub is_directory : File → Bool
is_directory f = not (bit_and f.attr 0x10 == 0)

-- `while (cluster_list->val != cluster)`: the nodes passed, and the list from the node found on; none past the last
-- node.
unfoldable pub seek_node : ℕ → List ℕ → Option (List ℕ × List ℕ)
seek_node cluster [] = none
seek_node cluster (c ∷ rest) =
    let further = seek_node cluster rest in
    if c == cluster
    then some ([], c ∷ rest)
    else elim further [ none ↦ none | some w ↦ some (c ∷ w.0, w.1) ]

-- The nodes after the first of a list.
abbrev pub nodes_after : List ℕ → List ℕ
nodes_after [] = []
nodes_after (c ∷ rest) = rest

-- What the loop of `Read` has given: the bytes, how many are missing, and the list from the node on.
pub record Piece : Type 0 where
  pub bytes : List ℕ
  pub remains : ℕ
  pub nodes : List ℕ

abbrev pub min_of : ℕ → ℕ → ℕ
min_of a b = if ltb b a then b else a

module _ (read : ℕ → ℕ → ℕ) where
  -- `n` bytes of a buffer that holds the sectors from `lba` on.
  unfoldable pub copy : ℕ → ℕ → ℕ → List ℕ
  copy lba from zero = []
  copy lba from (suc n) = read_sector read lba from ∷ copy lba (suc from) n

module _ (read : ℕ → ℕ → ℕ) (to_sectors : ℕ → ℕ) where
  -- The sectors that one turn of the loop reads, and the bytes that it copies.
  abbrev pub portion : Volume → ℕ → ℕ → ℕ → ℕ × ℕ
  portion fat sector sector_offset remains =
      let n = to_sectors remains in
      if ltb 0 sector_offset || leb remains block_size || fat.bpb.sec_per_clus == 1
      then (1, min_of remains (block_size - sector_offset))
      else (
        min_of n ((fat.bpb.sec_per_clus + u32_mod - sector) % u32_mod),
        min_of remains (block_size * n % u32_mod),
      )

  -- The loop of `Read`, with the node that `cluster_list` points to. A buffer has 4096 bytes; reading more sectors into
  -- it, or more bytes out of it than were read, is undefined. So is running out of fuel.
  unfoldable pub read_loop : ℕ → Volume → ℕ → ℕ → ℕ → ℕ → List ℕ → Outcome Piece
  read_loop zero fat cluster remains sector sector_offset list = fault
  read_loop (suc fuel) fat cluster remains sector sector_offset [] =
      if remains == 0 || not (is_valid_cluster cluster)
      then ok (record { bytes = []; remains = remains; nodes = [] })
      else fault
  read_loop (suc fuel) fat cluster remains sector sector_offset (c ∷ rest) =
      let p = portion fat sector sector_offset remains in
      let lba = (fat.first_lba + sector) % u32_mod in
      let next = calc_next_sector read fat sector c rest in
      let later = read_loop fuel fat cluster (remains - p.1) next.0 0 next.1 in
      if remains == 0 || not (is_valid_cluster cluster)
      then ok (record { bytes = []; remains = remains; nodes = c ∷ rest })
      else if ltb 4096 (p.0 * block_size) || ltb (p.0 * block_size) (sector_offset + p.1)
      then fault
      else later >>= λ piece. ok (record piece {
        bytes = copy read lba sector_offset p.1 ++ piece.bytes;
        nodes = c ∷ piece.nodes;
      })

  -- `Read`, with the flag `fs_.initialized`: the value returned, the bytes stored, and the file with
  -- the nodes that were added.
  unfoldable pub read_file : Bool → File → ℕ → ℕ → Outcome (ℕ × List ℕ × File)
  read_file initialized f offset len =
      let tail = min_of ((offset + len % u32_mod) % u32_mod) f.size in
      let remains = (tail + u32_mod - offset) % u32_mod in
      let found = calc_cluster read f.fat f.first f.rest offset in
      let sector = calc_sector f.fat found.0 offset in
      if not initialized || ltb f.size ((offset + len) % u64_mod)
      then ok (0, [], f)
      else elim (seek_node found.0 (f.first ∷ found.1)) [
        | none ↦ fault
        | some (before, list) ↦
            read_loop (suc remains) f.fat found.0 remains sector (offset % block_size) list
            >>= λ piece. ok (
              (tail + u32_mod - offset + u32_mod - piece.remains) % u32_mod,
              piece.bytes,
              record f { rest = nodes_after (before ++ piece.nodes) },
            )
      ]

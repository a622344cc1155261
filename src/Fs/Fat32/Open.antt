-- ===== src/Fs/Fat32/Open.antt =====
-- src/fs/fat/fat32.cc: Open, over the entries of the root directory. The static buffer of `GetSfn` is an argument and
-- a result; buffers of sectors have no model.

pub mod Entries
pub mod Nodes
mod Tests
use evisor.Prelude.{
  ==_iff, ==_ne, ==_refl, All, All-append, All-get, All-map, All-set, Bool, Bool-cases, List,
  Option, Option-cases, [], ap, append-nil, append_assoc, ap₂, arith, bit_and, bit_or, dec_le,
  dec_lt, false, fun_ext, get_elem?, get_elem?-lt, get_elem?-set_ne, get_elem?-set_self,
  get_elem?-some, if◌then◌else◌, inl, inr, leb, leb→le, length, length-append, length-map,
  length-replicate, length-set, ltb, ltb→lt, lt→ltb, map, none, not, refl, replicate, set, some,
  subst, suc, sym, take, true, u16_mod, u32_mod, u64_mod, u8_mod, update, zero, ℕ, ℕ_discrete, ◌%◌,
  ◌&&◌, ◌*◌, ◌++◌, ◌+◌, ◌-◌, ◌/◌, ◌<◌, ◌==◌, ◌^◌, ◌||◌, ◌↔◌, ◌∙◌, ◌∷◌, ◌≡◌, ◌≢◌, ◌≤◌, ◌⊎◌,
}
use evisor.Prelude.Int.{ℤ, pos, negsuc}
use evisor.Prelude.Outcome.{Outcome, ok, panic, fault, ◌>>=◌}
use evisor.Common.Cstring.{strncmp}
use evisor.Fs.Fat32.{Volume, block_size, le16, le32, read_sector}
use evisor.Fs.Fat32.Cluster.{calc_sector, is_valid_cluster}
use evisor.Fs.Fat32.Chain.{calc_next_sector}
use evisor.Fs.Fat32.Name.{get_sfn}
use evisor.Fs.Fat32.Lfn.{get_lfn}
use evisor.Fs.Fat32.Read.{File, init_file}

-- The file that the entry at a position stands for.
unfoldable pub entry_file : Volume → (ℕ → ℕ) → ℕ → File
entry_file fat buf i =
    let cluster = le16 buf (i + 20) * 2 ^ 16 + le16 buf (i + 26) in
    init_file fat (buf (i + 11)) (le32 buf (i + 28))
      (if cluster == 0 then fat.bpb.root_clus else cluster)

-- `DIR_Attr & kAttrLongName`
abbrev pub is_masked : (ℕ → ℕ) → ℕ → Bool
is_masked buf i = not (bit_and (buf (i + 11)) 0xf == 0)

-- A name of a list of characters, with its end.
abbrev pub text : List ℕ → ℕ → ℕ
text name i = elim (get_elem? name i) [ none ↦ 0 | some c ↦ c ]

-- `strncmp(filename, entry_filename, kFat32MaxFileNameSize) == 0`, with the two names side by side in memory.
abbrev pub same_name : (ℕ → ℕ) → (ℕ → ℕ) → Bool
same_name filename name =
    elim (strncmp (λ a. if ltb a 256 then filename a else name (a - 256)) 0 256 255) [
      | pos d ↦ d == 0
      | negsuc d ↦ false
    ]

-- The name of an entry: its long name, or else its short one.
abbrev pub name_of : Option (List ℕ) → (ℕ → ℕ) → ℕ → ℕ
name_of none sfn = sfn
name_of (some name) sfn = text name

-- The static buffer after the name of an entry was looked for.
abbrev pub sfn_after : Option (List ℕ) → (ℕ → ℕ) → (ℕ → ℕ) → ℕ → ℕ → ℕ
sfn_after none sfn buf i = get_sfn sfn (λ k. buf (i + k))
sfn_after (some name) sfn buf i = sfn

-- The loop over the entries of one sector, with `n` entries to go from a position on.
unfoldable pub scan_entries :
    (ℕ → ℕ) → Volume → (ℕ → ℕ) → Option (ℕ → ℕ) → ℕ → ℕ → (ℕ → ℕ) → Outcome (Option File × (ℕ → ℕ))
scan_entries filename fat buf prev zero i sfn = ok (none, sfn)
scan_entries filename fat buf prev (suc n) i sfn =
    let skipped = scan_entries filename fat buf prev n (i + 32) sfn in
    if buf i == 0
    then ok (none, sfn)
    else if buf i == 0xe5
    then skipped
    else if is_masked buf i
    then skipped
    else get_lfn buf i prev >>= λ lfn.
        let after = sfn_after lfn sfn buf i in
        let later = scan_entries filename fat buf prev n (i + 32) after in
        if same_name filename (name_of lfn after)
        then ok (some (entry_file fat buf i), after)
        else later

-- What a search leaves: the file, where one was found, the nodes after the first, and the static buffer.
pub record Search : Type 0 where
  pub found : Option File
  pub nodes : List ℕ
  pub sfn : ℕ → ℕ

module _ (read : ℕ → ℕ → ℕ) where
  -- The loop over the sectors of the directory. A list has at least the node that `cluster_list` points to; running
  -- out of fuel is told apart by `panic`.
  unfoldable pub search :
      ℕ → (ℕ → ℕ) → Volume → ℕ → ℕ → List ℕ → Option (ℕ → ℕ) → (ℕ → ℕ) → Outcome Search
  search zero filename fat cluster sector rest prev sfn = panic
  search (suc fuel) filename fat cluster sector rest prev sfn =
      let buf = read_sector read ((fat.first_lba + sector) % u32_mod) in
      if not (is_valid_cluster cluster)
      then ok (record { found = none; nodes = rest; sfn = sfn })
      else scan_entries filename fat buf prev 16 0 sfn >>= λ (found, sfn').
          let moved = calc_next_sector read fat sector cluster rest in
          elim moved.1 [
            | [] ↦ fault
            | next ∷ nodes ↦
                let later = search fuel filename fat next moved.0 nodes (some buf) sfn' in
                elim found [
                  | none ↦ later >>= λ s. ok (record s { nodes = next ∷ s.nodes })
                  | some f ↦ ok (record { found = some f; nodes = next ∷ nodes; sfn = sfn' })
                ]
          ]

  -- `Open` on the first volume: the file, and the root and the static buffer after the call.
  unfoldable pub open_file : ℕ → File → (ℕ → ℕ) → (ℕ → ℕ) → Outcome (Option File × File × (ℕ → ℕ))
  open_file fuel root filename sfn =
      let sector = calc_sector root.fat root.first 0 in
      if bit_and root.attr 0x10 == 0
      then ok (none, root, sfn)
      else search fuel filename root.fat root.first sector root.rest none sfn >>= λ s.
          ok (s.found, record root { rest = s.nodes }, s.sfn)

-- ===== src/Fs/Fat32/Lfn.antt =====
-- src/fs/fat/fat32.cc: GetLfn, which collects a long name from the entries before that of a file. A
-- sector is a function from positions to bytes; the buffer of the sector before may be missing.
pub mod Collect
mod Tests
use evisor.Prelude.{
  ==_iff, ==_ne, ==_refl, All, All-append, All-get, All-map, All-set, Bool, Bool-cases, List,
  Option, Option-cases, [], ap, append-nil, append_assoc, ap₂, arith, bit_and, bit_or, dec_le,
  dec_lt, false, fun_ext, get_elem?, get_elem?-lt, get_elem?-set_ne, get_elem?-set_self,
  get_elem?-some, if◌then◌else◌, inl, inr, leb, leb→le, length, length-append, length-map,
  length-replicate, length-set, ltb, ltb→lt, lt→ltb, map, none, not, refl, replicate, set, some,
  subst, suc, sym, take, true, u16_mod, u32_mod, u64_mod, u8_mod, update, zero, ℕ, ℕ_discrete, ◌%◌,
  ◌&&◌, ◌*◌, ◌++◌, ◌+◌, ◌-◌, ◌/◌, ◌<◌, ◌==◌, ◌^◌, ◌||◌, ◌↔◌, ◌∙◌, ◌∷◌, ◌≡◌, ◌≢◌, ◌≤◌, ◌⊎◌,
}
use evisor.Prelude.Outcome.{Outcome, ok, panic, fault, ◌>>=◌}
use evisor.Fs.Fat32.{block_size}
use evisor.Fs.Fat32.Name.{create_lfn_sum}

-- Where `lfn` points to. While `is_prev_sector` is false, `offset` is the position.
pub record Place : Type 0 where
  pub buf : ℕ → ℕ
  pub position : ℕ
  pub is_prev_sector : Bool

-- The 11 characters of a short name.
abbrev pub name_at : (ℕ → ℕ) → ℕ → List ℕ
name_at buf p =
    buf p
    ∷ buf (p + 1)
    ∷ buf (p + 2)
    ∷ buf (p + 3)
    ∷ buf (p + 4)
    ∷ buf (p + 5)
    ∷ buf (p + 6)
    ∷ buf (p + 7)
    ∷ buf (p + 8)
    ∷ buf (p + 9)
    ∷ buf (p + 10)
    ∷ []

-- The lower bytes of `LDIR_Name1`, `LDIR_Name2` and `LDIR_Name3`.
abbrev pub lfn_chars : (ℕ → ℕ) → ℕ → List ℕ
lfn_chars buf p =
    buf (p + 1)
    ∷ buf (p + 3)
    ∷ buf (p + 5)
    ∷ buf (p + 7)
    ∷ buf (p + 9)
    ∷ buf (p + 14)
    ∷ buf (p + 16)
    ∷ buf (p + 18)
    ∷ buf (p + 20)
    ∷ buf (p + 22)
    ∷ buf (p + 24)
    ∷ buf (p + 28)
    ∷ buf (p + 30)
    ∷ []

-- `lfn_step`: the entry before, null where there is none. Below the buffer of the sector before there is nothing
-- to point to.
unfoldable pub entry_before : Option (ℕ → ℕ) → Place → Outcome (Option Place)
entry_before prev l =
    if not l.is_prev_sector && l.position % block_size == 0
    then elim prev [
      | none ↦ ok none
      | some b ↦ ok (some (record { buf = b; position = block_size - 32; is_prev_sector = true }))
    ]
    else if ltb l.position 32
    then fault
    else ok (some (record l { position = l.position - 32 }))

-- The tests of an entry: checksum, attribute, sequence number.
unfoldable pub is_part : Place → ℕ → ℕ → Bool
is_part l sum seq =
    l.buf (l.position + 13) == sum
    && bit_and (l.buf (l.position + 11)) 0xf == 0xf
    && bit_and (l.buf l.position) 0x1f == seq

-- `LDIR_Ord & kLfnLastLongEntry`
unfoldable pub is_last : Place → Bool
is_last l = not (bit_and (l.buf l.position) 0x40 == 0)

-- The loop: the name, or none for NULL. The static buffer has 256 characters, one of them for the end. Running out of
-- fuel is told apart by `panic`.
unfoldable pub lfn_loop : ℕ → Option (ℕ → ℕ) → ℕ → ℕ → List ℕ → Place → Outcome (Option (List ℕ))
lfn_loop zero prev sum seq name l = panic
lfn_loop (suc fuel) prev sum seq name l = entry_before prev l >>= λ before. elim before [
  | none ↦ ok none
  | some e ↦
      let longer = name ++ lfn_chars e.buf e.position in
      let later = lfn_loop fuel prev sum (suc seq) longer e in
      if not (is_part e sum seq)
      then ok none
      else if ltb 255 (length longer)
      then fault
      else if is_last e
      then ok (some longer)
      else later
]

-- `GetLfn` for the entry at a position of a sector.
unfoldable pub get_lfn : (ℕ → ℕ) → ℕ → Option (ℕ → ℕ) → Outcome (Option (List ℕ))
get_lfn buf position prev =
    lfn_loop 32 prev (create_lfn_sum (name_at buf position)) 1 []
      (record { buf = buf; position = position; is_prev_sector = false })

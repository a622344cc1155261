-- ===== src/Common/Cstring.antt =====
-- src/common/cstring and src/common/cctype: the functions on blocks of bytes and on strings. Memory is a function
-- from addresses to bytes; characters are unsigned, as on ARM.
pub mod Blocks
pub mod Strings
mod Tests
use evisor.Prelude.{
  ==_iff, ==_ne, ==_refl, All, All-append, All-get, All-map, All-set, Bool, Bool-cases, List,
  Option, Option-cases, [], ap, append-nil, append_assoc, ap₂, arith, bit_and, bit_or, dec_le,
  dec_lt, false, fun_ext, get_elem?, get_elem?-lt, get_elem?-set_ne, get_elem?-set_self,
  get_elem?-some, if◌then◌else◌, inl, inr, leb, leb→le, length, length-append, length-map,
  length-replicate, length-set, ltb, ltb→lt, lt→ltb, map, none, not, refl, replicate, set, some,
  subst, suc, sym, take, true, u16_mod, u32_mod, u64_mod, u8_mod, update, zero, ℕ, ℕ_discrete, ◌%◌,
  ◌&&◌, ◌*◌, ◌++◌, ◌+◌, ◌-◌, ◌/◌, ◌<◌, ◌==◌, ◌^◌, ◌||◌, ◌↔◌, ◌∙◌, ◌∷◌, ◌≡◌, ◌≢◌, ◌≤◌, ◌⊎◌,
}
use evisor.Prelude.Int.{ℤ, pos, negsuc, sub_ℕ}
use mathlib.Core.Option

-- The loop of `memcpy` from the turn `i` on, with `n` turns to go.
unfoldable pub copy_from : ℕ → ℕ → ℕ → ℕ → (ℕ → ℕ) → ℕ → ℕ
copy_from dest src i zero mem = mem
copy_from dest src i (suc n) mem =
    copy_from dest src (suc i) n (update mem (dest + i) (mem (src + i)))

-- `memcpy`
abbrev pub memcpy : ℕ → ℕ → ℕ → (ℕ → ℕ) → ℕ → ℕ
memcpy buf1 buf2 n mem = copy_from buf1 buf2 0 n mem

-- `memset`: the address behind the block, and the memory.
unfoldable pub memset : ℕ → ℕ → ℕ → (ℕ → ℕ) → ℕ × (ℕ → ℕ)
memset buf ch zero mem = (buf, mem)
memset buf ch (suc n) mem = memset (suc buf) ch n (update mem buf (ch % u8_mod))

-- The loop of `memzero`, and `memzero`
unfoldable pub zero_from : ℕ → ℕ → ℕ → (ℕ → ℕ) → ℕ → ℕ
zero_from dest i zero mem = mem
zero_from dest i (suc n) mem = zero_from dest (suc i) n (update mem (dest + i) 0)

abbrev pub memzero : ℕ → ℕ → (ℕ → ℕ) → ℕ → ℕ
memzero buf1 n mem = zero_from buf1 0 n mem

-- `strlen`: none where the fuel runs out before the end of the string.
unfoldable pub strlen : ℕ → (ℕ → ℕ) → ℕ → Option ℕ
strlen zero mem s = none
strlen (suc fuel) mem s =
    let rest = strlen fuel mem (suc s) in
    if mem s == 0 then some 0 else Option.map (λ count. suc count) rest

-- `strncmp`: the difference of the first characters that differ.
unfoldable pub strncmp : (ℕ → ℕ) → ℕ → ℕ → ℕ → ℤ
strncmp mem s1 s2 zero = pos 0
strncmp mem s1 s2 (suc n) =
    let rest = strncmp mem (suc s1) (suc s2) n in
    if not (mem s1 == 0) && mem s1 == mem s2 then rest else sub_ℕ (mem s1) (mem s2)

-- `isdigit`
abbrev pub isdigit : ℕ → Bool
isdigit c = leb b'0' c && leb c b'9'

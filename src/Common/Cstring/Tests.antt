-- ===== src/Common/Cstring/Tests.antt =====
-- Blocks and strings in a small memory.
use evisor.Prelude.{
  arith, if◌then◌else◌, inl, refl, some, ℕ, ◌+◌, ◌<◌, ◌==◌, ◌||◌, ◌↔◌, ◌≡◌, ◌≤◌, ◌⊎◌,
}
use evisor.Prelude.Int.{pos, negsuc}
use evisor.Common.Cstring.{memcpy, strlen, strncmp}
use evisor.Common.Cstring.Blocks.{memcpy_lem}
use evisor.Common.Cstring.Strings.{Agree, strncmp_iff}

-- "abc" at 0 and "abd" at 8.
abbrev memory : ℕ → ℕ
memory a =
    if a == 0 || a == 8
    then b'a'
    else if a == 1 || a == 9
    then b'b'
    else if a == 2
    then b'c'
    else if a == 10
    then b'd'
    else 0

memcpy_lem_example :
    ((k : ℕ) → k < 3 → memcpy 1 2 3 memory (1 + k) ≡ memory (2 + k))
    × ((a : ℕ) → (a < 1) ⊎ (1 + 3 ≤ a) → memcpy 1 2 3 memory a ≡ memory a)
memcpy_lem_example = memcpy_lem 1 2 3 memory (inl (omega arith))

strncmp_iff_example : (strncmp memory 0 8 3 ≡ pos 0) ↔ Agree memory 0 8 3
strncmp_iff_example = strncmp_iff memory 0 8 3

strncmp_run : strncmp memory 0 8 3 ≡ negsuc 0
unfolding strncmp
strncmp_run = refl

strlen_run : strlen 4 memory 0 ≡ some 3
unfolding strlen
strlen_run = refl

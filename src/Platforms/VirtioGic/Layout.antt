-- ===== src/Platforms/VirtioGic/Layout.antt =====
-- Which words of the struct the addresses of virtio_gic.cc reach.
use evisor.Prelude.{Option, ap, arith, inl, inr, none, some, ℕ, ◌+◌, ◌<◌, ◌↔◌, ◌∙◌, ◌≡◌, ◌≤◌, ◌⊎◌}
use evisor.Platforms.VirtioGic.{Target, words, offset, locate, index}
use evisor.Platforms.VirtioGic.{
  cell, nothing, gicd_igroupr, gicd_isenabler, gicd_icenabler, gicd_ispendr, gicd_icpendr,
  gicd_isactiver, gicd_icactiver, gicd_ipriorityr,
}

-- The address of four of the arrays is masked to eight bits of which the highest is set, so that
-- their index starts at 32.
abbrev pub Shifted : ℕ → Type 0
Shifted addr =
    ((0x80 ≤ addr) × (addr < 0x100))
    ⊎ ((0x180 ≤ addr) × (addr < 0x200))
    ⊎ ((0x280 ≤ addr) × (addr < 0x300))
    ⊎ ((0x380 ≤ addr) × (addr < 0x400))

-- The index is inside the array of the member.
abbrev pub Inside : Target → Type 0
Inside (cell r i) = i < words r
Inside nothing = Unit {0}

-- The word of the struct that an address reaches.
abbrev pub word : Target → Option ℕ
word (cell r i) = some (offset r + i)
word nothing = none

abbrev pub FitsIn : Target → Type 0
FitsIn (cell r i) = offset r + i < 874
FitsIn nothing = Unit {0}

locate-Inside : (addr : ℕ) → ¬ (Shifted addr) → Inside (locate addr)
unfolding locate
locate-Inside addr h = ground arith

outside_of : (addr : ℕ) → Shifted addr → Inside (locate addr) → ⊥
unfolding locate
outside_of addr h i = ground arith

-- The index stays inside the array that the code names exactly for the addresses outside the four
-- shifted ranges (those of GICD_IGROUPR, GICD_ICENABLER, GICD_ICPENDR and GICD_ICACTIVER).
pub locate-Inside_iff : (addr : ℕ) → Inside (locate addr) ↔ (¬ (Shifted addr))
locate-Inside_iff addr = (λ i h. outside_of addr h i, locate-Inside addr)

-- Every access stays inside the struct of 874 words.
pub locate-FitsIn : (addr : ℕ) → FitsIn (locate addr)
unfolding locate
locate-FitsIn addr = ground arith

-- The ranges below 0x480, one by one.
at_igroupr :
    (addr : ℕ) → 0x80 ≤ addr → addr < 0x100 → locate addr ≡ cell gicd_igroupr (index addr 8)
unfolding locate
at_igroupr addr h k = ground arith

at_isenabler :
    (addr : ℕ) → 0x100 ≤ addr → addr < 0x180 → locate addr ≡ cell gicd_isenabler (index addr 8)
unfolding locate
at_isenabler addr h k = ground arith

at_icenabler :
    (addr : ℕ) → 0x180 ≤ addr → addr < 0x200 → locate addr ≡ cell gicd_icenabler (index addr 8)
unfolding locate
at_icenabler addr h k = ground arith

at_ispendr :
    (addr : ℕ) → 0x200 ≤ addr → addr < 0x280 → locate addr ≡ cell gicd_ispendr (index addr 8)
unfolding locate
at_ispendr addr h k = ground arith

at_icpendr :
    (addr : ℕ) → 0x280 ≤ addr → addr < 0x300 → locate addr ≡ cell gicd_icpendr (index addr 8)
unfolding locate
at_icpendr addr h k = ground arith

at_isactiver :
    (addr : ℕ) → 0x300 ≤ addr → addr < 0x380 → locate addr ≡ cell gicd_isactiver (index addr 8)
unfolding locate
at_isactiver addr h k = ground arith

at_icactiver :
    (addr : ℕ) → 0x380 ≤ addr → addr < 0x400 → locate addr ≡ cell gicd_icactiver (index addr 8)
unfolding locate
at_icactiver addr h k = ground arith

at_ipriorityr :
    (addr : ℕ) → 0x400 ≤ addr → addr < 0x480 → locate addr ≡ cell gicd_ipriorityr (index addr 10)
unfolding locate
at_ipriorityr addr h k = ground arith

-- In the four shifted ranges an address reaches the word of the address 0x80 above it, which is
-- that of the next register array.
pub word-Shifted :
    (addr : ℕ)
    → Shifted addr
    → (w : ℕ) × (word (locate addr) ≡ some w) × (word (locate (addr + 0x80)) ≡ some w)
word-Shifted addr (inl (lo, hi)) = (
  offset gicd_igroupr + index addr 8,
  ap word (at_igroupr addr lo hi),
  ap word (at_isenabler (addr + 0x80) (omega arith) (omega arith)) ∙ ap some (omega arith),
)
word-Shifted addr (inr (inl (lo, hi))) = (
  offset gicd_icenabler + index addr 8,
  ap word (at_icenabler addr lo hi),
  ap word (at_ispendr (addr + 0x80) (omega arith) (omega arith)) ∙ ap some (omega arith),
)
word-Shifted addr (inr (inr (inl (lo, hi)))) = (
  offset gicd_icpendr + index addr 8,
  ap word (at_icpendr addr lo hi),
  ap word (at_isactiver (addr + 0x80) (omega arith) (omega arith)) ∙ ap some (omega arith),
)
word-Shifted addr (inr (inr (inr (lo, hi)))) = (
  offset gicd_icactiver + index addr 8,
  ap word (at_icactiver addr lo hi),
  ap word (at_ipriorityr (addr + 0x80) (omega arith) (omega arith)) ∙ ap some (omega arith),
)

-- ===== src/Prelude/Bits.antt =====
-- Facts about the bits of a byte, checked at every value.
use evisor.Prelude.{
  ℕ, zero, suc, ◌-◌, ◌^◌, ◌<◌, ◌≡◌, refl, Bool, true, false, ◌&&◌, ◌||◌, not, arith, ◌==◌, bit_and,
  bit_or, ltb, ltb→lt, ℕ_discrete, ◌/◌, ◌*◌, ◌%◌, ◌+◌, ==_iff, ap₂, sym, ◌∙◌,
}

unfoldable pub all_below : ℕ → (ℕ → Bool) → Bool
all_below zero p = true
all_below (suc n) p = p n && all_below n p

pub and_left : (x y : Bool) → (x && y) ≡ true → x ≡ true
and_left true y h = refl
and_left false y h = cc

pub and_right : (x y : Bool) → (x && y) ≡ true → y ≡ true
and_right true y h = h
and_right false y h = cc

pub all_below_sound : (n : ℕ) (p : ℕ → Bool) → all_below n p ≡ true → (x : ℕ) → x < n → p x ≡ true
unfolding all_below
all_below_sound zero p h x lt = absurd (omega arith)
all_below_sound (suc n) p h x lt = elim (ℕ_discrete x n) [
  | yes e ↦ rw e (and_left (p n) (all_below n p) h)
  | no ne ↦ all_below_sound n p (and_right (p n) (all_below n p) h) x (omega arith)
]

abbrev same : Bool → Bool → Bool
same true b = b
same false b = not b

same→eq : (a b : Bool) → same a b ≡ true → a ≡ b
same→eq true true h = refl
same→eq true false h = cc
same→eq false true h = cc
same→eq false false h = refl

-- A predicate of a byte and two bit positions, at all 2^14 values.
over_bits : (p : ℕ → ℕ → ℕ → Bool) → Bool
over_bits p = all_below 256 (λ b. all_below 8 (λ k. all_below 8 (p b k)))

over_bits_sound :
    (p : ℕ → ℕ → ℕ → Bool)
    → over_bits p ≡ true
    → (b k l : ℕ) → b < 256
    → k < 8
    → l < 8
    → p b k l ≡ true
unfolding over_bits
over_bits_sound p h b k l hb hk hl =
    all_below_sound 8 (p b k)
      (all_below_sound 8 (λ k. all_below 8 (p b k))
        (all_below_sound 256 (λ b. all_below 8 (λ k. all_below 8 (p b k))) h b hb) k hk)
      l hl

-- Is bit `l` of `b` clear?
abbrev pub is_clear : ℕ → ℕ → Bool
is_clear b l = bit_and b (2 ^ l) == 0

set_table :
    over_bits (λ b k l. same (is_clear (bit_or b (2 ^ k)) l) (not (l == k) && is_clear b l)) ≡ true
unfolding over_bits all_below
set_table = refl

clear_table :
    over_bits (λ b k l. same (is_clear (bit_and b (255 - 2 ^ k)) l) (l == k || is_clear b l)) ≡ true
unfolding over_bits all_below
clear_table = refl

range_table :
    over_bits (λ b k l. ltb (bit_or b (2 ^ k)) 256 && ltb (bit_and b (255 - 2 ^ k)) 256) ≡ true
unfolding over_bits all_below
range_table = refl

-- Setting bit `k` of a byte sets that bit alone.
pub is_clear-bit_or :
    (b k l : ℕ)
    → b < 256
    → k < 8
    → l < 8
    → is_clear (bit_or b (2 ^ k)) l ≡ (not (l == k) && is_clear b l)
is_clear-bit_or b k l hb hk hl = same→eq _ _ (over_bits_sound _ set_table b k l hb hk hl)

-- Clearing it clears that bit alone.
pub is_clear-bit_and :
    (b k l : ℕ)
    → b < 256
    → k < 8
    → l < 8
    → is_clear (bit_and b (255 - 2 ^ k)) l ≡ (l == k || is_clear b l)
is_clear-bit_and b k l hb hk hl = same→eq _ _ (over_bits_sound _ clear_table b k l hb hk hl)

in_range :
    (b k : ℕ)
    → b < 256
    → k < 8
    → (ltb (bit_or b (2 ^ k)) 256 && ltb (bit_and b (255 - 2 ^ k)) 256) ≡ true
in_range b k hb hk = over_bits_sound _ range_table b k 0 hb hk (omega arith)

pub bit_or-lt : (b k : ℕ) → b < 256 → k < 8 → bit_or b (2 ^ k) < 256
bit_or-lt b k hb hk = ltb→lt _ _ (and_left _ _ (in_range b k hb hk))

pub bit_and-lt : (b k : ℕ) → b < 256 → k < 8 → bit_and b (255 - 2 ^ k) < 256
bit_and-lt b k hb hk = ltb→lt _ _ (and_right _ _ (in_range b k hb hk))

-- The bits above the low byte of a 12-bit number, and a byte put below them.
high_table : all_below 4096 (λ d. bit_and d 0xf00 == d / 256 * 256) ≡ true
unfolding all_below
high_table = refl

byte_table : all_below 4096 (λ n. bit_or (n / 256 * 256) (n % 256) == n) ≡ true
unfolding all_below
byte_table = refl

pub replace_byte : (d x : ℕ) → d < 4096 → x < 256 → bit_or (bit_and d 0xf00) x ≡ d / 256 * 256 + x
replace_byte d x hd hx =
    let high : bit_and d 0xf00 ≡ d / 256 * 256 =
      (==_iff (bit_and d 0xf00) (d / 256 * 256)).0 (all_below_sound 4096 _ high_table d hd) in
    rw high (
      let n : ℕ = d / 256 * 256 + x in
      let hi : n / 256 * 256 ≡ d / 256 * 256 = omega arith in
      let lo : n % 256 ≡ x = omega arith in
      let at : bit_or (n / 256 * 256) (n % 256) ≡ n =
        (==_iff (bit_or (n / 256 * 256) (n % 256)) n).0
          (all_below_sound 4096 _ byte_table n (omega arith)) in
      ap₂ bit_or (sym hi) (sym lo) ∙ at)

-- Bit 4 of a 9-bit number.
flag_table :
    all_below 512 (λ f.
      bit_or f 0x10 / 16 % 2 == 1
      && bit_and f (2 ^ 32 - 1 - 0x10) / 16 % 2 == 0
      && ltb (bit_or f 0x10) 512
      && ltb (bit_and f (2 ^ 32 - 1 - 0x10)) 512)
    ≡ true
unfolding all_below
flag_table = refl

flag_facts :
    (p q r s : Bool) → (p && q && r && s) ≡ true → (p ≡ true) × (q ≡ true) × (r ≡ true) × (s ≡ true)
flag_facts p q r s h = ground arith

pub flag_lem :
    (f : ℕ)
    → f < 512
    → (bit_or f 0x10 / 16 % 2 ≡ 1)
      × (bit_and f (2 ^ 32 - 1 - 0x10) / 16 % 2 ≡ 0)
      × (bit_or f 0x10 < 512)
      × (bit_and f (2 ^ 32 - 1 - 0x10) < 512)
flag_lem f h =
    let (a, b, c, d) = flag_facts _ _ _ _ (all_below_sound 512 _ flag_table f h) in
    ((==_iff _ _).0 a, (==_iff _ _).0 b, ltb→lt _ _ c, ltb→lt _ _ d)

-- ===== src/Prelude/Digits.antt =====
-- The bits of `&`, `|`, the complement and shifted numbers, one by one, at every width.
use Prim.Native.Nat.{
  ℕ, zero, suc, ◌+◌, ◌-◌, ◌*◌, ◌/◌, ◌%◌, ◌^◌, ◌≤◌, ◌<◌, max, min, bit_and, bit_or, digits,
  bit_and-bitwise, bit_or-bitwise,
}
use mathlib.Core.Path.{◌≡◌, refl, ◌∙◌, ap}
use mathlib.Core.Logic.{◌⊎◌, inl, inr}
use native.Mathlib.Omega.{arith}
use native.Mathlib.Decide.{ℕ_discrete}
use native.Mathlib.Nat.{div-div-eq-div-mul, pow-suc}

-- Bit `k` of a number.
abbrev pub bit : ℕ → ℕ → ℕ
bit x zero = x % 2
bit x (suc k) = bit (x / 2) k

pub bit-le-one : (k x : ℕ) → bit x k ≤ 1
bit-le-one zero x = omega arith
bit-le-one (suc k) x = bit-le-one k (x / 2)

abbrev either : ℕ → ℕ → ℕ → ℕ
either count x y = digits (λ rest. rest) max count x y

abbrev both : ℕ → ℕ → ℕ → ℕ
both count x y = digits (λ rest. zero) min count x y

either_fuel : (n m x y : ℕ) → x ≤ n → x ≤ m → either n x y ≡ either m x y
either_fuel zero zero x y p q = refl
either_fuel zero (suc m) zero y p q = refl
either_fuel zero (suc m) (suc x) y p q = absurd (omega arith)
either_fuel (suc n) zero zero y p q = refl
either_fuel (suc n) zero (suc x) y p q = absurd (omega arith)
either_fuel (suc n) (suc m) zero y p q = refl
either_fuel (suc n) (suc m) (suc x) zero p q =
    omega (arith, either_fuel n m (suc x / 2) 0 (omega arith) (omega arith))
either_fuel (suc n) (suc m) (suc x) (suc y) p q =
    omega (arith, either_fuel n m (suc x / 2) (suc y / 2) (omega arith) (omega arith))

both_fuel : (n m x y : ℕ) → x ≤ n → x ≤ m → both n x y ≡ both m x y
both_fuel zero zero x y p q = refl
both_fuel zero (suc m) zero y p q = refl
both_fuel zero (suc m) (suc x) y p q = absurd (omega arith)
both_fuel (suc n) zero zero y p q = refl
both_fuel (suc n) zero (suc x) y p q = absurd (omega arith)
both_fuel (suc n) (suc m) zero y p q = refl
both_fuel (suc n) (suc m) (suc x) y p q =
    omega (arith, both_fuel n m (suc x / 2) (y / 2) (omega arith) (omega arith))

pub zero-bit_or : (y : ℕ) → bit_or 0 y ≡ y
zero-bit_or y = bit_or-bitwise 0 y

pub zero-bit_and : (y : ℕ) → bit_and 0 y ≡ 0
zero-bit_and y = bit_and-bitwise 0 y

pub bit_or_step : (x y : ℕ) → bit_or x y ≡ bit_or (x / 2) (y / 2) * 2 + max (x % 2) (y % 2)
bit_or_step zero y = omega (arith, zero-bit_or y, zero-bit_or (y / 2))
bit_or_step (suc x) y = omega (
  arith,
  bit_or-bitwise (suc x) y,
  bit_or-bitwise (suc x / 2) (y / 2),
  either_fuel x (suc x / 2) (suc x / 2) (y / 2) (omega arith) (omega arith),
)

pub bit_and_step : (x y : ℕ) → bit_and x y ≡ bit_and (x / 2) (y / 2) * 2 + min (x % 2) (y % 2)
bit_and_step zero y = omega (arith, zero-bit_and y, zero-bit_and (y / 2))
bit_and_step (suc x) y = omega (
  arith,
  bit_and-bitwise (suc x) y,
  bit_and-bitwise (suc x / 2) (y / 2),
  both_fuel x (suc x / 2) (suc x / 2) (y / 2) (omega arith) (omega arith),
)

pub bit-bit_or : (k x y : ℕ) → bit (bit_or x y) k ≡ max (bit x k) (bit y k)
bit-bit_or zero x y = omega (arith, bit_or_step x y)
bit-bit_or (suc k) x y =
    let half : bit_or x y / 2 ≡ bit_or (x / 2) (y / 2) = omega (arith, bit_or_step x y) in
    ap (λ n. bit n k) half ∙ bit-bit_or k (x / 2) (y / 2)

pub bit-bit_and : (k x y : ℕ) → bit (bit_and x y) k ≡ min (bit x k) (bit y k)
bit-bit_and zero x y = omega (arith, bit_and_step x y)
bit-bit_and (suc k) x y =
    let half : bit_and x y / 2 ≡ bit_and (x / 2) (y / 2) = omega (arith, bit_and_step x y) in
    ap (λ n. bit n k) half ∙ bit-bit_and k (x / 2) (y / 2)

-- The bits of a number below 2 ^ n are those below `n`.
pub bit-high : (n k x : ℕ) → x < 2 ^ n → n ≤ k → bit x k ≡ 0
bit-high zero zero x h le = omega arith
bit-high zero (suc k) x h le = bit-high zero k (x / 2) (omega arith) (omega arith)
bit-high (suc n) zero x h le = absurd (omega arith)
bit-high (suc n) (suc k) x h le = bit-high n k (x / 2) (omega arith) (omega arith)

-- `~x` in a word of `n` bits.
pub bit-complement : (n k x : ℕ) → x < 2 ^ n → k < n → bit (2 ^ n - 1 - x) k ≡ 1 - bit x k
bit-complement zero k x h lt = absurd (omega arith)
bit-complement (suc n) zero x h lt = omega arith
bit-complement (suc n) (suc k) x h lt =
    let half : (2 ^ suc n - 1 - x) / 2 ≡ 2 ^ n - 1 - x / 2 = omega arith in
    ap (λ m. bit m k) half ∙ bit-complement n k (x / 2) (omega arith) (omega arith)

half_shift : (s x : ℕ) → x * 2 ^ suc s / 2 ≡ x * 2 ^ s
half_shift s x = omega (arith, ap (λ (t : ℕ). x * t) (pow-suc 2 s))

-- `x << s`
pub bit-shift : (s k x : ℕ) → s ≤ k → bit (x * 2 ^ s) k ≡ bit x (k - s)
bit-shift zero k x h =
    let one_time : x * 1 ≡ x = omega arith in
    let none : k - 0 ≡ k = omega arith in rw (one_time, none)
bit-shift (suc s) zero x h = absurd (omega arith)
bit-shift (suc s) (suc k) x h =
    let rest : suc k - suc s ≡ k - s = omega arith in
    ap (λ m. bit m k) (half_shift s x) ∙ bit-shift s k x (omega arith) ∙ rw rest refl

pub bit-shift_low : (s k x : ℕ) → k < s → bit (x * 2 ^ s) k ≡ 0
bit-shift_low zero k x h = absurd (omega arith)
bit-shift_low (suc s) zero x h = omega (arith, ap (λ (t : ℕ). x * t) (pow-suc 2 s))
bit-shift_low (suc s) (suc k) x h =
    ap (λ m. bit m k) (half_shift s x) ∙ bit-shift_low s k x (omega arith)

-- A number of `n` bits shifted has no bit outside of its field.
pub bit-shift_outside : (n s k x : ℕ) → x < 2 ^ n → (k < s) ⊎ (s + n ≤ k) → bit (x * 2 ^ s) k ≡ 0
bit-shift_outside n s k x h (inl below) = bit-shift_low s k x below
bit-shift_outside n s k x h (inr above) =
    bit-shift s k x (omega arith) ∙ bit-high n (k - s) x h (omega arith)

comm_fuel : (n x y : ℕ) → x ≤ n → y ≤ n → bit_or x y ≡ bit_or y x
comm_fuel zero x y p q =
    let none : x ≡ 0 = omega arith in let none' : y ≡ 0 = omega arith in rw (none, none') refl
comm_fuel (suc n) x y p q = elim (ℕ_discrete x 0) [
  | yes e ↦ elim (ℕ_discrete y 0) [
    | yes e' ↦ rw (e, e') refl
    | no ne' ↦ omega (
      arith,
      bit_or_step x y,
      bit_or_step y x,
      comm_fuel n (x / 2) (y / 2) (omega arith) (omega arith),
    )
  ]
  | no ne ↦ omega (
    arith,
    bit_or_step x y,
    bit_or_step y x,
    comm_fuel n (x / 2) (y / 2) (omega arith) (omega arith),
  )
]

pub bit_or_comm : (x y : ℕ) → bit_or x y ≡ bit_or y x
bit_or_comm x y = comm_fuel (x + y) x y (omega arith) (omega arith)

-- The `k` lowest bits are clear.
abbrev AreClear : ℕ → ℕ → Type 0
AreClear zero x = Unit
AreClear (suc k) x = (x % 2 ≡ 0) × AreClear k (x / 2)

abbrev values : ℕ → ℕ
values zero = 1
values (suc k) = 2 * values k

bit_or_low : (k x y : ℕ) → AreClear k x → y < values k → bit_or x y ≡ x + y
bit_or_low zero x y c lt =
    let none : y ≡ 0 = omega arith in rw none (bit_or_comm x 0 ∙ zero-bit_or x ∙ omega arith)
bit_or_low (suc k) x y c lt =
    let even : x % 2 ≡ 0 = c.0 in
    omega (arith, bit_or_step x y, bit_or_low k (x / 2) (y / 2) c.1 (omega arith), even)

-- A number below 512 put where the bits from `s` on are clear.
pub bit_or_field :
    (s x i : ℕ) → x / 2 ^ s % 512 ≡ 0 → i < 512 → bit_or x (i * 2 ^ s) ≡ x + i * 2 ^ s
bit_or_field zero x i h lt =
    let one_time : i * 1 ≡ i = omega arith in
    rw one_time (bit_or_low 9 x i (omega arith) (omega arith))
bit_or_field (suc s) x i h lt =
    let half : i * 2 ^ suc s / 2 ≡ i * 2 ^ s = half_shift s i in
    let even : i * 2 ^ suc s % 2 ≡ 0 = bit-shift_low (suc s) 0 i (omega arith) in
    let twice : 2 * 2 ^ s ≡ 2 ^ suc s = omega arith in
    let down : x / 2 / 2 ^ s ≡ x / 2 ^ suc s =
      div-div-eq-div-mul x 2 (2 ^ s) ∙ ap (λ n. x / n) twice in
    let rest : bit_or (x / 2) (i * 2 ^ s) ≡ x / 2 + i * 2 ^ s =
      bit_or_field s (x / 2) i (ap (λ n. n % 512) down ∙ h) lt in
    bit_or_step x (i * 2 ^ suc s) ∙ rw (half, even) (omega (arith, rest, half, even))

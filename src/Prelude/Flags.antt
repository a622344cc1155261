-- ===== src/Prelude/Flags.antt =====
-- Setting low bits of a number in which they are clear, from the digits that the native operation
-- stands for.
use Prim.Native.Nat.{
  ℕ, zero, suc, ◌+◌, ◌*◌, ◌/◌, ◌%◌, ◌≤◌, ◌<◌, max, bit_or, digits, bit_or-bitwise,
}
use mathlib.Core.Path.{◌≡◌, refl, ◌∙◌}
use native.Mathlib.Omega.{arith}

-- The digits of the disjunction, with a count of digits to go.
abbrev either : ℕ → ℕ → ℕ → ℕ
either count x y = digits (λ rest. rest) max count x y

-- The `k` lowest bits of a number are clear.
abbrev IsClear : ℕ → ℕ → Type 0
IsClear zero x = Unit
IsClear (suc k) x = (x % 2 ≡ 0) × IsClear k (x / 2)

-- The number of values of `k` bits.
abbrev values : ℕ → ℕ
values zero = 1
values (suc k) = 2 * values k

either-zero : (count x : ℕ) → x ≤ count → either count x 0 ≡ x
either-zero zero zero le = refl
either-zero zero (suc x) le = absurd (omega arith)
either-zero (suc count) zero le = refl
either-zero (suc count) (suc x) le = omega (arith, either-zero count (suc x / 2) (omega arith))

either-add : (k count x y : ℕ) → x ≤ count → IsClear k x → y < values k → either count x y ≡ x + y
either-add zero count x y le c lt =
    let none : y ≡ 0 = omega arith in rw none (either-zero count x le ∙ omega arith)
either-add (suc k) zero zero y le c lt = omega arith
either-add (suc k) zero (suc x) y le c lt = absurd (omega arith)
either-add (suc k) (suc count) zero y le c lt = omega arith
either-add (suc k) (suc count) (suc x) y le c lt =
    let rest = either-add k count (suc x / 2) (y / 2) (omega arith) c.1 (omega arith) in
    let even : suc x % 2 ≡ 0 = c.0 in rw even (omega (arith, rest))

pub bit_or_three : (x : ℕ) → x % 4 ≡ 0 → bit_or x 3 ≡ x + 3
bit_or_three x four =
    bit_or-bitwise x 3
    ∙ either-add 2 x x 3 (omega arith) (omega arith, (omega arith, tt)) (omega arith)

pub bit_or_low : (x flags : ℕ) → x % 4096 ≡ 0 → flags < 4096 → bit_or x flags ≡ x + flags
bit_or_low x flags whole small =
    bit_or-bitwise x flags
    ∙ either-add 12 x x flags (omega arith)
        (
          omega arith,
          (
            omega arith,
            (
              omega arith,
              (
                omega arith,
                (
                  omega arith,
                  (
                    omega arith,
                    (
                      omega arith,
                      (omega arith, (omega arith, (omega arith, (omega arith, (omega arith, tt))))),
                    ),
                  ),
                ),
              ),
            ),
          ),
        )
        (omega arith)

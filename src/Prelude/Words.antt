-- ===== src/Prelude/Words.antt =====
-- Words of several bytes in a memory of bytes, lowest byte first.
use Prim.Native.Nat.{ℕ, zero, suc, ◌+◌, ◌*◌, ◌/◌, ◌%◌, ◌^◌, ◌≤◌, ◌<◌}
use mathlib.Core.Path.{◌≡◌, refl, ◌∙◌, ap₂}
use mathlib.Core.Logic.{◌⊎◌, inl, inr}
use native.Mathlib.Omega.{arith}
use evisor.Prelude.Tests.{==_refl, ==_ne}
use evisor.Prelude.Lists.{update}

-- A word of `n` bytes written, and read.
unfoldable pub store : ℕ → (ℕ → ℕ) → ℕ → ℕ → ℕ → ℕ
store zero mem a v = mem
store (suc n) mem a v = update (store n mem (suc a) (v / 2 ^ 8)) a (v % 2 ^ 8)

unfoldable pub load : ℕ → (ℕ → ℕ) → ℕ → ℕ
load zero mem a = 0
load (suc n) mem a = mem a + 2 ^ 8 * load n mem (suc a)

pub store-outside :
    (n : ℕ) (mem : ℕ → ℕ) (a v b : ℕ) → (b < a) ⊎ (a + n ≤ b) → store n mem a v b ≡ mem b
unfolding store
store-outside zero mem a v b out = refl
store-outside (suc n) mem a v b out = rw (==_ne a b (omega (arith, out))) (
    store-outside n mem (suc a) (v / 2 ^ 8) b
      (elim out [ inl low ↦ inl (omega arith) | inr high ↦ inr (omega arith) ]))

-- Memories that agree on the bytes of a word.
pub load_agree :
    (n : ℕ) (mem mem' : ℕ → ℕ) (a : ℕ)
    → ((b : ℕ) → a ≤ b → b < a + n → mem b ≡ mem' b)
    → load n mem a ≡ load n mem' a
unfolding load
load_agree zero mem mem' a h = refl
load_agree (suc n) mem mem' a h =
    ap₂ (λ (x y : ℕ). x + 2 ^ 8 * y) (h a (omega arith) (omega arith))
      (load_agree n mem mem' (suc a) (λ b low high. h b (omega arith) (omega arith)))

-- The number of values of `n` bytes.
abbrev pub values : ℕ → ℕ
values zero = 1
values (suc n) = 2 ^ 8 * values n

pub load-store : (n : ℕ) (mem : ℕ → ℕ) (a v : ℕ) → v < values n → load n (store n mem a v) a ≡ v
unfolding load store
load-store zero mem a v h = omega arith
load-store (suc n) mem a v h =
    let less : v / 2 ^ 8 < values n = omega arith in
    let rest : load n (update (store n mem (suc a) (v / 2 ^ 8)) a (v % 2 ^ 8)) (suc a) ≡ v / 2 ^ 8 =
      load_agree n _ (store n mem (suc a) (v / 2 ^ 8)) (suc a)
        (λ b low high. rw (==_ne a b (omega arith)) refl)
      ∙ load-store n mem (suc a) (v / 2 ^ 8) less in
    rw (==_refl a, rest) (omega arith)

-- ===== src/Common/Cstring/Strings.antt =====
-- What strlen and strncmp tell of strings.
use evisor.Prelude.{
  ==_iff, ==_ne, ap, arith, false, inl, inr, refl, some, suc, sym, zero, ℕ, ℕ_discrete, ◌+◌, ◌<◌,
  ◌==◌, ◌↔◌, ◌∙◌, ◌≡◌, ◌≢◌, ◌⊎◌,
}
use evisor.Prelude.Int.{pos, sub_ℕ}
use evisor.Common.Cstring.{strlen, strncmp}

-- With fuel for the string and its end, `strlen` finds the first zero.
pub strlen_lem :
    (fuel : ℕ) (mem : ℕ → ℕ) (s k : ℕ)
    → mem (s + k) ≡ 0
    → ((j : ℕ) → j < k → mem (s + j) ≢ 0)
    → k < fuel
    → strlen fuel mem s ≡ some k
unfolding strlen
strlen_lem zero mem s k end before enough = absurd (omega arith)
strlen_lem (suc fuel) mem s zero end before enough =
    let here : s + 0 ≡ s = omega arith in rw (rw here at end) refl
strlen_lem (suc fuel) mem s (suc k) end before enough =
    let here : s + 0 ≡ s = omega arith in
    let more : (mem s == 0) ≡ false = ==_ne (mem s) 0 (rw here at (before 0 (omega arith))) in
    let shift : (j : ℕ) → s + suc j ≡ suc s + j = λ j. omega arith in
    let rest =
      strlen_lem fuel mem (suc s) k (rw (shift k) at end)
        (λ j lt z. before (suc j) (omega arith) (ap mem (shift j) ∙ z)) (omega arith) in
    rw (more, rest) refl

-- Two strings agree in their first `n` characters, up to the end of the first.
abbrev pub Agree : (ℕ → ℕ) → ℕ → ℕ → ℕ → Type 0
Agree mem s1 s2 n =
    (i : ℕ) → i < n → ((j : ℕ) → j < i → mem (s1 + j) ≢ 0) → mem (s1 + i) ≡ mem (s2 + i)

sub-zero : (a b : ℕ) → (sub_ℕ a b ≡ pos 0) ↔ (a ≡ b)
sub-zero a b = (λ e. ground (arith, e), λ e. ground (arith, e))

zero_right : (s : ℕ) → s + 0 ≡ s
zero_right s = omega arith

shift : (s j : ℕ) → s + suc j ≡ suc s + j
shift s j = omega arith

Agree-head : (mem : ℕ → ℕ) (s1 s2 n : ℕ) → Agree mem s1 s2 (suc n) → mem s1 ≡ mem s2
Agree-head mem s1 s2 n all =
    ap mem (sym (zero_right s1))
    ∙ (all 0 (omega arith) (λ j lt. absurd (omega arith)) ∙ ap mem (zero_right s2))

Agree-tail :
    (mem : ℕ → ℕ) (s1 s2 n : ℕ)
    → mem s1 ≢ 0
    → Agree mem s1 s2 (suc n)
    → Agree mem (suc s1) (suc s2) n
Agree-tail mem s1 s2 n nz all i lt before =
    ap mem (sym (shift s1 i)) ∙ (all (suc i) (omega arith) (inside before) ∙ ap mem (shift s2 i))
  where
    inside : ((j : ℕ) → j < i → mem (suc s1 + j) ≢ 0) → (j : ℕ) → j < suc i → mem (s1 + j) ≢ 0
    inside before zero lt z = nz (ap mem (sym (zero_right s1)) ∙ z)
    inside before (suc j) lt z = before j (omega arith) (ap mem (sym (shift s1 j)) ∙ z)

Agree-cons :
    (mem : ℕ → ℕ) (s1 s2 n : ℕ)
    → mem s1 ≡ mem s2
    → (mem s1 ≢ 0 → Agree mem (suc s1) (suc s2) n)
    → Agree mem s1 s2 (suc n)
Agree-cons mem s1 s2 n same rest zero lt before =
    ap mem (zero_right s1) ∙ (same ∙ ap mem (sym (zero_right s2)))
Agree-cons mem s1 s2 n same rest (suc i) lt before =
    ap mem (shift s1 i)
    ∙ (rest (λ z. before 0 (omega arith) (ap mem (zero_right s1) ∙ z)) i (omega arith)
          (λ j small z. before (suc j) (omega arith) (ap mem (shift s1 j) ∙ z))
        ∙ ap mem (sym (shift s2 i)))

strncmp-stop :
    (mem : ℕ → ℕ) (s1 s2 n : ℕ)
    → (mem s1 ≡ 0) ⊎ (mem s1 ≢ mem s2)
    → strncmp mem s1 s2 (suc n) ≡ sub_ℕ (mem s1) (mem s2)
unfolding strncmp
strncmp-stop mem s1 s2 n (inl z) = rw ((==_iff (mem s1) 0).1 z) refl
strncmp-stop mem s1 s2 n (inr ne) = elim (ℕ_discrete (mem s1) 0) [
  | yes z ↦ rw ((==_iff (mem s1) 0).1 z) refl
  | no nz ↦ rw (==_ne (mem s1) 0 nz, ==_ne (mem s1) (mem s2) ne) refl
]

strncmp-go :
    (mem : ℕ → ℕ) (s1 s2 n : ℕ)
    → mem s1 ≢ 0
    → mem s1 ≡ mem s2
    → strncmp mem s1 s2 (suc n) ≡ strncmp mem (suc s1) (suc s2) n
unfolding strncmp
strncmp-go mem s1 s2 n nz same = rw (==_ne (mem s1) 0 nz, (==_iff (mem s1) (mem s2)).1 same) refl

-- `strncmp` gives 0 exactly for strings that agree in their first `n` characters.
pub strncmp_iff : (mem : ℕ → ℕ) (s1 s2 n : ℕ) → (strncmp mem s1 s2 n ≡ pos 0) ↔ Agree mem s1 s2 n
unfolding strncmp
strncmp_iff mem s1 s2 zero = (λ e i lt. absurd (omega arith), λ all. refl)
strncmp_iff mem s1 s2 (suc n) =
    let rest = strncmp_iff mem (suc s1) (suc s2) n in
    let sub = sub-zero (mem s1) (mem s2) in
    elim (ℕ_discrete (mem s1) 0) [
      | yes z ↦
          let stop = strncmp-stop mem s1 s2 n (inl z) in
          (
            λ e. Agree-cons mem s1 s2 n (sub.0 (sym stop ∙ e)) (λ nz. absurd (nz z)),
            λ all. stop ∙ sub.1 (Agree-head mem s1 s2 n all),
          )
      | no nz ↦ elim (ℕ_discrete (mem s1) (mem s2)) [
        | yes e ↦
            let go = strncmp-go mem s1 s2 n nz e in
            (
              λ d. Agree-cons mem s1 s2 n e (λ _. rest.0 (sym go ∙ d)),
              λ all. go ∙ rest.1 (Agree-tail mem s1 s2 n nz all),
            )
        | no ne ↦
            let stop = strncmp-stop mem s1 s2 n (inr ne) in
            (
              λ e. absurd (ne (sub.0 (sym stop ∙ e))),
              λ all. absurd (ne (Agree-head mem s1 s2 n all)),
            )
      ]
    ]

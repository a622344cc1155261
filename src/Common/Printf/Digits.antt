-- ===== src/Common/Printf/Digits.antt =====
-- src/common/cstdio/printf.cc: ulitoa and uitoa print the number in its base.
use mathlib.Core.Option
use evisor.Prelude.{
  ==_ne, Bool, Bool-cases, List, Option, [], ap, arith, dec_lt, false, if◌then◌else◌, inl, inr, leb,
  leb→le, ltb, lt→ltb, none, refl, some, suc, true, zero, ℕ, ◌%◌, ◌*◌, ◌+◌, ◌/◌, ◌<◌, ◌==◌, ◌^◌,
  ◌||◌, ◌∙◌, ◌∷◌, ◌≡◌, ◌≢◌, ◌≤◌, ◌⊎◌,
}
use native.Mathlib.Nat.{
  pow-suc, pow-zero, pow-succ', one-le-pow, mul-div_left, mod-lt, div-lt_iff_lt-mul, mod-add-div',
  div-one, mod-eq_of_lt, pow-le-pow_left, div-eq_of_lt, le-div_iff_mul-le, pow-le-pow_right,
}
use evisor.Common.Printf.{digit_char, highest, emit, to_digits, atoi}

-- The number that the digits of a text stand for in a base, after digits that stand for `acc`.
unfoldable pub read_digits : ℕ → ℕ → List ℕ → Option ℕ
read_digits base acc [] = some acc
read_digits base acc (c ∷ cs) = elim (atoi c) [
  | none ↦ none
  | some d ↦ if ltb d base then read_digits base (acc * base + d) cs else none
]

-- The number that a text stands for: a text without a digit stands for none.
unfoldable pub parse : ℕ → List ℕ → Option ℕ
parse base [] = none
parse base (c ∷ cs) = read_digits base 0 (c ∷ cs)

-- A digit is read back.
atoi-digit_char : (u : Bool) (d : ℕ) → d < 16 → atoi (digit_char u d) ≡ some d
unfolding atoi digit_char
atoi-digit_char true d h = ground arith
atoi-digit_char false d h = ground arith

read_digits-cons :
    (base acc d : ℕ) (u : Bool) (cs : List ℕ)
    → d < base
    → base ≤ 16
    → read_digits base acc (digit_char u d ∷ cs) ≡ read_digits base (acc * base + d) cs
unfolding read_digits
read_digits-cons base acc d u cs h small =
    rw (atoi-digit_char u d (omega arith), lt→ltb d base h, read_digits) refl

-- What `emit` is to do at the place `base ^ k`.
abbrev Emits : ℕ → ℕ → Bool → ℕ → ℕ → Bool → ℕ → Type 0
Emits fuel base u value k started acc =
    (c : ℕ) × (cs : List ℕ) × (emit fuel base u value (base ^ k) started ≡ some (c ∷ cs))
    × (read_digits base acc (c ∷ cs) ≡ some (acc * base ^ suc k + value))

emit-shown :
    (fuel base : ℕ) (u : Bool) (value v : ℕ) (started : Bool)
    → v ≢ 0
    → (started || ltb 0 (value / v) || v / base == 0) ≡ true
    → emit (suc fuel) base u value v started
      ≡ Option.map
          (λ cs. digit_char u (value / v) ∷ cs)
          (emit fuel base u (value % v) (v / base) true)
unfolding emit
emit-shown fuel base u value v started n s = rw (==_ne v 0 n, s, emit) refl

emit-hidden :
    (fuel base : ℕ) (u : Bool) (value v : ℕ) (started : Bool)
    → v ≢ 0
    → (started || ltb 0 (value / v) || v / base == 0) ≡ false
    → emit (suc fuel) base u value v started ≡ emit fuel base u (value % v) (v / base) false
unfolding emit
emit-hidden fuel base u value v started n s = rw (==_ne v 0 n, s, emit) refl

last_shown :
    (base value : ℕ) (started : Bool) → 2 ≤ base → (started || ltb 0 value || 1 / base == 0) ≡ true
last_shown base value true two = refl
last_shown base value false two =
    let gone : 1 / base ≡ 0 = div-eq_of_lt (omega arith) in
    rw gone (elim (Bool-cases (ltb 0 value)) [ inl p ↦ rw p refl | inr p ↦ rw p refl ])

last_place :
    (fuel base : ℕ) (u : Bool) (value : ℕ) (started : Bool) (acc : ℕ)
    → 2 ≤ base
    → base ≤ 16
    → value < base
    → Emits (suc (suc fuel)) base u value 0 started acc
unfolding emit read_digits
last_place fuel base u value started acc two small h =
    let none_left : 1 / base ≡ 0 = div-eq_of_lt (omega arith) in
    let all : value / 1 ≡ value = div-one value in
    let shown : (started || ltb 0 (value / 1) || 1 / base == 0) ≡ true =
      rw all (last_shown base value started two) in
    let end : emit (suc fuel) base u (value % 1) (1 / base) true ≡ some [] = rw none_left refl in
    let first = emit-shown (suc fuel) base u value 1 started (omega arith) shown in
    let sum : acc * base + value ≡ acc * base ^ 1 + value =
      rw (pow-suc base 0, pow-zero base) (omega arith) in
    let read : read_digits base acc (digit_char u value ∷ []) ≡ some (acc * base + value) =
      read_digits-cons base acc value u [] h small in
    (digit_char u value, [], rw (pow-zero base) (first ∙ rw (end, all) refl), read ∙ ap some sum)

place : (base k : ℕ) → 2 ≤ base → base ^ suc k / base ≡ base ^ k
place base k two = rw (pow-suc base k) (mul-div_left (base ^ k) (omega arith))

hidden_zero : (a b : Bool) (d : ℕ) → (a || ltb 0 d || b) ≡ false → (d ≡ 0) × (a ≡ false)
hidden_zero a b d h = ground arith

unstarted_acc :
    (started : Bool) (acc : ℕ) → (started ≡ true) ⊎ (acc ≡ 0) → started ≡ false → acc ≡ 0
unstarted_acc started acc s n = ground arith

emit_lem :
    (fuel base : ℕ) (u : Bool) (value k : ℕ) (started : Bool) (acc : ℕ)
    → 2 ≤ base
    → base ≤ 16
    → value < base ^ suc k
    → k + 1 < fuel
    → (started ≡ true) ⊎ (acc ≡ 0)
    → Emits fuel base u value k started acc
unfolding emit
emit_lem zero base u value k started acc two small h enough s = absurd (omega arith)
emit_lem (suc zero) base u value zero started acc two small h enough s = absurd (omega arith)
emit_lem (suc (suc fuel')) base u value zero started acc two small h enough s =
    let one : base ^ 1 ≡ base = rw (pow-suc base 0, pow-zero base) (omega arith) in
    last_place fuel' base u value started acc two small (rw one at h)
emit_lem (suc fuel) base u value (suc k) started acc two small h enough s =
    let v = base ^ suc k in
    let big : 1 ≤ v = one-le-pow (suc k) base (omega arith) in
    let big' : 1 ≤ base ^ k = one-le-pow k base (omega arith) in
    let next : v / base ≡ base ^ k = place base k two in
    let not_last : (v / base == 0) ≡ false = rw next (==_ne (base ^ k) 0 (omega arith)) in
    let digit : value / v < base = (div-lt_iff_lt-mul big).1 (rw (pow-succ' base (suc k)) at h) in
    let power : base ^ suc (suc k) ≡ base * v = pow-succ' base (suc k) in
    let dist : (acc * base + value / v) * v ≡ acc * base * v + value / v * v = omega arith in
    let assoc : acc * (base * v) ≡ acc * base * v = omega arith in
    let whole : value % v + value / v * v ≡ value = mod-add-div' value v in
    let left : value % v < v = mod-lt value big in
    elim (Bool-cases (started || ltb 0 (value / v) || v / base == 0)) [
      | inl shown ↦
          let (c, cs, e, p) =
            emit_lem fuel base u (value % v) k true (acc * base + value / v) two small left
              (omega arith) (inl refl) in
          (
            digit_char u (value / v),
            c ∷ cs,
            emit-shown fuel base u value v started (omega arith) shown ∙ rw (next, e) refl,
            read_digits-cons base acc (value / v) u (c ∷ cs) digit small
                ∙ p
                ∙ ap some (rw power (omega arith)),
          )
      | inr hidden ↦
          let (none_yet, unstarted) = hidden_zero started (v / base == 0) (value / v) hidden in
          let nothing : acc ≡ 0 = unstarted_acc started acc s unstarted in
          let whole' : value % v + 0 * v ≡ value = rw none_yet at whole in
          let same : value % v ≡ value = omega arith in
          let (c, cs, e, p) =
            emit_lem fuel base u (value % v) k false 0 two small left (omega arith) (inr refl) in
          (
            c,
            cs,
            emit-hidden fuel base u value v started (omega arith) hidden ∙ rw (next, e) refl,
            rw nothing (p ∙ ap some (omega arith)),
          )
    ]

below_width : (w base value k : ℕ) → 2 ≤ base → value < 2 ^ w → base ^ k ≤ value → k < w
below_width w base value k two small h = elim (dec_lt k w) [
  | yes lt ↦ lt
  | no ge ↦
      let up : 2 ^ w ≤ 2 ^ k = pow-le-pow_right (omega arith) (omega arith) in
      let wide : 2 ^ k ≤ base ^ k = pow-le-pow_left two k in absurd (omega arith)
]

start_small :
    (w base value k : ℕ) → 0 < w → 2 ≤ base → value < 2 ^ w → (k ≡ 0) ⊎ (base ^ k ≤ value) → k < w
start_small w base value k wide two small (inl z) = omega arith
start_small w base value k wide two small (inr h) = below_width w base value k two small h

below : (x base : ℕ) → leb base x ≡ false → x < base
below x base h = ground arith

highest_lem :
    (w fuel base value k : ℕ)
    → 0 < w
    → 2 ≤ base
    → value < 2 ^ w
    → (k ≡ 0) ⊎ (base ^ k ≤ value)
    → w < k + fuel
    → (j : ℕ) × (highest w fuel base value (base ^ k) ≡ some (base ^ j))
      × (value < base ^ suc j)
      × (j < w)
unfolding highest
highest_lem w zero base value k wide two small from enough =
    let lt : k < w = start_small w base value k wide two small from in absurd (omega arith)
highest_lem w (suc fuel) base value k wide two small from enough =
    let v = base ^ k in
    let big : 1 ≤ v = one-le-pow k base (omega arith) in
    let power : base ^ suc k ≡ base * v = pow-succ' base k in
    elim (Bool-cases (leb base (value / v))) [
      | inl more ↦
          let fits : base * v ≤ value = (le-div_iff_mul-le big).0 (leb→le base (value / v) more) in
          let unwrapped : v * base % 2 ^ w ≡ base ^ suc k =
            rw power (mod-eq_of_lt (omega arith) ∙ omega arith) in
          let (j, e, up, lt) =
            highest_lem w fuel base value (suc k) wide two small (inr (rw power fits))
              (omega arith) in
          (j, rw (more, unwrapped) e, up, lt)
      | inr done ↦
          let stop : value / v < base = below (value / v) base done in
          let low : value < base * v = (div-lt_iff_lt-mul big).0 stop in
          (k, rw done refl, rw power low, start_small w base value k wide two small from)
    ]

-- The text of a number in a base from 2 to 16 is there, holds at least a digit, and read in that base
-- it is the number.
pub to_digits-parse :
    (w value base : ℕ) (upper_case : Bool)
    → 0 < w
    → 2 ≤ base
    → base ≤ 16
    → value < 2 ^ w
    → (cs : List ℕ) × (to_digits w value base upper_case ≡ some cs) × (parse base cs ≡ some value)
unfolding to_digits parse
to_digits-parse w value base u wide two small h =
    let (j, e, above, below) =
      highest_lem w (w + 1) base value 0 wide two h (inl refl) (omega arith) in
    let (c, cs, f, p) =
      emit_lem (w + 1) base u value j false 0 two small above (omega arith) (inr refl) in
    let e' : highest w (w + 1) base value 1 ≡ some (base ^ j) = rw (pow-zero base) at e in
    (c ∷ cs, rw (e', to_digits) f, p ∙ ap some (omega arith))

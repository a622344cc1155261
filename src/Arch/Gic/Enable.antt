-- ===== src/Arch/Gic/Enable.antt =====
-- src/arch/arm64/irq/gic_v2.cc: what RegisterIrq does to each interrupt.
use evisor.Prelude.{
  ==_iff, ==_ne, arith, if◌then◌else◌, lt→ltb, refl, some, suc, zero, bit_and, update, u32_mod, ℕ,
  ℕ_discrete, ◌%◌, ◌*◌, ◌+◌, ◌-◌, ◌/◌, ◌<◌, ◌==◌, ◌^◌, ◌∙◌, ◌≡◌, ◌≤◌, ◌⊎◌, ap, ap₂, sym,
}
use Prim.Native.Nat.{max, min}
use native.Mathlib.Nat.{mod-eq_of_lt, pow-le-pow_right}
use evisor.Prelude.Bits.{all_below, all_below_sound}
use evisor.Prelude.Outcome.{ok}
use evisor.Prelude.Digits.{
  bit, bit-le-one, bit-bit_or, bit-bit_and, bit-complement, bit-shift, bit-shift_outside,
}
use evisor.Arch.Gic.{Distributor, Gic, Handler, enabled, prioritised, register_irq, targeted}

-- The fields of interrupt `id`: its enable bit, bit `j` of its priority and bit `j` of its targets.
abbrev pub enable_bit : Distributor → ℕ → ℕ
enable_bit d id = bit (d.gicd_isenabler (id / 32)) (id % 32)

abbrev pub priority_bit : Distributor → ℕ → ℕ → ℕ
priority_bit d id j = bit (d.gicd_ipriorityr (id / 4)) (id % 4 * 8 + j)

abbrev pub target_bit : Distributor → ℕ → ℕ → ℕ
target_bit d id j = bit (d.gicd_itargetsr (id / 4)) (id % 4 * 8 + j)

-- Bit `k` of `1 << n`.
bit-pow : (n k : ℕ) → bit (1 * 2 ^ n) k ≡ (if k == n then 1 else 0)
bit-pow n k = elim (ℕ_discrete k n) [
  | yes e ↦
      let none : k - n ≡ 0 = omega arith in
      rw ((==_iff k n).1 e) (bit-shift n k 1 (omega arith) ∙ ap (λ m. bit 1 m) none)
  | no ne ↦ rw (==_ne k n ne) (bit-shift_outside 1 n k 1 (omega arith) (omega arith))
]

-- A byte in its field of a word.
field-lt : (m x : ℕ) → m < 4 → x < 2 ^ 8 → x * 2 ^ (m * 8) < u32_mod
field-lt zero x h lt = omega arith
field-lt (suc zero) x h lt = omega arith
field-lt (suc (suc zero)) x h lt = omega arith
field-lt (suc (suc (suc zero))) x h lt = omega arith
field-lt (suc (suc (suc (suc m)))) x h lt = absurd (omega arith)

-- `w & ~(x << s)` for a byte `x` in the field `m`: in the field, and outside.
cleared_inside :
    (w m x j : ℕ)
    → m < 4
    → x < 2 ^ 8
    → j < 8
    → bit (bit_and w (u32_mod - 1 - x * 2 ^ (m * 8))) (m * 8 + j)
      ≡ min (bit w (m * 8 + j)) (1 - bit x j)
cleared_inside w m x j hm hx hj =
    let j_back : m * 8 + j - m * 8 ≡ j = omega arith in
    let inner : bit (x * 2 ^ (m * 8)) (m * 8 + j) ≡ bit x j =
      bit-shift (m * 8) (m * 8 + j) x (omega arith) ∙ ap (λ t. bit x t) j_back in
    bit-bit_and (m * 8 + j) w (u32_mod - 1 - x * 2 ^ (m * 8))
    ∙ ap (λ t. min (bit w (m * 8 + j)) t)
        (bit-complement 32 (m * 8 + j) (x * 2 ^ (m * 8)) (field-lt m x hm hx) (omega arith)
          ∙ ap (λ t. 1 - t) inner)

cleared_outside :
    (w m x k : ℕ)
    → m < 4
    → x < 2 ^ 8
    → k < 32
    → (k < m * 8) ⊎ (m * 8 + 8 ≤ k)
    → bit (bit_and w (u32_mod - 1 - x * 2 ^ (m * 8))) k ≡ bit w k
cleared_outside w m x k hm hx hk out =
    let inner : bit (x * 2 ^ (m * 8)) k ≡ 0 = bit-shift_outside 8 (m * 8) k x hx out in
    let kept : bit (u32_mod - 1 - x * 2 ^ (m * 8)) k ≡ 1 =
      bit-complement 32 k (x * 2 ^ (m * 8)) (field-lt m x hm hx) hk ∙ ap (λ t. 1 - t) inner in
    omega (arith, bit-bit_and k w (u32_mod - 1 - x * 2 ^ (m * 8)), bit-le-one k w)

target-lt : (t : ℕ) → t < 8 → 2 ^ t < 2 ^ 8
target-lt t h =
    let below : 2 ^ t ≤ 2 ^ 7 = pow-le-pow_right (omega arith) {i = t} {j = 7} (omega arith) in
    omega arith

-- What a call leaves of the fields of the interrupt, and of all others.
pub record Registered (id target priority : ℕ) (d d' : Distributor) : Type 0 where
  pub enable : (other : ℕ) → enable_bit d' other ≡ (if other == id then 1 else enable_bit d other)
  pub priority_cleared :
      (other j : ℕ)
      → j < 8
      → priority_bit d' other j ≡ (
          if other == id
          then min (priority_bit d id j) (1 - bit priority j)
          else priority_bit d other j)
  pub targets :
      (other j : ℕ)
      → j < 8
      → target_bit d' other j
        ≡ (if other == id then (if j == target then 1 else 0) else target_bit d other j)

ones : (j : ℕ) → j < 8 → bit 0xff j ≡ 1
unfolding all_below
ones j h = (==_iff (bit 0xff j) 1).0 (all_below_sound 8 (λ j. bit 0xff j == 1) refl j h)

module _ (word id : ℕ) where
  enabled_lem : (k : ℕ) → bit (enabled word id) k ≡ (if k == id % 32 then 1 else bit word k)
  enabled_lem k = elim (ℕ_discrete k (id % 32)) [
    | yes e ↦ rw ((==_iff k (id % 32)).1 e) (omega (arith, at, bit-le-one k word, here e))
    | no ne ↦ rw (==_ne k (id % 32) ne) (omega (arith, at, there ne))
  ]
    where
      at : bit (enabled word id) k ≡ max (bit word k) (bit (1 * 2 ^ (id % 32)) k)
      at = bit-bit_or k word (1 * 2 ^ (id % 32))

      here : k ≡ id % 32 → bit (1 * 2 ^ (id % 32)) k ≡ 1
      here e = bit-pow (id % 32) k ∙ rw ((==_iff k (id % 32)).1 e) refl

      there : ¬ (k ≡ id % 32) → bit (1 * 2 ^ (id % 32)) k ≡ 0
      there ne = bit-pow (id % 32) k ∙ rw (==_ne k (id % 32) ne) refl

  targeted_inside :
      (t j : ℕ)
      → t < 8
      → j < 8
      → bit (targeted word id t) (id % 4 * 8 + j) ≡ (if j == t then 1 else 0)
  targeted_inside t j ht hj =
      let m : ℕ = id % 4 in
      let fits : 2 ^ t * 2 ^ (m * 8) % u32_mod ≡ 2 ^ t * 2 ^ (m * 8) =
        mod-eq_of_lt (field-lt m (2 ^ t) (omega arith) (target-lt t ht)) in
      let back : m * 8 + j - m * 8 ≡ j = omega arith in
      let one : 1 * 2 ^ t ≡ 2 ^ t = omega arith in
      let new : bit (2 ^ t * 2 ^ (m * 8)) (m * 8 + j) ≡ (if j == t then 1 else 0) =
        bit-shift (m * 8) (m * 8 + j) (2 ^ t) (omega arith)
        ∙ ap (λ k. bit (2 ^ t) k) back
        ∙ ap (λ x. bit x j) (sym one)
        ∙ bit-pow t j in
      let old : bit (bit_and word (u32_mod - 1 - 0xff * 2 ^ (m * 8))) (m * 8 + j) ≡ 0 =
        cleared_inside word m 0xff j (omega arith) (omega arith) hj ∙ omega (arith, ones j hj) in
      bit-bit_or (m * 8 + j) _ _
      ∙ ap₂ max old (ap (λ x. bit x (m * 8 + j)) fits ∙ new)
      ∙ omega arith

  targeted_outside :
      (t k : ℕ)
      → t < 8
      → k < 32
      → (k < id % 4 * 8) ⊎ (id % 4 * 8 + 8 ≤ k)
      → bit (targeted word id t) k ≡ bit word k
  targeted_outside t k ht hk out =
      let m : ℕ = id % 4 in
      let fits : 2 ^ t * 2 ^ (m * 8) % u32_mod ≡ 2 ^ t * 2 ^ (m * 8) =
        mod-eq_of_lt (field-lt m (2 ^ t) (omega arith) (target-lt t ht)) in
      bit-bit_or k _ _
      ∙ ap₂ max (cleared_outside word m 0xff k (omega arith) (omega arith) hk out)
          (ap (λ x. bit x k) fits ∙ bit-shift_outside 8 (m * 8) k (2 ^ t) (target-lt t ht) out)
      ∙ omega arith

module _ {S : Type 0} (id target priority : ℕ) (handler : Handler S) (g : Gic S) where
  -- The registers of the distributor after the call.
  abbrev after : Distributor
  after = record g.regs.d {
    gicd_isenabler =
        update g.regs.d.gicd_isenabler (id / 32) (enabled (g.regs.d.gicd_isenabler (id / 32)) id);
    gicd_ipriorityr =
        update g.regs.d.gicd_ipriorityr (id / 4)
          (prioritised (g.regs.d.gicd_ipriorityr (id / 4)) id priority);
    gicd_itargetsr =
        update g.regs.d.gicd_itargetsr (id / 4)
          (targeted (g.regs.d.gicd_itargetsr (id / 4)) id target);
  }

  after_enable :
      (other : ℕ) → enable_bit after other ≡ (if other == id then 1 else enable_bit g.regs.d other)
  after_enable other = elim (ℕ_discrete (id / 32) (other / 32)) [
    | yes same ↦ rw ((==_iff (id / 32) (other / 32)).1 same) (
        let at = enabled_lem (g.regs.d.gicd_isenabler (id / 32)) id (other % 32) in
        at ∙ elim (ℕ_discrete other id) [
          | yes e ↦
              rw ((==_iff other id).1 e, (==_iff (other % 32) (id % 32)).1 (ap (λ n. n % 32) e))
                refl
          | no ne ↦
              rw (==_ne other id ne, ==_ne (other % 32) (id % 32) (λ e. ne (omega arith)))
                (ap (λ w. bit (g.regs.d.gicd_isenabler w) (other % 32)) same)
        ])
    | no differ ↦
        rw
          (
            ==_ne (id / 32) (other / 32) differ,
            ==_ne other id (λ e. differ (sym (ap (λ n. n / 32) e))),
          )
          refl
  ]

  module _ (small_target : target < 8) (small_priority : priority < 2 ^ 8) where
    after_priority :
        (other j : ℕ)
        → j < 8
        → priority_bit after other j ≡ (
            if other == id
            then min (priority_bit g.regs.d id j) (1 - bit priority j)
            else priority_bit g.regs.d other j)
    after_priority other j hj = elim (ℕ_discrete (id / 4) (other / 4)) [
      | yes same ↦ rw ((==_iff (id / 4) (other / 4)).1 same) (elim (ℕ_discrete other id) [
        | yes e ↦ rw ((==_iff other id).1 e) (
            rw (ap (λ n. n % 4) e) (
              cleared_inside (g.regs.d.gicd_ipriorityr (id / 4)) (id % 4) priority j (omega arith)
                small_priority hj))
        | no ne ↦ rw (==_ne other id ne) (
            cleared_outside (g.regs.d.gicd_ipriorityr (id / 4)) (id % 4) priority
              (other % 4 * 8 + j) (omega arith) small_priority (omega arith) (omega arith)
            ∙ ap (λ w. bit (g.regs.d.gicd_ipriorityr w) (other % 4 * 8 + j)) same)
      ])
      | no differ ↦
          rw
            (
              ==_ne (id / 4) (other / 4) differ,
              ==_ne other id (λ e. differ (sym (ap (λ n. n / 4) e))),
            )
            refl
    ]

    after_targets :
        (other j : ℕ)
        → j < 8
        → target_bit after other j
          ≡ (if other == id then (if j == target then 1 else 0) else target_bit g.regs.d other j)
    after_targets other j hj = elim (ℕ_discrete (id / 4) (other / 4)) [
      | yes same ↦ rw ((==_iff (id / 4) (other / 4)).1 same) (elim (ℕ_discrete other id) [
        | yes e ↦ rw ((==_iff other id).1 e) (
            rw (ap (λ n. n % 4) e)
              (targeted_inside (g.regs.d.gicd_itargetsr (id / 4)) id target j small_target hj))
        | no ne ↦ rw (==_ne other id ne) (
            targeted_outside (g.regs.d.gicd_itargetsr (id / 4)) id target (other % 4 * 8 + j)
              small_target (omega arith) (omega arith)
            ∙ ap (λ w. bit (g.regs.d.gicd_itargetsr w) (other % 4 * 8 + j)) same)
      ])
      | no differ ↦
          rw
            (
              ==_ne (id / 4) (other / 4) differ,
              ==_ne other id (λ e. differ (sym (ap (λ n. n / 4) e))),
            )
            refl
    ]

-- For an interrupt below 1020, a target below 8 and a priority of a byte, `RegisterIrq` returns: it
-- enters the handler, enables this interrupt, makes the target its only one, and clears the bits of
-- its priority that are set in `priority`; the fields of every other interrupt keep their bits.
pub register_irq_lem :
    {S : Type 0} (id target priority : ℕ) (handler : Handler S) (g : Gic S)
    → id < 1020
    → target < 8
    → priority < 2 ^ 8
    → (g' : Gic S) × (register_irq id target priority handler g ≡ ok g')
      × Registered id target priority g.regs.d g'.regs.d
      × ((other : ℕ)
          → g'.irq_handler other ≡ (if id == other then some handler else g.irq_handler other))
unfolding register_irq
register_irq_lem id target priority handler g small_id small_target small_priority = (
  record {
    regs = record g.regs { d = after id target priority handler g };
    irq_handler = update g.irq_handler id (some handler);
  },
  rw (lt→ltb id 1020 small_id, lt→ltb target 32 (omega arith)) refl,
  record {
    enable = after_enable id target priority handler g;
    priority_cleared = after_priority id target priority handler g small_target small_priority;
    targets = after_targets id target priority handler g small_target small_priority;
  },
  λ other. refl,
)

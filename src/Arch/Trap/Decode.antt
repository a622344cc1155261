-- ===== src/Arch/Trap/Decode.antt =====
-- src/arch/arm64/irq/trap.cc: the syndrome as the architecture lays it out, and its decoding.
use evisor.Prelude.{
  ==_ne, arith, inl, inr, refl, ℕ, ℕ_discrete, ◌≢◌, ◌⊎◌, ◌%◌, ◌*◌, ◌+◌, ◌/◌, ◌<◌, ◌==◌, ◌^◌, ◌≡◌,
}
use evisor.Arch.Trap.{
  Syndrome, syndrome, register_access, memory_access_fault, memory_abort_failed, handle_sync,
  handle_trap_mem_abort,
}

-- The syndrome of an access, with its fields at their places.
abbrev pub encode : Syndrome → ℕ
encode s =
    s.cond * 2 ^ 20
    + s.opc2 * 2 ^ 17
    + s.opc1 * 2 ^ 14
    + s.crn * 2 ^ 10
    + s.rt * 2 ^ 5
    + s.crm * 2
    + s.dir

pub record IsSyndrome (s : Syndrome) : Type 0 where
  pub cond : s.cond < 2 ^ 4
  pub opc2 : s.opc2 < 2 ^ 3
  pub opc1 : s.opc1 < 2 ^ 3
  pub crn : s.crn < 2 ^ 4
  pub rt : s.rt < 2 ^ 5
  pub crm : s.crm < 2 ^ 4
  pub dir : s.dir < 2

-- Fields of a syndrome within their widths are taken apart as they were put together.
pub syndrome-encode : (s : Syndrome) → IsSyndrome s → syndrome (encode s) ≡ s
unfolding syndrome
syndrome-encode s h =
    let cond : encode s / 2 ^ 20 % 2 ^ 4 ≡ s.cond = omega (arith, h) in
    let opc2 : encode s / 2 ^ 17 % 2 ^ 3 ≡ s.opc2 = omega (arith, h) in
    let opc1 : encode s / 2 ^ 14 % 2 ^ 3 ≡ s.opc1 = omega (arith, h) in
    let crn : encode s / 2 ^ 10 % 2 ^ 4 ≡ s.crn = omega (arith, h) in
    let rt : encode s / 2 ^ 5 % 2 ^ 5 ≡ s.rt = omega (arith, h) in
    let crm : encode s / 2 % 2 ^ 4 ≡ s.crm = omega (arith, h) in
    let dir : encode s % 2 ≡ s.dir = omega (arith, h) in
    rw (cond, opc2, opc1, crn, rt, crm, dir) refl

-- A data abort: whether the fields of the access are valid, its size, sign extension, register and
-- width, acquire and release, the bits 13 to 7, the direction, and the fault with its level.
pub record Abort : Type 0 where
  pub isv : ℕ
  pub sas : ℕ
  pub sse : ℕ
  pub srt : ℕ
  pub sf : ℕ
  pub ar : ℕ
  pub middle : ℕ
  pub wnr : ℕ
  pub fault : ℕ
  pub level : ℕ

pub record IsAbort (a : Abort) : Type 0 where
  pub isv : a.isv < 2
  pub sas : a.sas < 4
  pub sse : a.sse < 2
  pub srt : a.srt < 32
  pub sf : a.sf < 2
  pub ar : a.ar < 2
  pub middle : a.middle < 2 ^ 7
  pub wnr : a.wnr < 2
  pub fault : a.fault < 16
  pub level : a.level < 4

-- The syndrome of a data abort from a guest, by an instruction of 32 bits.
abbrev pub encode_abort : Abort → ℕ
encode_abort a =
    0b100100 * 2 ^ 26
    + 2 ^ 25
    + a.isv * 2 ^ 24
    + a.sas * 2 ^ 22
    + a.sse * 2 ^ 21
    + a.srt * 2 ^ 16
    + a.sf * 2 ^ 15
    + a.ar * 2 ^ 14
    + a.middle * 2 ^ 7
    + a.wnr * 2 ^ 6
    + a.fault * 4
    + a.level

-- A data abort from a guest with all its fields within their widths: one for a missing translation,
-- at any level, goes to the handler that maps a page; one for a permission to the emulation of the
-- device, with the register and the direction of the access; any other fails.
pub handle_sync-encode_abort :
    (far : ℕ) (a : Abort)
    → IsAbort a
    → ((a.fault ≡ 1) × (handle_sync (encode_abort a) far ≡ memory_access_fault far))
      ⊎ ((a.fault ≡ 3)
          × (handle_sync (encode_abort a) far ≡ register_access far a.srt (a.wnr == 0)))
      ⊎ ((a.fault ≢ 1) × (a.fault ≢ 3) × (handle_sync (encode_abort a) far ≡ memory_abort_failed))
unfolding handle_sync handle_trap_mem_abort
handle_sync-encode_abort far a h =
    let ec : encode_abort a / 2 ^ 26 % 2 ^ 6 ≡ 0b100100 = omega (arith, h) in
    let kind : encode_abort a % 2 ^ 6 / 4 ≡ a.fault = omega (arith, h) in
    let reg : encode_abort a / 2 ^ 16 % 2 ^ 5 ≡ a.srt = omega (arith, h) in
    let dir : encode_abort a / 2 ^ 6 % 2 ≡ a.wnr = omega (arith, h) in
    elim (ℕ_discrete a.fault 1) [
      | yes e ↦ inl (e, rw (ec, kind, e) refl)
      | no n ↦ elim (ℕ_discrete a.fault 3) [
        | yes e ↦ inr (inl (e, rw (ec, reg, dir, kind, e) refl))
        | no m ↦ inr (inr (n, m, rw (ec, kind, ==_ne a.fault 1 n, ==_ne a.fault 3 m) refl))
      ]
    ]

-- ===== src/Arch/Trap/Access.antt =====
-- src/arch/arm64/irq/trap.cc: what an emulated access to a system register does.
use evisor.Prelude.{
  ==_ne, ==_refl, All, Bool-cases, List, Option, ap, arith, false, if◌then◌else◌, inl, inr, none,
  refl, some, subst, sym, true, u64_mod, update, ℕ, ℕ_discrete, ◌%◌, ◌+◌, ◌<◌, ◌==◌, ◌||◌, ◌∙◌, ◌≡◌,
  ◌≢◌,
}
use mathlib.Core.Option
use mathlib.Core.Option.{some_inj}
use evisor.Prelude.Outcome.{panic}
use evisor.Kernel.Task.{VCpuContext}
use evisor.Arch.Sysregs.{Sysreg, number, actlr_el1}
use evisor.Arch.Trap.{
  Guest, get_reg, set_reg, Entry, entry, writes, reads, find, msr, mrs, trap_mcr_mrc, syndrome,
  handle_trap_system, next_pc,
}

-- Each register of a table is found under its own numbers.
abbrev pub Found : List Entry → Entry → Type 0
Found es (entry r op1 crn crm op2) = find es op1 crn crm op2 ≡ some r

abbrev pub Reachable : List Entry → Type 0
Reachable es = All (Found es) es

-- No entry of the table of writes is hidden by an earlier one.
writes-Reachable : Reachable writes
unfolding find
writes-Reachable = (refl, (refl, tt))

-- What an access leaves alone and what it changes, for a general register that is not the zero
-- register.
pub record IsAccess (g : Guest) (rt dir : ℕ) (r : Sysreg) (g' : Guest) : Type 0 where
  pub pc : g'.vcpu.pc ≡ (g.vcpu.pc + 4) % u64_mod
  pub sp : g'.vcpu.sp ≡ g.vcpu.sp
  pub pstate : g'.vcpu.pstate ≡ g.vcpu.pstate
  pub stat : g'.stat ≡ g.stat
  pub written : dir ≡ 0 → (g'.sysregs r ≡ g.vcpu.regs rt) × (g'.vcpu.regs ≡ g.vcpu.regs)
  pub read : dir ≢ 0 → (g'.vcpu.regs rt ≡ g.sysregs r) × (g'.sysregs ≡ g.sysregs)
  pub other_regs : (j : ℕ) → j ≢ rt → g'.vcpu.regs j ≡ g.vcpu.regs j
  pub other_sysregs : (s : Sysreg) → number s ≢ number r → g'.sysregs s ≡ g.sysregs s

msr-IsAccess :
    (g : Guest) (rt : ℕ) (o : Option Sysreg) (g' : Guest)
    → rt < 31
    → msr g rt o ≡ some g'
    → (r : Sysreg) × (o ≡ some r) × IsAccess g rt 0 r g'
unfolding get_reg
msr-IsAccess g rt none g' small e = absurd (clash e)
  where
    clash : none ≡ some g' → ⊥
    clash q = cc
msr-IsAccess g rt (some r) g' small e = (
  r,
  refl,
  subst (IsAccess g rt 0 r) (some_inj.0 e) (
      let other : (rt == 31) ≡ false = ==_ne rt 31 (omega arith) in
      record {
        pc = refl;
        sp = refl;
        pstate = refl;
        stat = refl;
        written = λ z. (rw (==_refl (number r), other) refl, refl);
        read = λ n. absurd (n refl);
        other_regs = λ j n. refl;
        other_sysregs = λ s n. rw (==_ne (number r) (number s) (λ q. n (sym q))) refl;
      }),
)

mrs-IsAccess :
    (g : Guest) (rt dir : ℕ) (o : Option Sysreg) (g' : Guest)
    → rt < 31
    → dir ≢ 0
    → mrs g rt o ≡ some g'
    → (r : Sysreg) × (o ≡ some r) × IsAccess g rt dir r g'
unfolding set_reg
mrs-IsAccess g rt dir none g' small d e = absurd (clash e)
  where
    clash : none ≡ some g' → ⊥
    clash q = cc
mrs-IsAccess g rt dir (some r) g' small d e = (
  r,
  refl,
  subst (IsAccess g rt dir r) (some_inj.0 e) (
      let other : (rt == 31) ≡ false = ==_ne rt 31 (omega arith) in
      let shape : set_reg g.vcpu rt (g.sysregs r)
          ≡ record g.vcpu { regs = update g.vcpu.regs rt (g.sysregs r) } =
        rw other refl in
      let same : (rt == rt) ≡ true = ==_refl rt in
      let held : (j : ℕ)
          → (next_pc (set_reg g.vcpu rt (g.sysregs r))).regs j
            ≡ update g.vcpu.regs rt (g.sysregs r) j =
        λ j. ap (λ (v : VCpuContext). v.regs j) shape in
      record {
        pc = ap (λ (v : VCpuContext). (v.pc + 4) % u64_mod) shape;
        sp = ap (λ (v : VCpuContext). v.sp) shape;
        pstate = ap (λ (v : VCpuContext). v.pstate) shape;
        stat = refl;
        written = λ z. absurd (d z);
        read = λ n. (held rt ∙ rw same refl, refl);
        other_regs = λ j n. held j ∙ rw (==_ne rt j (λ q. n (sym q))) refl;
        other_sysregs = λ s n. refl;
      }),
)

pub trap_mcr_mrc-IsAccess :
    (g : Guest) (opc2 opc1 crn rt crm dir : ℕ) (g' : Guest)
    → rt < 31
    → trap_mcr_mrc g opc2 opc1 crn rt crm dir ≡ some g'
    → (r : Sysreg) × (find (if dir == 0 then writes else reads) opc1 crn crm opc2 ≡ some r)
      × IsAccess g rt dir r g'
unfolding trap_mcr_mrc
trap_mcr_mrc-IsAccess g opc2 opc1 crn rt crm dir g' small e = elim (ℕ_discrete dir 0) [
  | yes z ↦
      subst
        (λ d.
          (r : Sysreg) × (find (if d == 0 then writes else reads) opc1 crn crm opc2 ≡ some r)
          × IsAccess g rt d r g')
        (sym z) (msr-IsAccess g rt (find writes opc1 crn crm opc2) g' small (rw z at e))
  | no n ↦
      let other : (dir == 0) ≡ false = ==_ne dir 0 n in
      rw other (mrs-IsAccess g rt dir (find reads opc1 crn crm opc2) g' small n (rw other at e))
]

pub reads-Reachable : Reachable reads
unfolding find
reads-Reachable = (
  refl,
  (
    refl,
    (
      refl,
      (
        refl,
        (
          refl,
          (
            refl,
            (
              refl,
              (
                refl,
                (
                  refl,
                  (
                    refl,
                    (
                      refl,
                      (
                        refl,
                        (
                          refl,
                          (
                            refl,
                            (
                              refl,
                              (
                                refl,
                                (
                                  refl,
                                  (
                                    refl,
                                    (
                                      refl,
                                      (
                                        refl,
                                        (
                                          refl,
                                          (
                                            refl,
                                            (
                                              refl,
                                              (
                                                refl,
                                                (
                                                  refl,
                                                  (
                                                    refl,
                                                    (
                                                      refl,
                                                      (
                                                        refl,
                                                        (refl, (refl, (refl, (refl, (refl, tt))))),
                                                      ),
                                                    ),
                                                  ),
                                                ),
                                              ),
                                            ),
                                          ),
                                        ),
                                      ),
                                    ),
                                  ),
                                ),
                              ),
                            ),
                          ),
                        ),
                      ),
                    ),
                  ),
                ),
              ),
            ),
          ),
        ),
      ),
    ),
  ),
)

-- A guest that writes CSSELR_EL1, op1 2, CRn 0, CRm 0 and op2 0, is stopped, though it may read it.
pub csselr_write_panics :
    (g : Guest) (iss cond rt : ℕ)
    → syndrome iss ≡ record { cond = cond; opc2 = 0; opc1 = 2; crn = 0; rt = rt; crm = 0; dir = 0 }
    → handle_trap_system g iss ≡ panic
unfolding handle_trap_system trap_mcr_mrc find
csselr_write_panics g iss cond rt e =
    rw e (elim (Bool-cases (cond == 2 || cond == 3)) [ inl b ↦ rw b refl | inr b ↦ rw b refl ])

-- The zero register as the source of a write to ACTLR_EL1 stores the stack pointer of the guest, and
-- as the target of a read replaces it.
pub zero_register :
    (g : Guest)
    → (Option.map (λ (h : Guest). h.sysregs actlr_el1) (trap_mcr_mrc g 1 0 1 31 0 0)
        ≡ some g.vcpu.sp)
      × (Option.map (λ (h : Guest). h.vcpu.sp) (trap_mcr_mrc g 1 0 1 31 0 1)
          ≡ some (g.sysregs actlr_el1))
unfolding trap_mcr_mrc find get_reg set_reg
zero_register g = (refl, refl)

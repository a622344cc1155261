-- ===== src/Arch/Mmu/Walk.antt =====
-- The walk of the hardware through tables of three levels (Arm Architecture Reference Manual, D8.3),
-- as a specification.
use evisor.Prelude.{Option, if◌then◌else◌, none, some, suc, zero, ℕ, ◌%◌, ◌*◌, ◌+◌, ◌/◌, ◌==◌, ◌^◌}
use evisor.Arch.Mmu.{table_address}

-- Where an address lies, and what the descriptor says of the memory there: its bits 2 to 11, and those
-- from 48 on.
pub record Place : Type 0 where
  pub address : ℕ
  pub lower_attributes : ℕ
  pub upper_attributes : ℕ

-- The address bits that a descriptor translates with `n` levels below it.
abbrev pub shift_above : ℕ → ℕ
shift_above n = 12 + 9 * n

-- The place in a block or page of 2 ^ `shift` bytes.
abbrev pub place : ℕ → ℕ → ℕ → Place
place shift desc va = record {
  address = desc % 2 ^ 48 / 2 ^ shift * 2 ^ shift + va % 2 ^ shift;
  lower_attributes = desc / 2 ^ 2 % 2 ^ 10;
  upper_attributes = desc / 2 ^ 48;
}

-- The entry for an address in a table with `n` levels below it.
abbrev pub entry : ℕ → (ℕ → ℕ) → ℕ → ℕ → ℕ
entry n mem table va = mem (table + 8 * (va / 2 ^ shift_above n % 512))

-- The place that a descriptor leads to.
abbrev pub resolve : ℕ → (ℕ → ℕ) → ℕ → ℕ → Option Place
resolve zero mem desc va = if desc % 4 == 3 then some (place 12 desc va) else none
resolve (suc n) mem desc va =
    if desc % 4 == 1
    then some (place (shift_above (suc n)) desc va)
    else if desc % 4 == 3
    then resolve n mem (entry n mem (table_address desc) va) va
    else none

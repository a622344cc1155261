-- ===== src/Platforms/Board/Init.antt =====
-- src/platforms/qemu/board_qemu.cc and src/platforms/bcm2711/board_bcm2711.cc: `Init`, which enters
-- the pages of the devices into the tables of a guest. The console that it allocates is left out.
pub mod Space
pub mod Devices
mod Tests
use evisor.Prelude.{
  ==_iff, ==_ne, ==_refl, All, All-append, All-get, All-map, All-set, Bool, Bool-cases, List,
  Option, Option-cases, [], ap, append-nil, append_assoc, ap₂, arith, bit_and, bit_or, dec_le,
  dec_lt, false, fun_ext, get_elem?, get_elem?-lt, get_elem?-set_ne, get_elem?-set_self,
  get_elem?-some, if◌then◌else◌, inl, inr, leb, leb→le, length, length-append, length-map,
  length-replicate, length-set, ltb, ltb→lt, lt→ltb, map, none, not, refl, replicate, set, some,
  subst, suc, sym, take, true, u16_mod, u32_mod, u64_mod, u8_mod, update, zero, ℕ, ℕ_discrete, ◌%◌,
  ◌&&◌, ◌*◌, ◌++◌, ◌+◌, ◌-◌, ◌/◌, ◌<◌, ◌==◌, ◌^◌, ◌||◌, ◌↔◌, ◌∙◌, ◌∷◌, ◌≡◌, ◌≢◌, ◌≤◌, ◌⊎◌,
}
use evisor.Prelude.Outcome.{Outcome, ok, panic, fault, ◌>>=◌}
use evisor.Kernel.Task.{MmContext}
use evisor.Mm.PgTable.{Tables, map_new_device_page}
use evisor.Platforms.Board.{Board, qemu, bcm2711, bcm2711_nuttx}

-- A loop of `Init`: the pages from the address `first` up to `last`, and where the guest sees them.
pub record Pages : Type 0 where
  pub first : ℕ
  pub last : ℕ
  pub va : ℕ → ℕ
  pub accessable : Bool

-- The interface of the distributor, which the hypervisor emulates.
abbrev pub distributor : Board → Pages
distributor qemu = record {
  first = 0x08000000;
  last = 0x08010000;
  va = λ pa. pa;
  accessable = false;
}
distributor bcm2711 = record {
  first = 0xff841000;
  last = 0xff842000;
  va = λ pa. pa;
  accessable = false;
}
distributor bcm2711_nuttx = record {
  first = 0xff841000;
  last = 0xff842000;
  va = λ pa. bit_or 0x08000000 (pa % 2 ^ 12);
  accessable = false;
}

-- The virtual CPU interface, in the place of the CPU interface.
abbrev pub cpu_interface : Board → Pages
cpu_interface qemu = record {
  first = 0x08040000;
  last = 0x08042000;
  va = λ pa. pa - 0x30000;
  accessable = true;
}
cpu_interface bcm2711 = record {
  first = 0xff846000;
  last = 0xff848000;
  va = λ pa. pa;
  accessable = true;
}
cpu_interface bcm2711_nuttx = record {
  first = 0xff846000;
  last = 0xff848000;
  va = λ pa. bit_or 0x08010000 (pa % 2 ^ 16) - 0x6000;
  accessable = true;
}

-- The serial line.
abbrev pub uart : Board → Pages
uart qemu = record { first = 0x09000000; last = 0x09001000; va = λ pa. pa; accessable = false }
uart bcm2711 = record { first = 0xfe201000; last = 0xfe202000; va = λ pa. pa; accessable = false }
uart bcm2711_nuttx = record {
  first = 0xfe201000;
  last = 0xfe202000;
  va = λ pa. bit_or 0x09000000 (pa % 2 ^ 12);
  accessable = false;
}

-- How often the loop of a range goes round.
abbrev pub count : Pages → ℕ
count r = (r.last - r.first + 4095) / 4096

module _ (start : ℕ) where
  -- The loop, with `n` pages to go from `pa` on.
  pub map_pages : (ℕ → ℕ) → Bool → ℕ → ℕ → MmContext → Tables → Outcome (MmContext × Tables)
  map_pages va accessable zero pa mm s = ok (mm, s)
  map_pages va accessable (suc n) pa mm s =
      map_new_device_page start mm (va pa) pa accessable s >>= λ (slot, mm', s').
      map_pages va accessable n (pa + 4096) mm' s'

  abbrev pub map_range : Pages → MmContext → Tables → Outcome (MmContext × Tables)
  map_range r mm s = map_pages r.va r.accessable (count r) r.first mm s

  -- `Init`
  unfoldable pub init : Board → MmContext → Tables → Outcome (MmContext × Tables)
  init b mm s = do
    (mm1, s1) ← map_range (distributor b) mm s
    (mm2, s2) ← map_range (cpu_interface b) mm1 s1
    map_range (uart b) mm2 s2

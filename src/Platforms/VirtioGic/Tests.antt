-- ===== src/Platforms/VirtioGic/Tests.antt =====
-- The theorems about the interrupt distributor at concrete addresses.
use evisor.Prelude.{arith, if◌then◌else◌, inl, inr, ◌==◌, ◌↔◌, ◌≡◌}
use evisor.Platforms.VirtioGic.{gicd_ipriorityr, gicd_itargetsr, locate, initial, read, write}
use evisor.Platforms.VirtioGic.Layout.{Shifted, Inside, FitsIn, locate-Inside_iff, locate-FitsIn}
use evisor.Platforms.VirtioGic.Access.{write-Shifted}
use evisor.Platforms.VirtioGic.Registers.{address, read-write_register}

locate-Inside_iff_example : Inside (locate 0x104) ↔ (¬ (Shifted 0x104))
locate-Inside_iff_example = locate-Inside_iff 0x104

locate-FitsIn_run : FitsIn (locate 0xf2c)
locate-FitsIn_run = locate-FitsIn 0xf2c

-- The priorities of the interrupts 4 to 7 and the targets of 8 to 11.
read-write_register_example :
    read (write initial (address gicd_ipriorityr 1) 0xa0) (address gicd_itargetsr 2) ≡ (
      if address gicd_itargetsr 2 == address gicd_ipriorityr 1
      then 0xa0
      else read initial (address gicd_itargetsr 2))
read-write_register_example =
    read-write_register initial gicd_ipriorityr gicd_itargetsr 1 2 0xa0 tt tt (omega arith)
      (omega arith)

clear_enable-Shifted : Shifted 0x184
clear_enable-Shifted = inr (inl (omega arith, omega arith))

write-Shifted_run : read (write initial 0x184 0xff) 0x204 ≡ 0xff
write-Shifted_run = write-Shifted initial 0x184 0xff clear_enable-Shifted

-- ===== src/Platforms/VirtioGic/Access.antt =====
-- What a guest reads back from the interrupt distributor.
use evisor.Prelude.{
  ==_refl, Bool, Option, false, if◌then◌else◌, none, refl, some, ℕ, ◌+◌, ◌==◌, ◌∙◌, ◌≡◌,
}
use evisor.Platforms.VirtioGic.{
  Target, cell, nothing, locate, locate_write, read_target, write_target, read, write, offset,
}
use evisor.Platforms.VirtioGic.Layout.{Shifted, word, word-Shifted}

-- Is this the word `w`?
abbrev pub is_word : Option ℕ → ℕ → Bool
is_word none w = false
is_word (some v) w = w == v

target_read-write :
    (s t : Target) (regs : ℕ → ℕ) (a b w value : ℕ)
    → word s ≡ some w
    → read_target t (write_target s regs value) b
      ≡ (if is_word (word t) w then value else read_target t regs b)
unfolding read_target write_target
target_read-write (cell r i) (cell q j) regs a b w value e =
    let at : offset r + i ≡ w = cc in rw (← at) refl
target_read-write (cell r i) nothing regs a b w value e = refl
target_read-write nothing t regs a b w value e = cc

-- The tests of `Write` find the word that those of `Read` find.
pub locate_write_lem : (addr : ℕ) → locate_write addr ≡ locate addr
unfolding locate locate_write
locate_write_lem addr = refl

pub read-write :
    (regs : ℕ → ℕ) (a b w value : ℕ)
    → word (locate a) ≡ some w
    → read (write regs a value) b ≡ (if is_word (word (locate b)) w then value else read regs b)
unfolding read write
read-write regs a b w value e =
    rw (locate_write_lem a) (target_read-write (locate a) (locate b) regs a b w value e)

-- The clear-enable, group, clear-pending and clear-active registers are not registers of their own:
-- what is written to one of their addresses is read back 0x80 above, from the enable, pending,
-- active or priority register that lies there.
pub write-Shifted :
    (regs : ℕ → ℕ) (addr value : ℕ)
    → Shifted addr
    → read (write regs addr value) (addr + 0x80) ≡ value
write-Shifted regs addr value h =
    let (w, e, e') = word-Shifted addr h in
    read-write regs addr (addr + 0x80) w value e ∙ rw (e', ==_refl) refl

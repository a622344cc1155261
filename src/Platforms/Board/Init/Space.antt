-- ===== src/Platforms/Board/Init/Space.antt =====
-- The address space that `Init` gives a guest: the devices that the hypervisor emulates trap, and the
-- virtual CPU interface stands in the place of the CPU interface.
use evisor.Prelude.{
  ==_iff, ==_ne, Bool, ap, arith, bit_or, dec_lt, if◌then◌else◌, leb, ltb, refl, suc, sym, u64_mod,
  zero, ℕ, ℕ_discrete, ◌%◌, ◌&&◌, ◌*◌, ◌+◌, ◌-◌, ◌<◌, ◌∙◌, ◌≡◌, ◌≤◌,
}
use evisor.Prelude.Outcome.{ok}
use evisor.Kernel.Task.{MmContext}
use evisor.Mm.KernelHeap.{heap_pages, page_size}
use evisor.Mm.PgTable.{Tables}
use evisor.Mm.PgTable.Room.{free_pages}
use evisor.Mm.PgTable.Map.{page_number}
use evisor.Mm.PgTable.Space.{Shows, enter, device_flags, map_new_device_page-Shows}
use evisor.Platforms.Board.Init.{map_pages}

-- A space after the pages of a range from `pa` on were entered.
pub space_after : (ℕ → ℕ) → Bool → ℕ → ℕ → (ℕ → ℕ) → ℕ → ℕ
space_after va accessable zero pa space = space
space_after va accessable (suc n) pa space =
    space_after va accessable n (pa + 4096)
      (enter space (page_number (va pa)) (bit_or pa (device_flags accessable)))

module _ (start : ℕ) (positive : 0 < start) (fits : start + heap_pages * page_size ≤ u64_mod)
    (aligned : start % 4096 ≡ 0) where
  pub map_pages-Shows :
      (n : ℕ) (va : ℕ → ℕ) (accessable : Bool) (pa : ℕ) (level : ℕ → ℕ) (s s' : Tables)
      (space : ℕ → ℕ) (mm : MmContext)
      → Shows start level s space mm s'
      → 3 * n ≤ free_pages heap_pages s'.heap
      → (mm' : MmContext) × (s'' : Tables) × (map_pages start va accessable n pa mm s'
          ≡ ok (mm', s''))
        × Shows start level s (space_after va accessable n pa space) mm' s''
        × (free_pages heap_pages s'.heap ≤ free_pages heap_pages s''.heap + 3 * n)
  unfolding map_pages space_after
  map_pages-Shows zero va accessable pa level s s' space mm h room = (mm, s', refl, h, omega arith)
  map_pages-Shows (suc n) va accessable pa level s s' space mm h room =
      let (slot, mm1, s1, e1, h1, room1) =
        map_new_device_page-Shows start positive fits aligned level s s' space mm (va pa) pa
          accessable h (omega arith) in
      let (mm2, s2, e2, h2, room2) =
        map_pages-Shows n va accessable (pa + 4096) level s s1 _ mm1 h1 (omega (arith, room1)) in
      (mm2, s2, rw e1 e2, h2, omega (arith, room1, room2))

-- A space with `n` pages in a row entered from the page `first` on.
abbrev pub window : ℕ → ℕ → ℕ → Bool → (ℕ → ℕ) → ℕ → ℕ
window first n pa accessable space p =
    if leb first p && ltb p (first + n)
    then bit_or (pa + (p - first) * 4096) (device_flags accessable)
    else space p

window-suc :
    (n pa first : ℕ) (accessable : Bool) (space : ℕ → ℕ) (p : ℕ)
    → window
        (suc first)
        n
        (pa + 4096)
        accessable
        (enter space first (bit_or pa (device_flags accessable)))
        p
      ≡ window first (suc n) pa accessable space p
window-suc n pa first accessable space p =
    let flags = device_flags accessable in
    elim (dec_lt first p) [
      | yes lt ↦
          let later : bit_or (pa + 4096 + (p - suc first) * 4096) flags
              ≡ bit_or (pa + (p - first) * 4096) flags =
            ap (λ a. bit_or a flags) (omega arith) in
          rw (later, ==_ne p first (omega arith)) (ground arith)
      | no ge ↦ elim (ℕ_discrete p first) [
        | yes e ↦
            let here : bit_or (pa + (p - first) * 4096) flags ≡ bit_or pa flags =
              ap (λ a. bit_or a flags) (omega arith) in
            rw (here, (==_iff p first).1 e) (ground arith)
        | no ne ↦ rw (==_ne p first ne) (ground arith)
      ]
    ]

pub space_after-window :
    (n : ℕ) (va : ℕ → ℕ) (accessable : Bool) (pa first : ℕ) (space : ℕ → ℕ)
    → ((k : ℕ) → k < n → page_number (va (pa + k * 4096)) ≡ first + k)
    → (p : ℕ) → space_after va accessable n pa space p ≡ window first n pa accessable space p
unfolding space_after
space_after-window zero va accessable pa first space row p = ground arith
space_after-window (suc n) va accessable pa first space row p =
    let rest =
      space_after-window n va accessable (pa + 4096) (suc first)
        (enter space (page_number (va pa)) (bit_or pa (device_flags accessable)))
        (λ k lt. ap (λ a. page_number (va a)) (next k) ∙ (row (suc k) (omega arith) ∙ omega arith))
        p in
    let here : page_number (va pa) ≡ first =
      ap (λ a. page_number (va a)) (sym (plus_none pa)) ∙ (row 0 (omega arith) ∙ omega arith) in
    rest ∙ (rw here (window-suc n pa first accessable space p))
  where
    next : (k : ℕ) → pa + 4096 + k * 4096 ≡ pa + suc k * 4096
    next k = omega arith

    plus_none : (a : ℕ) → a + 0 * 4096 ≡ a
    plus_none a = omega arith

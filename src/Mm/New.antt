-- ===== src/Mm/New.antt =====
-- src/mm/new.cc: the operators of C++ over the heap of the hypervisor.
use evisor.Prelude.{Bool, if◌then◌else◌, ℕ, ◌==◌}
use evisor.Prelude.Outcome.{Outcome, ok, panic, ◌>>=◌}
use evisor.Mm.KernelHeap.{kmm_malloc, kmm_free}

module _ (start : ℕ) where
  -- `operator new`
  unfoldable pub operator_new : ℕ → (ℕ → Bool) → Outcome (ℕ × (ℕ → Bool))
  operator_new n map =
      kmm_malloc start n map >>= λ (p, map'). if p == 0 then panic else ok (p, map')

  -- `operator delete`, with a size or without one
  unfoldable pub operator_delete : ℕ → (ℕ → Bool) → Outcome (ℕ → Bool)
  operator_delete p map = if p == 0 then ok map else kmm_free start p map

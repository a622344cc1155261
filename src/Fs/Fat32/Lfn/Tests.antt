-- ===== src/Fs/Fat32/Lfn/Tests.antt =====
-- A name in two entries before the third of a sector.
use evisor.Prelude.{
  List, arith, get_elem?, if◌then◌else◌, length, ltb, none, refl, some, subst, suc, sym, ℕ,
  ℕ_discrete, ◌*◌, ◌+◌, ◌-◌, ◌<◌, ◌==◌, ◌≡◌, ◌≤◌,
}
use evisor.Prelude.Outcome.{ok}
use evisor.Fs.Fat32.Name.{create_lfn_sum}
use evisor.Fs.Fat32.Lfn.{name_at, lfn_chars, get_lfn}
use evisor.Fs.Fat32.Lfn.Collect.{IsStored, get_lfn-IsStored}

abbrev sum : ℕ
sum = create_lfn_sum (name_at (λ _. 65) 64)

abbrev sector : ℕ → ℕ
sector i =
    if i == 0
    then 66
    else if i == 32
    then 1
    else if i == 11
    then 15
    else if i == 43
    then 15
    else if i == 13
    then sum
    else if i == 45
    then sum
    else if ltb i 64
    then i
    else 65

-- What holds of both entries.
both : (P : ℕ → Type 0) → P 1 → P 2 → (k : ℕ) → 1 ≤ k → k ≤ 2 → P k
both P one two k above below = elim (ℕ_discrete k 1) [
  | yes e ↦ subst P (sym e) one
  | no ne ↦ let e : 2 ≡ k = omega arith in subst P e two
]

sector-IsStored : IsStored sector 64 2
sector-IsStored = record {
  some_entries = omega arith;
  short = omega arith;
  inside = omega arith;
  sector = omega arith;
  ord = both (λ k. sector (64 - 32 * k) ≡ (if k == 2 then k + 64 else k)) refl refl;
  attr = both (λ k. sector (64 - 32 * k + 11) ≡ 0xf) refl refl;
  chksum = both (λ k. sector (64 - 32 * k + 13) ≡ sum) refl refl;
}

get_lfn-IsStored_example :
    (name : List ℕ) × (get_lfn sector 64 none ≡ ok (some name))
    × (length name ≡ 26)
    × ((k j : ℕ)
        → k < 2
        → j < 13
        → get_elem? name (13 * k + j) ≡ get_elem? (lfn_chars sector (64 - 32 * suc k)) j)
get_lfn-IsStored_example = get_lfn-IsStored sector 64 2 none sector-IsStored

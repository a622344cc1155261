-- ===== src/Fs/Fat32/Open/Entries.antt =====
-- The entries that Open can find.
use evisor.Prelude.{
  ==_iff, ==_ne, Bool-cases, Option, ap, arith, bit_and, false, inl, inr, none, not, some, suc, sym,
  zero, ℕ, ℕ_discrete, ◌*◌, ◌+◌, ◌<◌, ◌==◌, ◌∙◌, ◌≡◌, ◌≢◌,
}
use evisor.Prelude.Outcome.{Outcome, ok, bind_inv}
use evisor.Fs.Fat32.{Volume}
use evisor.Fs.Fat32.Lfn.{get_lfn}
use evisor.Fs.Fat32.Read.{File}
use evisor.Fs.Fat32.Open.{entry_file, is_masked, same_name, name_of, sfn_after, scan_entries}

-- An entry of a sector that is in use, and none of whose attributes read-only, hidden, system and volume label is set.
pub record IsEntry (fat : Volume) (buf : ℕ → ℕ) (n i : ℕ) (f : File) : Type 0 where
  pub slot : ℕ
  pub below : slot < n
  pub used : buf (i + 32 * slot) ≢ 0
  pub kept : buf (i + 32 * slot) ≢ 0xe5
  pub plain : bit_and (buf (i + 32 * slot + 11)) 0xf ≡ 0
  pub file : f ≡ entry_file fat buf (i + 32 * slot)

later-IsEntry :
    (fat : Volume) (buf : ℕ → ℕ) (n i : ℕ) (f : File)
    → IsEntry fat buf n (i + 32) f
    → IsEntry fat buf (suc n) i f
later-IsEntry fat buf n i f e =
    let place : i + 32 + 32 * e.slot ≡ i + 32 * suc e.slot = omega arith in
    record {
      slot = suc e.slot;
      below = omega (arith, e);
      used = rw place at e.used;
      kept = rw place at e.kept;
      plain = rw place at e.plain;
      file = rw place at e.file;
    }

first-IsEntry :
    (fat : Volume) (buf : ℕ → ℕ) (n i : ℕ) (f : File)
    → buf i ≢ 0
    → buf i ≢ 0xe5
    → is_masked buf i ≡ false
    → f ≡ entry_file fat buf i
    → IsEntry fat buf (suc n) i f
first-IsEntry fat buf n i f nz kept plain e =
    let place : i ≡ i + 32 * 0 = omega arith in
    let zero_bits : bit_and (buf (i + 11)) 0xf ≡ 0 = none_set (bit_and (buf (i + 11)) 0xf) plain in
    record {
      slot = 0;
      below = omega arith;
      used = λ z. nz (ap buf place ∙ z);
      kept = λ z. kept (ap buf place ∙ z);
      plain = ap (λ a. bit_and (buf (a + 11)) 0xf) (sym place) ∙ zero_bits;
      file = e ∙ ap (entry_file fat buf) place;
    }
  where
    none_set : (x : ℕ) → not (x == 0) ≡ false → x ≡ 0
    none_set x h = ground (arith, h)

abbrev missing : (ℕ → ℕ) → Outcome (Option File × (ℕ → ℕ))
missing sfn = ok (none, sfn)

missing_none : (sfn sfn' : ℕ → ℕ) (f : File) → missing sfn ≡ ok (some f, sfn') → ⊥
missing_none sfn sfn' f e = cc

abbrev present : File → (ℕ → ℕ) → Outcome (Option File × (ℕ → ℕ))
present g sfn = ok (some g, sfn)

found_file : (sfn sfn' : ℕ → ℕ) (f g : File) → present g sfn ≡ ok (some f, sfn') → f ≡ g
found_file sfn sfn' f g e = cc

-- A file that the loop over a sector finds is that of an entry in use without those attributes: a file that is read-only,
-- hidden or a system file is never found.
pub scan_entries-IsEntry :
    (filename : ℕ → ℕ) (fat : Volume) (buf : ℕ → ℕ) (prev : Option (ℕ → ℕ)) (n i : ℕ)
    (sfn sfn' : ℕ → ℕ) (f : File)
    → scan_entries filename fat buf prev n i sfn ≡ ok (some f, sfn')
    → IsEntry fat buf n i f
unfolding scan_entries
scan_entries-IsEntry filename fat buf prev zero i sfn sfn' f e = absurd (missing_none sfn sfn' f e)
scan_entries-IsEntry filename fat buf prev (suc n) i sfn sfn' f e =
    let skip : scan_entries filename fat buf prev n (i + 32) sfn ≡ ok (some f, sfn')
        → IsEntry fat buf (suc n) i f =
      λ e.
        later-IsEntry fat buf n i f
          (scan_entries-IsEntry filename fat buf prev n (i + 32) sfn sfn' f e) in
    elim (ℕ_discrete (buf i) 0) [
      | yes z ↦ absurd (missing_none sfn sfn' f (rw ((==_iff (buf i) 0).1 z) at e))
      | no nz ↦ elim (ℕ_discrete (buf i) 0xe5) [
        | yes z ↦ skip (rw (==_ne (buf i) 0 nz, (==_iff (buf i) 0xe5).1 z) at e)
        | no kept ↦ elim (Bool-cases (is_masked buf i)) [
          | inl masked ↦ skip (rw (==_ne (buf i) 0 nz, ==_ne (buf i) 0xe5 kept, masked) at e)
          | inr plain ↦
              let (lfn, e', _) =
                bind_inv _ (get_lfn buf i prev)
                  (rw (==_ne (buf i) 0 nz, ==_ne (buf i) 0xe5 kept, plain) at e) in
              let after = sfn_after lfn sfn buf i in
              elim (Bool-cases (same_name filename (name_of lfn after))) [
                | inl same ↦
                    first-IsEntry fat buf n i f nz kept plain
                      (found_file after sfn' f (entry_file fat buf i) (rw same at e'))
                | inr other ↦ later-IsEntry fat buf n i f (
                    scan_entries-IsEntry filename fat buf prev n (i + 32) after sfn' f
                      (rw other at e'))
              ]
        ]
      ]
    ]

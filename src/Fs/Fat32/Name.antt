-- ===== src/Fs/Fat32/Name.antt =====
-- src/fs/fat/fat32.cc: CreateLfnSum and GetSfn. The static buffer of `GetSfn` is an argument and the
-- result; characters are unsigned, as on ARM.
use evisor.Prelude.{
  ==_ne, ==_refl, Bool-cases, List, [], arith, false, if◌then◌else◌, inl, inr, not, refl, suc, sym,
  true, u8_mod, update, zero, ℕ, ℕ_discrete, ◌%◌, ◌*◌, ◌+◌, ◌/◌, ◌<◌, ◌==◌, ◌^◌, ◌∙◌, ◌∷◌, ◌≡◌, ◌≢◌,
  ◌≤◌,
}

-- One turn of the loop of `CreateLfnSum`, on a `uint8_t`.
abbrev pub lfn_step : ℕ → ℕ → ℕ
lfn_step sum c = (sum / 2 + sum * 2 ^ 7 + c) % u8_mod

unfoldable pub lfn_sum : ℕ → List ℕ → ℕ
lfn_sum sum [] = sum
lfn_sum sum (c ∷ cs) = lfn_sum (lfn_step sum c) cs

-- `CreateLfnSum` of the 11 characters of a name.
unfoldable pub create_lfn_sum : List ℕ → ℕ
create_lfn_sum name = lfn_sum 0 name

-- `kDirNameKanjiEntry` stands for 0xe5.
abbrev pub kanji : ℕ → ℕ
kanji c = if c == 5 then 0xe5 else c

-- The loops of `GetSfn`: `n` characters from position `i`, up to the first space, which is copied.
unfoldable pub copy : (ℕ → ℕ) → ℕ → ℕ → ℕ → (ℕ → ℕ) → ℕ → ℕ
copy name zero i shift buf = buf
copy name (suc n) i shift buf =
    let here = update buf (i + shift) (kanji (name i)) in
    let rest = copy name n (i + 1) shift here in if name i == b' ' then here else rest

-- `GetSfn`
unfoldable pub get_sfn : (ℕ → ℕ) → (ℕ → ℕ) → ℕ → ℕ
get_sfn buf name =
    let base = copy name 8 0 0 buf in
    let extended = copy name 3 8 1 (update base 8 b'.') in
    update (if not (name 8 == b' ') then extended else base) 12 0

-- One byte rotated to the right by a bit, in which the checksum is specified.
abbrev pub rotate : ℕ → ℕ
rotate x = x / 2 + x % 2 * 2 ^ 7

abbrev pub checksum : ℕ → List ℕ → ℕ
checksum sum [] = sum
checksum sum (c ∷ cs) = checksum ((rotate sum + c) % u8_mod) cs

-- The checksum of a name is that of the specification, which rotates before it adds.
pub create_lfn_sum-checksum : (name : List ℕ) → create_lfn_sum name ≡ checksum 0 name
unfolding create_lfn_sum lfn_sum
create_lfn_sum-checksum name = go 0 name
  where
    step : (sum c : ℕ) → lfn_step sum c ≡ (rotate sum + c) % u8_mod
    step sum c = omega arith

    go : (sum : ℕ) (cs : List ℕ) → lfn_sum sum cs ≡ checksum sum cs
    go sum [] = refl
    go sum (c ∷ cs) = rw (step sum c) (go ((rotate sum + c) % u8_mod) cs)

-- A loop changes nothing before its first position and nothing after its first space.
copy-before :
    (name : ℕ → ℕ) (n i shift : ℕ) (buf : ℕ → ℕ) (p : ℕ)
    → p < i + shift
    → copy name n i shift buf p ≡ buf p
unfolding copy
copy-before name zero i shift buf p h = refl
copy-before name (suc n) i shift buf p h =
    let other : (i + shift == p) ≡ false = ==_ne (i + shift) p (omega arith) in
    let later =
      copy-before name n (i + 1) shift (update buf (i + shift) (kanji (name i))) p (omega arith) in
    elim (Bool-cases (name i == b' ')) [
      | inl space ↦ rw (space, other) refl
      | inr more ↦ rw more (later ∙ rw other refl)
    ]

copy-after :
    (name : ℕ → ℕ) (n i shift : ℕ) (buf : ℕ → ℕ) (j p : ℕ)
    → i ≤ j
    → j < i + n
    → name j ≡ b' '
    → j + shift < p
    → copy name n i shift buf p ≡ buf p
unfolding copy
copy-after name zero i shift buf j p low high s h = absurd (omega arith)
copy-after name (suc n) i shift buf j p low high s h =
    let other : (i + shift == p) ≡ false = ==_ne (i + shift) p (omega arith) in
    let here = update buf (i + shift) (kanji (name i)) in
    elim (Bool-cases (name i == b' ')) [
      | inl space ↦ rw (space, other) refl
      | inr more ↦
          let apart : i ≢ j = λ e. absurd (clash (sym more ∙ rw e (rw s refl))) in
          rw more (
            copy-after name n (i + 1) shift here j p (omega arith) (omega arith) s h
            ∙ rw other refl)
    ]
  where
    clash : false ≡ true → ⊥
    clash q = cc

copy-first :
    (name : ℕ → ℕ) (n i shift : ℕ) (buf : ℕ → ℕ)
    → copy name (suc n) i shift buf (i + shift) ≡ kanji (name i)
unfolding copy
copy-first name n i shift buf =
    let here = update buf (i + shift) (kanji (name i)) in
    let same : (i + shift == i + shift) ≡ true = ==_refl (i + shift) in
    let kept = copy-before name n (i + 1) shift here (i + shift) (omega arith) in
    elim (Bool-cases (name i == b' ')) [
      | inl space ↦ rw (space, same) refl
      | inr more ↦ rw more (kept ∙ rw same refl)
    ]

-- Up to its first space a loop copies.
copy-at :
    (name : ℕ → ℕ) (n i shift : ℕ) (buf : ℕ → ℕ) (k : ℕ)
    → i ≤ k
    → k < i + n
    → ((j : ℕ) → i ≤ j → j < k → (name j == b' ') ≡ false)
    → copy name n i shift buf (k + shift) ≡ kanji (name k)
unfolding copy
copy-at name zero i shift buf k low high h = absurd (omega arith)
copy-at name (suc n) i shift buf k low high h =
    let here = update buf (i + shift) (kanji (name i)) in
    elim (ℕ_discrete i k) [
      | yes e ↦ rw (sym e) (copy-first name n i shift buf)
      | no ne ↦ rw (h i (omega arith) (omega arith)) (
          copy-at name n (i + 1) shift here k (omega arith) (omega arith)
            (λ j a b. h j (omega arith) b))
    ]

-- What the extension and the terminator write lies beyond the first eight characters.
get_sfn-copy : (buf name : ℕ → ℕ) (p : ℕ) → p < 8 → get_sfn buf name p ≡ copy name 8 0 0 buf p
unfolding get_sfn
get_sfn-copy buf name p h =
    let base = copy name 8 0 0 buf in
    let end : (12 == p) ≡ false = ==_ne 12 p (omega arith) in
    let dot : (8 == p) ≡ false = ==_ne 8 p (omega arith) in
    let kept = copy-before name 3 8 1 (update base 8 b'.') p (omega arith) in
    elim (Bool-cases (not (name 8 == b' '))) [
      | inl extended ↦ rw (end, extended) (kept ∙ rw dot refl)
      | inr plain ↦ rw (end, plain) refl
    ]

-- Each of the first eight characters up to the first space, itself included, is that of the entry,
-- with 0xe5 for its stand-in.
pub get_sfn_char :
    (buf name : ℕ → ℕ) (k : ℕ)
    → k < 8
    → ((j : ℕ) → j < k → (name j == b' ') ≡ false)
    → get_sfn buf name k ≡ kanji (name k)
get_sfn_char buf name k h early =
    let found : copy name 8 0 0 buf (k + 0) ≡ kanji (name k) =
      copy-at name 8 0 0 buf k (omega arith) (omega arith) (λ j _ b. early j b) in
    let zero_right : k + 0 ≡ k = omega arith in get_sfn-copy buf name k h ∙ rw zero_right at found

-- A name whose base has a space at position `j` keeps, between it and the dot, the characters of the
-- name that the buffer held before.
pub get_sfn_stale :
    (buf name : ℕ → ℕ) (j p : ℕ) → name j ≡ b' ' → j < p → p < 8 → get_sfn buf name p ≡ buf p
get_sfn_stale buf name j p space low high =
    get_sfn-copy buf name p high
    ∙ copy-after name 8 0 0 buf j p (omega arith) (omega arith) space (omega arith)

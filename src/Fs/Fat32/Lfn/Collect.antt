-- ===== src/Fs/Fat32/Lfn/Collect.antt =====
-- GetLfn reads back a long name that was stored as the format says.
use evisor.Prelude.{
  ==_iff, ==_ne, Bool-cases, List, Option, [], ap, append-nil, append_assoc, arith, bit_and, false,
  get_elem?, if◌then◌else◌, inl, inr, length, length-append, ltb, not, refl, some, suc, sym, true,
  zero, ℕ, ◌%◌, ◌&&◌, ◌*◌, ◌++◌, ◌+◌, ◌-◌, ◌<◌, ◌==◌, ◌∙◌, ◌∷◌, ◌≡◌, ◌≤◌,
}
use evisor.Prelude.Bits.{all_below, all_below_sound, and_left, and_right}
use evisor.Prelude.Outcome.{ok}
use evisor.Fs.Fat32.{block_size}
use evisor.Fs.Fat32.Name.{create_lfn_sum}
use evisor.Fs.Fat32.Lfn.{
  Place, name_at, lfn_chars, entry_before, is_part, is_last, lfn_loop, get_lfn,
}

-- The order of the `k`th of `n` entries on the disk: the last has bit 6.
abbrev pub order : ℕ → ℕ → ℕ
order n k = if k == n then k + 64 else k

order_table : all_below 32 (λ k. (bit_and k 0x1f == k) && (bit_and (k + 64) 0x1f == k)) ≡ true
unfolding all_below
order_table = refl

last_table : all_below 32 (λ k. (bit_and k 0x40 == 0) && not (bit_and (k + 64) 0x40 == 0)) ≡ true
unfolding all_below
last_table = refl

order-sequence : (n k : ℕ) → k < 32 → (bit_and (order n k) 0x1f == k) ≡ true
order-sequence n k lt =
    let h =
      all_below_sound 32 (λ k. (bit_and k 0x1f == k) && (bit_and (k + 64) 0x1f == k)) order_table k
        lt in
    elim (Bool-cases (k == n)) [
      | inl same ↦ rw same (and_right (bit_and k 0x1f == k) (bit_and (k + 64) 0x1f == k) h)
      | inr other ↦ rw other (and_left (bit_and k 0x1f == k) (bit_and (k + 64) 0x1f == k) h)
    ]

order-last : (n k : ℕ) → k < 32 → not (bit_and (order n k) 0x40 == 0) ≡ (k == n)
order-last n k lt =
    let h =
      all_below_sound 32 (λ k. (bit_and k 0x40 == 0) && not (bit_and (k + 64) 0x40 == 0)) last_table
        k lt in
    elim (Bool-cases (k == n)) [
      | inl same ↦ rw same (and_right (bit_and k 0x40 == 0) (not (bit_and (k + 64) 0x40 == 0)) h)
      | inr other ↦
          rw (other, and_left (bit_and k 0x40 == 0) (not (bit_and (k + 64) 0x40 == 0)) h) refl
    ]

-- A name in `n` entries before the one at `p`, all in one sector.
pub record IsStored (buf : ℕ → ℕ) (p n : ℕ) : Type 0 where
  pub some_entries : 1 ≤ n
  pub short : n < 20
  pub inside : 32 * n ≤ p
  pub sector : p < block_size
  pub ord : (k : ℕ) → 1 ≤ k → k ≤ n → buf (p - 32 * k) ≡ order n k
  pub attr : (k : ℕ) → 1 ≤ k → k ≤ n → buf (p - 32 * k + 11) ≡ 0xf
  pub chksum : (k : ℕ) → 1 ≤ k → k ≤ n → buf (p - 32 * k + 13) ≡ create_lfn_sum (name_at buf p)

-- The characters of `m` entries, downwards from a position.
chars_below : (ℕ → ℕ) → ℕ → ℕ → List ℕ
chars_below buf q zero = []
chars_below buf q (suc m) = lfn_chars buf (q - 32) ++ chars_below buf (q - 32) m

part_lem :
    (buf : ℕ → ℕ) (p n k : ℕ)
    → IsStored buf p n
    → 1 ≤ k
    → k ≤ n
    → (is_part
          (record { buf = buf; position = p - 32 * k; is_prev_sector = false })
          (create_lfn_sum (name_at buf p))
          k
        ≡ true)
      × (is_last (record { buf = buf; position = p - 32 * k; is_prev_sector = false }) ≡ (k == n))
unfolding is_part is_last
part_lem buf p n k s one le =
    let sum : (buf (p - 32 * k + 13) == create_lfn_sum (name_at buf p)) ≡ true =
      (==_iff (buf (p - 32 * k + 13)) (create_lfn_sum (name_at buf p))).1 (s.chksum k one le) in
    (
      rw (sum, s.attr k one le, s.ord k one le) (order-sequence n k (omega (arith, s))),
      rw (s.ord k one le) (order-last n k (omega (arith, s))),
    )

step_back :
    (prev : Option (ℕ → ℕ)) (buf : ℕ → ℕ) (q : ℕ)
    → 32 ≤ q
    → q < block_size
    → entry_before prev (record { buf = buf; position = q; is_prev_sector = false })
      ≡ ok (some (record { buf = buf; position = q - 32; is_prev_sector = false }))
unfolding entry_before
step_back prev buf q room small =
    let inner : (q % block_size == 0) ≡ false = ==_ne (q % block_size) 0 (omega arith) in
    let enough : ltb q 32 ≡ false = ground arith in rw (inner, enough) refl

abbrev at : (ℕ → ℕ) → ℕ → Place
at buf q = record { buf = buf; position = q; is_prev_sector = false }

-- One turn of the loop, at the entry after `k` that were read.
turn_lem :
    (buf : ℕ → ℕ) (p n k fuel : ℕ) (prev : Option (ℕ → ℕ)) (name : List ℕ)
    → IsStored buf p n
    → k < n
    → length name ≡ 13 * k
    → let sum = create_lfn_sum (name_at buf p) in
      let q = p - 32 * suc k in
      lfn_loop (suc fuel) prev sum (suc k) name (at buf (p - 32 * k)) ≡ (
        if suc k == n
        then ok (some (name ++ lfn_chars buf q))
        else lfn_loop fuel prev sum (suc (suc k)) (name ++ lfn_chars buf q) (at buf q))
unfolding lfn_loop
turn_lem buf p n k fuel prev name s lt long =
    let q = p - 32 * suc k in
    let next : p - 32 * k - 32 ≡ q = omega arith in
    let back : entry_before prev (at buf (p - 32 * k)) ≡ ok (some (at buf q)) =
      step_back prev buf (p - 32 * k) (omega (arith, s)) (omega (arith, s))
      ∙ ap (λ r. ok (some (at buf r))) next in
    let (part, last) = part_lem buf p n (suc k) s (omega arith) (omega arith) in
    let all : length (name ++ lfn_chars buf q) ≡ 13 * k + 13 =
      length-append name (lfn_chars buf q) ∙ omega (arith, long) in
    let room : ltb 255 (length (name ++ lfn_chars buf q)) ≡ false =
      rw all (small k (omega (arith, s))) in
    rw (back, part, room, last) refl
  where
    small : (k : ℕ) → k < 19 → ltb 255 (13 * k + 13) ≡ false
    small k lt = ground arith

loop_lem :
    (m k : ℕ) (buf : ℕ → ℕ) (p n fuel : ℕ) (prev : Option (ℕ → ℕ)) (name : List ℕ)
    → IsStored buf p n
    → k + suc m ≡ n
    → suc m ≤ fuel
    → length name ≡ 13 * k
    → lfn_loop fuel prev (create_lfn_sum (name_at buf p)) (suc k) name (at buf (p - 32 * k))
      ≡ ok (some (name ++ chars_below buf (p - 32 * k) (suc m)))
unfolding chars_below
loop_lem m k buf p n zero prev name s e enough long = absurd (omega arith)
loop_lem zero k buf p n (suc fuel) prev name s e enough long =
    let last : (suc k == n) ≡ true = (==_iff (suc k) n).1 (omega arith) in
    let next : p - 32 * k - 32 ≡ p - 32 * suc k = omega arith in
    turn_lem buf p n k fuel prev name s (omega arith) long
    ∙ rw (last, next) (ap (λ r. ok (some (name ++ r))) (sym (append-nil _)))
loop_lem (suc m) k buf p n (suc fuel) prev name s e enough long =
    let more : (suc k == n) ≡ false = ==_ne (suc k) n (omega arith) in
    let next : p - 32 * k - 32 ≡ p - 32 * suc k = omega arith in
    let chars = lfn_chars buf (p - 32 * suc k) in
    turn_lem buf p n k fuel prev name s (omega arith) long
    ∙ rw (more, next)
        (loop_lem m (suc k) buf p n fuel prev (name ++ chars) s (omega arith) (omega arith)
            (length-append name chars ∙ omega (arith, long))
          ∙ ap (λ r. ok (some r)) (append_assoc name chars _))

get_elem?-append_lt {ℓ} :
    {A : Type ℓ} (xs ys : List A) (i : ℕ) → i < length xs → get_elem? (xs ++ ys) i ≡ get_elem? xs i
get_elem?-append_lt [] ys i lt = absurd (omega arith)
get_elem?-append_lt (x ∷ xs) ys zero lt = refl
get_elem?-append_lt (x ∷ xs) ys (suc i) lt = get_elem?-append_lt xs ys i (omega arith)

get_elem?-append_ge {ℓ} :
    {A : Type ℓ} (xs ys : List A) (i : ℕ) → get_elem? (xs ++ ys) (length xs + i) ≡ get_elem? ys i
get_elem?-append_ge [] ys i = let e : 0 + i ≡ i = omega arith in rw e refl
get_elem?-append_ge (x ∷ xs) ys i =
    let e : length (x ∷ xs) + i ≡ suc (length xs + i) = omega arith in
    rw e (get_elem?-append_ge xs ys i)

chars_below-get :
    (buf : ℕ → ℕ) (m q k j : ℕ)
    → k < m
    → j < 13
    → get_elem? (chars_below buf q m) (13 * k + j) ≡ get_elem? (lfn_chars buf (q - 32 * suc k)) j
unfolding chars_below
chars_below-get buf zero q k j lt small = absurd (omega arith)
chars_below-get buf (suc m) q zero j lt small =
    let e : 13 * 0 + j ≡ j = omega arith in
    rw e (get_elem?-append_lt (lfn_chars buf (q - 32)) (chars_below buf (q - 32) m) j (omega arith))
chars_below-get buf (suc m) q (suc k) j lt small =
    let e : 13 * suc k + j ≡ 13 + (13 * k + j) = omega arith in
    let next : q - 32 - 32 * suc k ≡ q - 32 * suc (suc k) = omega arith in
    rw e (
      get_elem?-append_ge (lfn_chars buf (q - 32)) (chars_below buf (q - 32) m) (13 * k + j)
      ∙ (chars_below-get buf m (q - 32) k j (omega arith) small
          ∙ ap (λ r. get_elem? (lfn_chars buf r) j) next))

chars_below-length : (buf : ℕ → ℕ) (m q : ℕ) → length (chars_below buf q m) ≡ 13 * m
unfolding chars_below
chars_below-length buf zero q = refl
chars_below-length buf (suc m) q =
    length-append (lfn_chars buf (q - 32)) (chars_below buf (q - 32) m)
    ∙ omega (arith, chars_below-length buf m (q - 32))

-- A name stored in up to 19 entries of the same sector is read back: `GetLfn` returns 13 characters for each entry, in
-- the order of their numbers, whatever the sector before holds.
pub get_lfn-IsStored :
    (buf : ℕ → ℕ) (p n : ℕ) (prev : Option (ℕ → ℕ))
    → IsStored buf p n
    → (name : List ℕ) × (get_lfn buf p prev ≡ ok (some name))
      × (length name ≡ 13 * n)
      × ((k j : ℕ)
          → k < n
          → j < 13
          → get_elem? name (13 * k + j) ≡ get_elem? (lfn_chars buf (p - 32 * suc k)) j)
unfolding get_lfn
get_lfn-IsStored buf p zero prev s = absurd (omega (arith, s))
get_lfn-IsStored buf p (suc m) prev s =
    let start : p - 32 * 0 ≡ p = omega arith in
    let run : lfn_loop 32 prev (create_lfn_sum (name_at buf p)) 1 [] (at buf p)
        ≡ ok (some (chars_below buf p (suc m))) =
      rw start at (loop_lem m 0 buf p (suc m) 32 prev [] s (omega arith) (omega (arith, s)) refl) in
    (
      chars_below buf p (suc m),
      run,
      chars_below-length buf (suc m) p,
      λ k j lt small. chars_below-get buf (suc m) p k j lt small,
    )

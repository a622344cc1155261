-- ===== src/Common/Cstring/Blocks.antt =====
-- What memcpy and memset leave in memory.
use evisor.Prelude.{
  ==_ne, ==_refl, arith, false, inl, inr, refl, suc, sym, u8_mod, update, zero, ℕ, ℕ_discrete, ◌%◌,
  ◌+◌, ◌<◌, ◌==◌, ◌∙◌, ◌≡◌, ◌≤◌, ◌⊎◌,
}
use evisor.Common.Cstring.{copy_from, memcpy, memset}

copy_from-outside :
    (dest src i n : ℕ) (mem : ℕ → ℕ) (a : ℕ)
    → (a < dest + i) ⊎ (dest + i + n ≤ a)
    → copy_from dest src i n mem a ≡ mem a
unfolding copy_from
copy_from-outside dest src i zero mem a out = refl
copy_from-outside dest src i (suc n) mem a out =
    let other : (dest + i == a) ≡ false = ==_ne (dest + i) a (omega (arith, out)) in
    copy_from-outside dest src (suc i) n (update mem (dest + i) (mem (src + i))) a
      (elim out [ inl low ↦ inl (omega arith) | inr high ↦ inr (omega arith) ])
    ∙ rw other refl

copy_from-inside :
    (dest src i n : ℕ) (mem : ℕ → ℕ) (k : ℕ)
    → (dest ≤ src) ⊎ (src + i + n ≤ dest)
    → i ≤ k
    → k < i + n
    → copy_from dest src i n mem (dest + k) ≡ mem (src + k)
unfolding copy_from
copy_from-inside dest src i zero mem k apart low high = absurd (omega arith)
copy_from-inside dest src i (suc n) mem k apart low high =
    let next = update mem (dest + i) (mem (src + i)) in
    elim (ℕ_discrete i k) [
      | yes e ↦ rw (sym e) (
          copy_from-outside dest src (suc i) n next (dest + i) (inl (omega arith))
          ∙ rw (==_refl (dest + i)) refl)
      | no ne ↦
          let other : (dest + i == src + k) ≡ false =
            ==_ne (dest + i) (src + k) (omega (arith, apart)) in
          copy_from-inside dest src (suc i) n next k
            (elim apart [ inl le ↦ inl le | inr far ↦ inr (omega arith) ]) (omega arith)
            (omega arith)
          ∙ rw other refl
    ]

-- Where the blocks do not overlap, or the destination starts no later than the source, `memcpy` leaves the bytes of
-- the source in the destination, and all other bytes as they were.
pub memcpy_lem :
    (dest src n : ℕ) (mem : ℕ → ℕ)
    → (dest ≤ src) ⊎ (src + n ≤ dest)
    → ((k : ℕ) → k < n → memcpy dest src n mem (dest + k) ≡ mem (src + k))
      × ((a : ℕ) → (a < dest) ⊎ (dest + n ≤ a) → memcpy dest src n mem a ≡ mem a)
memcpy_lem dest src n mem apart = (
  λ k lt.
      copy_from-inside dest src 0 n mem k
        (elim apart [ inl le ↦ inl le | inr far ↦ inr (omega arith) ]) (omega arith) (omega arith),
  λ a out.
      copy_from-outside dest src 0 n mem a
        (elim out [ inl low ↦ inl (omega arith) | inr high ↦ inr (omega arith) ]),
)

memset-outside :
    (buf ch n : ℕ) (mem : ℕ → ℕ) (a : ℕ)
    → (a < buf) ⊎ (buf + n ≤ a)
    → (memset buf ch n mem).1 a ≡ mem a
unfolding memset
memset-outside buf ch zero mem a out = refl
memset-outside buf ch (suc n) mem a out =
    let other : (buf == a) ≡ false = ==_ne buf a (omega (arith, out)) in
    memset-outside (suc buf) ch n (update mem buf (ch % u8_mod)) a
      (elim out [ inl low ↦ inl (omega arith) | inr high ↦ inr (omega arith) ])
    ∙ rw other refl

memset-inside :
    (buf ch n : ℕ) (mem : ℕ → ℕ) (a : ℕ)
    → buf ≤ a
    → a < buf + n
    → (memset buf ch n mem).1 a ≡ ch % u8_mod
unfolding memset
memset-inside buf ch zero mem a low high = absurd (omega arith)
memset-inside buf ch (suc n) mem a low high =
    let next = update mem buf (ch % u8_mod) in
    elim (ℕ_discrete buf a) [
      | yes e ↦
          rw (sym e)
            (memset-outside (suc buf) ch n next buf (inl (omega arith)) ∙ rw (==_refl buf) refl)
      | no ne ↦ memset-inside (suc buf) ch n next a (omega arith) (omega arith)
    ]

memset-end : (buf ch n : ℕ) (mem : ℕ → ℕ) → (memset buf ch n mem).0 ≡ buf + n
unfolding memset
memset-end buf ch zero mem = omega arith
memset-end buf ch (suc n) mem =
    memset-end (suc buf) ch n (update mem buf (ch % u8_mod)) ∙ omega arith

-- `memset` fills its block with the lowest byte of `ch`, leaves all other bytes, and returns the address behind the
-- block, not that of the block.
pub memset_lem :
    (buf ch n : ℕ) (mem : ℕ → ℕ)
    → ((memset buf ch n mem).0 ≡ buf + n)
      × ((a : ℕ) → buf ≤ a → a < buf + n → (memset buf ch n mem).1 a ≡ ch % u8_mod)
      × ((a : ℕ) → (a < buf) ⊎ (buf + n ≤ a) → (memset buf ch n mem).1 a ≡ mem a)
memset_lem buf ch n mem =
    (memset-end buf ch n mem, memset-inside buf ch n mem, memset-outside buf ch n mem)

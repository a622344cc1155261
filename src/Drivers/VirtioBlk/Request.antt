-- ===== src/Drivers/VirtioBlk/Request.antt =====
-- src/drivers/virtio/virtio-blk.cc: the request that ReadWriteDisk makes available, as the device reads it.
use evisor.Prelude.{
  ==_ne, ==_refl, Bool, ap, arith, false, if◌then◌else◌, inl, inr, refl, true, u16_mod, u32_mod, ℕ,
  ◌%◌, ◌+◌, ◌-◌, ◌<◌, ◌∙◌, ◌≡◌, ◌≤◌, ◌⊎◌, bit_or,
}
use evisor.Prelude.Digits.{bit}
use evisor.Prelude.Words.{load, load_agree, load-store, store, store-outside}
use evisor.Common.Cstring.Blocks.{memcpy_lem}
use evisor.Drivers.VirtioBlk.{
  Shared, VirtqDesc, disk_sector_size, format_request, offset_of_data, offset_of_sector,
  offset_of_status, publish, virt_queue_size, with_header,
}
use evisor.Drivers.VirtioBlk.Device.{IsChain, body, head, last, request_sector, request_type}

-- The buffer of the caller and the request do not overlap.
abbrev pub IsApart : ℕ → ℕ → Type 0
IsApart buf req = (buf + disk_sector_size ≤ req) ⊎ (req + 529 ≤ buf)

-- The type, as the driver writes it.
abbrev pub type_of : Bool → ℕ
type_of is_write = if is_write then 1 else 0

module _ (req buf sector : ℕ) (is_write : Bool) (mem : ℕ → ℕ) where
  -- The three numbers of the header.
  abbrev header : ℕ → ℕ
  header =
      store 8 (store 4 (store 4 mem req (type_of is_write)) (req + 4) 0) (req + offset_of_sector)
        sector

  header-outside : (a : ℕ) → (a < req) ⊎ (req + 16 ≤ a) → header a ≡ mem a
  header-outside a out =
      store-outside 8 _ (req + 8) sector a
        (elim out [ inl low ↦ inl (omega arith) | inr high ↦ inr (omega arith) ])
      ∙ store-outside 4 _ (req + 4) 0 a
          (elim out [ inl low ↦ inl (omega arith) | inr high ↦ inr (omega arith) ])
      ∙ store-outside 4 mem req (type_of is_write) a
          (elim out [ inl low ↦ inl (omega arith) | inr high ↦ inr (omega arith) ])

  header_type : load 4 header req ≡ type_of is_write
  header_type =
      load_agree 4 header (store 4 mem req (type_of is_write)) req (λ b low high.
        store-outside 8 _ (req + 8) sector b (inl (omega arith))
        ∙ store-outside 4 _ (req + 4) 0 b (inl (omega arith)))
      ∙ load-store 4 mem req (type_of is_write) (small is_write)
    where
      small : (w : Bool) → type_of w < 4294967296
      small true = omega arith
      small false = omega arith

  header_sector : sector < u32_mod → load 8 header (req + offset_of_sector) ≡ sector
  header_sector h = load-store 8 _ (req + 8) sector (omega arith)

-- The copy of the data does not overlap.
apart_copy :
    (buf req : ℕ)
    → IsApart buf req
    → (req + offset_of_data ≤ buf) ⊎ (buf + disk_sector_size ≤ req + offset_of_data)
apart_copy buf req (inl low) = inr (omega arith)
apart_copy buf req (inr high) = inl (omega arith)

-- The bytes of the request before the data, in the data, and of everything else.
with_header-low :
    (req buf sector : ℕ) (is_write : Bool) (mem : ℕ → ℕ) (a : ℕ)
    → IsApart buf req
    → (a < req + 16) ⊎ (req + offset_of_status ≤ a)
    → with_header req buf sector is_write mem a ≡ header req buf sector is_write mem a
with_header-low req buf sector true mem a apart out =
    (memcpy_lem (req + offset_of_data) buf disk_sector_size (header req buf sector true mem)
        (apart_copy buf req apart)).1
      a (elim out [ inl low ↦ inl low | inr high ↦ inr (omega arith) ])
with_header-low req buf sector false mem a apart out = refl

with_header-data :
    (req buf sector : ℕ) (mem : ℕ → ℕ) (offset : ℕ)
    → IsApart buf req
    → offset < disk_sector_size
    → with_header req buf sector true mem (req + offset_of_data + offset) ≡ mem (buf + offset)
with_header-data req buf sector mem offset apart lt =
    (memcpy_lem (req + offset_of_data) buf disk_sector_size (header req buf sector true mem)
        (apart_copy buf req apart)).0
      offset lt
    ∙ header-outside req buf sector true mem (buf + offset)
        (elim apart [ inl low ↦ inl (omega arith) | inr high ↦ inr (omega arith) ])

-- What the device finds after the request has been made available.
module _ (buf sector : ℕ) (is_write : Bool) (s : Shared)
    (small_index : s.virtq.avail_index < u16_mod) (apart : IsApart buf s.virtq.blk_req) where
  abbrev pub made : Shared
  made = publish (format_request buf sector is_write s)

  -- The descriptors.
  abbrev first : VirtqDesc
  first = record { addr = s.virtq.blk_req; len = 16; flags = 1; next = 1 }

  pub head_lem : head made ≡ first
  unfolding publish format_request
  head_lem =
      let back : ((s.virtq.avail_index + 1) % u16_mod + (u16_mod - 1)) % u16_mod
          ≡ s.virtq.avail_index =
        omega arith in
      rw (back, ==_refl (s.virtq.avail_index % virt_queue_size)) refl

  pub body_lem : body made ≡ record {
    addr = s.virtq.blk_req + offset_of_data;
    len = disk_sector_size;
    flags = bit_or (if is_write then 0 else 2) 1;
    next = 2;
  }
  unfolding publish format_request
  body_lem = ap (λ (desc : VirtqDesc). made.virtq.descs desc.next) head_lem

  pub last_lem : last made ≡ record {
    addr = s.virtq.blk_req + offset_of_status;
    len = 1;
    flags = 2;
    next = (s.virtq.descs 2).next;
  }
  unfolding publish format_request
  last_lem = ap (λ (desc : VirtqDesc). made.virtq.descs desc.next) body_lem

  mem_low :
      (a : ℕ)
      → a < s.virtq.blk_req + 16
      → made.mem a ≡ header s.virtq.blk_req buf sector is_write s.mem a
  unfolding publish format_request
  mem_low a h =
      rw (==_ne (s.virtq.blk_req + offset_of_status) a (omega arith))
        (with_header-low s.virtq.blk_req buf sector is_write s.mem a apart (inl h))

  pub request_type_lem : request_type made ≡ type_of is_write
  request_type_lem =
      ap (λ (desc : VirtqDesc). load 4 made.mem desc.addr) head_lem
      ∙ load_agree 4 made.mem (header s.virtq.blk_req buf sector is_write s.mem) s.virtq.blk_req
          (λ b low high. mem_low b (omega arith))
      ∙ header_type s.virtq.blk_req buf sector is_write s.mem

  pub request_sector_lem : sector < u32_mod → request_sector made ≡ sector
  request_sector_lem h =
      ap (λ (desc : VirtqDesc). load 8 made.mem (desc.addr + 8)) head_lem
      ∙ load_agree 8 made.mem (header s.virtq.blk_req buf sector is_write s.mem)
          (s.virtq.blk_req + 8) (λ b low high. mem_low b (omega arith))
      ∙ header_sector s.virtq.blk_req buf sector is_write s.mem h

  -- Nothing outside of the request changes.
  pub mem-outside :
      (a : ℕ) → (a < s.virtq.blk_req) ⊎ (s.virtq.blk_req + 529 ≤ a) → made.mem a ≡ s.mem a
  unfolding publish format_request
  mem-outside a out = rw (==_ne (s.virtq.blk_req + offset_of_status) a (omega (arith, out))) (
      with_header-low s.virtq.blk_req buf sector is_write s.mem a apart
        (elim out [ inl low ↦ inl (omega arith) | inr high ↦ inr (omega arith) ])
      ∙ header-outside s.virtq.blk_req buf sector is_write s.mem a
          (elim out [ inl low ↦ inl low | inr high ↦ inr (omega arith) ]))

  pub made-IsChain : IsChain made
  made-IsChain = record {
    head_continues = ap (λ (desc : VirtqDesc). bit desc.flags 0) head_lem;
    head_len = ap (λ (desc : VirtqDesc). desc.len) head_lem;
    body_continues = ap (λ (desc : VirtqDesc). bit desc.flags 0) body_lem ∙ continues is_write;
    body_len = ap (λ (desc : VirtqDesc). desc.len) body_lem;
    last_ends = ap (λ (desc : VirtqDesc). bit desc.flags 0) last_lem;
    last_written = ap (λ (desc : VirtqDesc). bit desc.flags 1) last_lem;
    last_len = ap (λ (desc : VirtqDesc). desc.len) last_lem;
  }
    where
      continues : (w : Bool) → bit (bit_or (if w then 0 else 2) 1) 0 ≡ 1
      continues true = refl
      continues false = refl

-- The data of a request to write.
pub mem_data :
    (buf sector : ℕ) (s : Shared) (offset : ℕ)
    → IsApart buf s.virtq.blk_req
    → offset < disk_sector_size
    → (publish (format_request buf sector true s)).mem (s.virtq.blk_req + offset_of_data + offset)
      ≡ s.mem (buf + offset)
unfolding publish format_request
mem_data buf sector s offset apart lt =
    rw
      (==_ne (s.virtq.blk_req + offset_of_status) (s.virtq.blk_req + offset_of_data + offset)
        (omega arith))
      (with_header-data s.virtq.blk_req buf sector s.mem offset apart lt)

-- ===== src/Drivers/VirtioBlk/Read.antt =====
-- src/drivers/virtio/virtio-blk.cc: ReadDisk with a device that serves requests.
use evisor.Prelude.{
  ==_ne, ==_refl, ap, arith, false, inl, inr, refl, some, true, u16_mod, ℕ, ◌%◌, ◌+◌, ◌-◌, ◌<◌, ◌^◌,
  ◌∙◌, ◌≡◌, ◌≤◌, ◌⊎◌,
}
use evisor.Prelude.Digits.{bit}
use evisor.Common.Cstring.{memcpy}
use evisor.Common.Cstring.Blocks.{memcpy_lem}
use evisor.Drivers.VirtioBlk.{
  Regs, Shared, VirtqDesc, complete, disk_sector_size, offset_of_data, offset_of_status, publish,
  format_request, read_disk, read_write_disk,
}
use evisor.Drivers.VirtioBlk.Device.{
  Serves, body, in_sector, request_sector, used, with_sector, with_status,
}
use evisor.Drivers.VirtioBlk.Request.{
  IsApart, body_lem, last_lem, made, made-IsChain, mem-outside, request_sector_lem,
  request_type_lem,
}
use evisor.Drivers.VirtioBlk.Transfer.{IsIdle, IsOutside, WasRead, in_capacity}

module _ {D : Type 0} (notify : D → Shared → D × Shared) (disk : D → ℕ → ℕ → ℕ) (capacity : ℕ)
    (serves : Serves notify disk capacity) (r : Regs) (buf sector : ℕ) (d : D) (s : Shared)
    (idle : IsIdle s.virtq) (apart : IsApart buf s.virtq.blk_req) (there : sector < capacity)
    (inside : sector < r.device_config_space0 % 2 ^ 23) where
  abbrev reading : Shared
  reading = made buf sector false s idle.small_index apart

  abbrev after_read : Shared
  after_read = used reading (
      with_status (s.virtq.blk_req + offset_of_status)
        (with_sector (s.virtq.blk_req + offset_of_data) (disk d sector) reading.mem))

  notify_read :
      ((notify d reading).1 ≡ after_read)
      × ((other offset : ℕ) → disk (notify d reading).0 other offset ≡ disk d other offset)
  notify_read =
      let chain = made-IsChain buf sector false s idle.small_index apart in
      let type = request_type_lem buf sector false s idle.small_index apart in
      let number = request_sector_lem buf sector false s idle.small_index apart (omega arith) in
      let block = body_lem buf sector false s idle.small_index apart in
      let end = last_lem buf sector false s idle.small_index apart in
      let (state, kept) =
        serves.read_served d reading chain type (ap (λ (desc : VirtqDesc). bit desc.flags 1) block)
          (rw number there) in
      (
        state
            ∙ ap
                (λ a. used reading (
                  with_status a (
                    with_sector (body reading).addr (disk d (request_sector reading)) reading.mem)))
                (ap (λ (desc : VirtqDesc). desc.addr) end)
            ∙ ap
                (λ a. used reading (
                  with_status (s.virtq.blk_req + offset_of_status)
                    (with_sector a (disk d (request_sector reading)) reading.mem)))
                (ap (λ (desc : VirtqDesc). desc.addr) block)
            ∙ ap
                (λ n. used reading (
                  with_status (s.virtq.blk_req + offset_of_status)
                    (with_sector (s.virtq.blk_req + offset_of_data) (disk d n) reading.mem)))
                number,
        kept,
      )

  -- The state after the wait, and after the copy to the buffer.
  abbrev finished : Shared
  finished = record {
    virtq = record after_read.virtq {
      last_used_index = (after_read.virtq.last_used_index + 1) % u16_mod;
    };
    mem = memcpy buf (s.virtq.blk_req + offset_of_data) disk_sector_size after_read.mem;
  }

  read_run : read_disk notify r buf sector (d, s) ≡ some (true, ((notify d reading).0, finished))
  unfolding read_write_disk complete publish format_request
  read_run =
      let done : (s.virtq.last_used_index + 1) % u16_mod ≡ (s.virtq.used_index + 1) % u16_mod =
        ap (λ n. (n + 1) % u16_mod) idle.done in
      rw
        (
          in_capacity r sector inside,
          notify_read.0,
          done,
          ==_refl ((s.virtq.used_index + 1) % u16_mod),
          ==_refl (s.virtq.blk_req + offset_of_status),
        )
        refl

  sector_byte :
      (offset : ℕ)
      → offset < disk_sector_size
      → after_read.mem (s.virtq.blk_req + offset_of_data + offset) ≡ disk d sector offset
  sector_byte offset lt =
      let at : ℕ = s.virtq.blk_req + offset_of_data + offset in
      let within : in_sector (s.virtq.blk_req + offset_of_data) at ≡ true = ground arith in
      let back : at - (s.virtq.blk_req + offset_of_data) ≡ offset = omega arith in
      rw (==_ne at (s.virtq.blk_req + offset_of_status) (omega arith), within, back) refl

  read_copy :
      (buf ≤ s.virtq.blk_req + offset_of_data)
      ⊎ (s.virtq.blk_req + offset_of_data + disk_sector_size ≤ buf)
  read_copy = elim apart [ inl low ↦ inl (omega arith) | inr high ↦ inr (omega arith) ]

  outside_read : (a : ℕ) → IsOutside s.virtq.blk_req 529 a → after_read.mem a ≡ s.mem a
  outside_read a out =
      let without : in_sector (s.virtq.blk_req + offset_of_data) a ≡ false = elim out [
        | inl low ↦ ground arith
        | inr high ↦ ground arith
      ] in
      rw (==_ne a (s.virtq.blk_req + offset_of_status) (omega (arith, out)), without)
        (mem-outside buf sector false s idle.small_index apart a out)

  pub read_disk_lem :
      (d' : D) × (s' : Shared) × (read_disk notify r buf sector (d, s) ≡ some (true, (d', s')))
      × WasRead disk buf sector d s d' s'
  unfolding publish format_request
  read_disk_lem = (
    (notify d reading).0,
    finished,
    read_run,
    record {
      bytes = λ offset lt.
          (memcpy_lem buf (s.virtq.blk_req + offset_of_data) disk_sector_size after_read.mem
              read_copy).0
            offset lt
          ∙ sector_byte offset lt;
      others = λ a out away.
          (memcpy_lem buf (s.virtq.blk_req + offset_of_data) disk_sector_size after_read.mem
              read_copy).1
            a out
          ∙ outside_read a away;
      kept = notify_read.1;
      idle = record { small_index = omega arith; done = ap (λ n. (n + 1) % u16_mod) idle.done };
      request = refl;
    },
  )

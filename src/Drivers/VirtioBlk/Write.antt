-- ===== src/Drivers/VirtioBlk/Write.antt =====
-- src/drivers/virtio/virtio-blk.cc: WriteDisk with a device that serves requests, and ReadDisk after it.
use evisor.Prelude.{
  ==_iff, ==_ne, ==_refl, ap, arith, if◌then◌else◌, ℕ_discrete, refl, some, true, u16_mod, ℕ, ◌%◌,
  ◌+◌, ◌<◌, ◌==◌, ◌^◌, ◌∙◌, ◌≡◌,
}
use evisor.Prelude.Digits.{bit}
use evisor.Drivers.VirtioBlk.{
  Regs, Shared, VirtqDesc, complete, disk_sector_size, offset_of_status, publish, format_request,
  read_disk, read_write_disk, write_disk,
}
use evisor.Drivers.VirtioBlk.Device.{Serves, body, used, with_status}
use evisor.Drivers.VirtioBlk.Request.{
  IsApart, body_lem, last_lem, made, made-IsChain, mem-outside, mem_data, request_sector_lem,
  request_type_lem,
}
use evisor.Drivers.VirtioBlk.Transfer.{IsIdle, IsOutside, WasWritten, in_capacity}
use evisor.Drivers.VirtioBlk.Read.{read_disk_lem}

module _ {D : Type 0} (notify : D → Shared → D × Shared) (disk : D → ℕ → ℕ → ℕ) (capacity : ℕ)
    (serves : Serves notify disk capacity) (r : Regs) (buf sector : ℕ) (d : D) (s : Shared)
    (idle : IsIdle s.virtq) (apart : IsApart buf s.virtq.blk_req) (there : sector < capacity)
    (inside : sector < r.device_config_space0 % 2 ^ 23) where
  abbrev writing : Shared
  writing = made buf sector true s idle.small_index apart

  abbrev after_write : Shared
  after_write = used writing (with_status (s.virtq.blk_req + offset_of_status) writing.mem)

  notify_write :
      ((notify d writing).1 ≡ after_write)
      × ((other offset : ℕ)
          → offset < disk_sector_size
          → disk (notify d writing).0 other offset
            ≡ (if other == sector then s.mem (buf + offset) else disk d other offset))
  notify_write =
      let chain = made-IsChain buf sector true s idle.small_index apart in
      let type = request_type_lem buf sector true s idle.small_index apart in
      let number = request_sector_lem buf sector true s idle.small_index apart (omega arith) in
      let block = body_lem buf sector true s idle.small_index apart in
      let end = last_lem buf sector true s idle.small_index apart in
      let (state, stored) =
        serves.write_served d writing chain type (ap (λ (desc : VirtqDesc). bit desc.flags 1) block)
          (rw number there) in
      (
        state
            ∙ ap (λ a. used writing (with_status a writing.mem))
                (ap (λ (desc : VirtqDesc). desc.addr) end),
        λ other offset lt.
            stored other offset lt
            ∙ ap
                (λ n.
                  if other == n
                  then writing.mem ((body writing).addr + offset)
                  else disk d other offset)
                number
            ∙ ap (λ b. if other == sector then b else disk d other offset)
                (ap (λ (desc : VirtqDesc). writing.mem (desc.addr + offset)) block
                  ∙ mem_data buf sector s offset apart lt),
      )

  abbrev written : Shared
  written = record after_write {
    virtq = record after_write.virtq {
      last_used_index = (after_write.virtq.last_used_index + 1) % u16_mod;
    };
  }

  write_run : write_disk notify r buf sector (d, s) ≡ some (true, ((notify d writing).0, written))
  unfolding read_write_disk complete publish format_request
  write_run =
      let done : (s.virtq.last_used_index + 1) % u16_mod ≡ (s.virtq.used_index + 1) % u16_mod =
        ap (λ n. (n + 1) % u16_mod) idle.done in
      rw
        (
          in_capacity r sector inside,
          notify_write.0,
          done,
          ==_refl ((s.virtq.used_index + 1) % u16_mod),
          ==_refl (s.virtq.blk_req + offset_of_status),
        )
        refl

  pub write_disk_lem :
      (d' : D) × (s' : Shared) × (write_disk notify r buf sector (d, s) ≡ some (true, (d', s')))
      × WasWritten disk buf sector d s d' s'
  unfolding publish format_request
  write_disk_lem = (
    (notify d writing).0,
    written,
    write_run,
    record {
      bytes = λ offset lt. notify_write.1 sector offset lt ∙ rw (==_refl sector) refl;
      kept = λ other offset lt ne. notify_write.1 other offset lt ∙ rw ne refl;
      others = λ a out.
          rw (==_ne a (s.virtq.blk_req + offset_of_status) (omega (arith, out)))
            (mem-outside buf sector true s idle.small_index apart a out);
      idle = record { small_index = omega arith; done = ap (λ n. (n + 1) % u16_mod) idle.done };
      request = refl;
    },
  )

-- With a device that serves requests, on a queue with none under way, for buffers apart from the
-- request and sectors that both the device and the driver have: `WriteDisk` and then `ReadDisk`
-- return true; the buffer read into holds the bytes that were written if the sector is the same, and
-- the bytes that the disk held if it is another; outside of the buffer and the request no byte of
-- memory changes.
pub write_disk-read_disk :
    {D : Type 0} (notify : D → Shared → D × Shared) (disk : D → ℕ → ℕ → ℕ) (capacity : ℕ) (r : Regs)
    (buf buf' sector sector' : ℕ) (d : D) (s : Shared)
    → Serves notify disk capacity
    → IsIdle s.virtq
    → IsApart buf s.virtq.blk_req
    → IsApart buf' s.virtq.blk_req
    → sector < capacity
    → sector' < capacity
    → sector < r.device_config_space0 % 2 ^ 23
    → sector' < r.device_config_space0 % 2 ^ 23
    → (d1 : D) × (s1 : Shared) × (d2 : D) × (s2 : Shared) × (write_disk notify r buf sector (d, s)
        ≡ some (true, (d1, s1)))
      × (read_disk notify r buf' sector' (d1, s1) ≡ some (true, (d2, s2)))
      × ((offset : ℕ)
          → offset < disk_sector_size
          → s2.mem (buf' + offset)
            ≡ (if sector' == sector then s.mem (buf + offset) else disk d sector' offset))
      × ((a : ℕ)
          → IsOutside buf' disk_sector_size a
          → IsOutside s.virtq.blk_req 529 a
          → s2.mem a ≡ s.mem a)
write_disk-read_disk notify disk capacity r buf buf' sector sector' d s serves idle apart apart'
      there there' inside inside' =
    let (d1, s1, first, w) =
      write_disk_lem notify disk capacity serves r buf sector d s idle apart there inside in
    let still : IsApart buf' s1.virtq.blk_req = rw w.request apart' in
    let (d2, s2, second, t) =
      read_disk_lem notify disk capacity serves r buf' sector' d1 s1 w.idle still there' inside' in
    (
      d1,
      s1,
      d2,
      s2,
      first,
      second,
      λ offset lt. t.bytes offset lt ∙ elim (ℕ_discrete sector' sector) [
        | yes e ↦
            rw ((==_iff sector' sector).1 e) (ap (λ n. disk d1 n offset) e ∙ w.bytes offset lt)
        | no ne ↦ rw (==_ne sector' sector ne) (w.kept sector' offset lt (==_ne sector' sector ne))
      ],
      λ a out away. t.others a out (rw w.request away) ∙ w.others a away,
    )

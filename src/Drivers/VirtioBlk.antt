-- ===== src/Drivers/VirtioBlk.antt =====
-- src/drivers/virtio/virtio-blk.cc and virtio-blk.h: the block device of QEMU.
-- The device is a parameter: what it does to its own state, to the rings and to memory when the
-- driver notifies it, until it has nothing left to do. The barriers are left out.
pub mod Device
pub mod Disk
pub mod Request
pub mod Transfer
pub mod Read
pub mod Write
mod Tests
use evisor.Prelude.{
  Bool, Option, bit_or, false, if◌then◌else◌, leb, none, not, some, true, u16_mod, u32_mod, update,
  ℕ, ◌%◌, ◌*◌, ◌+◌, ◌/◌, ◌==◌, ◌^◌,
}
use evisor.Prelude.Digits.{bit}
use evisor.Prelude.Words.{store}
use evisor.Prelude.Outcome.{Outcome, ok, panic, ◌>>=◌}
use evisor.Common.Cstring.{memcpy}
use evisor.Mm.Uncached.{Region, kmm_uncached_malloc}

-- `kVirtQueueSize` and `kDiskSectorSize`
abbrev pub virt_queue_size : ℕ
virt_queue_size = 16

abbrev pub disk_sector_size : ℕ
disk_sector_size = 512

-- `VirtqDesc`
pub record VirtqDesc : Type 0 where
  pub addr : ℕ
  pub len : ℕ
  pub flags : ℕ
  pub next : ℕ

-- `Virtq`: of the available ring the index and the entries, of the used ring the index, and the
-- address of the request.
pub record Virtq : Type 0 where
  pub descs : ℕ → VirtqDesc
  pub avail_index : ℕ
  pub avail_ring : ℕ → ℕ
  pub used_index : ℕ
  pub blk_req : ℕ
  pub last_used_index : ℕ

-- The offsets in `VirtioBlkReq`, and the length of its first three members.
abbrev pub offset_of_sector : ℕ
offset_of_sector = 8

abbrev pub offset_of_data : ℕ
offset_of_data = 16

abbrev pub offset_of_status : ℕ
offset_of_status = 528

-- `Regs`: those that are read or written.
pub record Regs : Type 0 where
  pub magic_value : ℕ
  pub version : ℕ
  pub device_id : ℕ
  pub queue_sel : ℕ
  pub queue_num : ℕ
  pub queue_align : ℕ
  pub queue_pfn : ℕ
  pub queue_ready : ℕ
  pub device_status : ℕ
  pub device_config_space0 : ℕ

-- `GetDiskCapacity`: the product has the 32 bits of the register.
abbrev pub get_disk_capacity : Regs → ℕ
get_disk_capacity r = r.device_config_space0 * disk_sector_size % u32_mod

-- `regs_->DEVICE_STATUS = regs_->DEVICE_STATUS | bit`; `kept` is what the device makes of a status.
abbrev pub raise_status : (ℕ → ℕ) → ℕ → Regs → Regs
raise_status kept mask r = record r { device_status = kept (bit_or r.device_status mask) }

-- `DeviceInit`
unfoldable pub device_init : (ℕ → ℕ) → Regs → Outcome Regs
device_init kept r =
    if not (r.magic_value == 0x74726976)
    then panic
    else if not (r.version == 1)
    then panic
    else if not (r.device_id == 2)
    then panic
    else let reset = record r { device_status = kept 0 } in
      let r' =
        raise_status kept (2 ^ 3) (raise_status kept (2 ^ 1) (raise_status kept (2 ^ 0) reset)) in
      if bit r'.device_status 3 == 0 then panic else ok r'

module _ (start : ℕ) where
  -- `BlockDeviceInit`: the queue has two pages, which nothing clears.
  unfoldable pub block_device_init :
      (ℕ → ℕ) → (Virtq × Regs) × Region → Outcome ((Virtq × Regs) × Region)
  block_device_init kept ((q, r), region) =
      kmm_uncached_malloc start 8192 region >>= λ (descs, region').
      if not (r.queue_ready == 0)
      then panic
      else ok (
        (
          record q { used_index = 0; last_used_index = 0 },
          raise_status kept (2 ^ 2) (record r {
            queue_sel = 0;
            queue_num = virt_queue_size;
            queue_align = 4096;
            queue_pfn = descs % u32_mod;
            queue_ready = 1;
          }),
        ),
        region',
      )

  -- `Init`
  unfoldable pub init : (ℕ → ℕ) → (Virtq × Regs) × Region → Outcome ((Virtq × Regs) × Region)
  unfolding block_device_init device_init
  init kept ((q, r), region) = device_init kept r >>= λ r1.
      block_device_init kept ((q, r1), region) >>= λ ((q2, r2), region2).
      kmm_uncached_malloc start 4096 region2 >>= λ (req, region3).
      ok ((record q2 { blk_req = req }, r2), region3)

-- The queue and the memory that driver and device share.
pub record Shared : Type 0 where
  pub virtq : Virtq
  pub mem : ℕ → ℕ

-- The first three statements on the request, and the copy of the data to be written.
abbrev pub with_header : ℕ → ℕ → ℕ → Bool → (ℕ → ℕ) → ℕ → ℕ
with_header req buf sector is_write mem =
    let header =
      store 8 (store 4 (store 4 mem req (if is_write then 1 else 0)) (req + 4) 0)
        (req + offset_of_sector) sector in
    if is_write then memcpy (req + offset_of_data) buf disk_sector_size header else header

-- The three descriptors; the last keeps its `next`.
abbrev pub with_descs : ℕ → Bool → (ℕ → VirtqDesc) → ℕ → VirtqDesc
with_descs req is_write descs =
    update
      (update (update descs 0 (record { addr = req; len = 16; flags = 1; next = 1 })) 1 (record {
        addr = req + offset_of_data;
        len = disk_sector_size;
        flags = bit_or (if is_write then 0 else 2) 1;
        next = 2;
      }))
      2 (record { addr = req + offset_of_status; len = 1; flags = 2; next = (descs 2).next })

-- "Format the three descriptors."
unfoldable pub format_request : ℕ → ℕ → Bool → Shared → Shared
format_request buf sector is_write s =
    let req = s.virtq.blk_req in
    record {
      virtq = record s.virtq { descs = with_descs req is_write s.virtq.descs };
      mem = update (with_header req buf sector is_write s.mem) (req + offset_of_status) 0xff;
    }

-- The first index of the chain put into the available ring.
unfoldable pub publish : Shared → Shared
publish s = record s {
  virtq = record s.virtq {
    avail_ring = update s.virtq.avail_ring (s.virtq.avail_index % virt_queue_size) 0;
    avail_index = (s.virtq.avail_index + 1) % u16_mod;
  };
}

-- `VirtqIsBusy`
abbrev pub virtq_is_busy : Virtq → Bool
virtq_is_busy q = not (q.last_used_index == q.used_index)

module _ {D : Type 0} (notify : D → Shared → D × Shared) where
  -- What comes after the wait.
  unfoldable pub complete : ℕ → Bool → Shared → Bool × Shared
  complete buf is_write s =
      if not (s.mem (s.virtq.blk_req + offset_of_status) == 0)
      then (false, s)
      else if is_write
      then (true, s)
      else (
        true,
        record s { mem = memcpy buf (s.virtq.blk_req + offset_of_data) disk_sector_size s.mem },
      )

  -- `ReadWriteDisk`: the value returned and the state after the call; none where the loop never ends,
  -- since the device has nothing left to do and the queue is still busy.
  unfoldable pub read_write_disk : Regs → ℕ → ℕ → Bool → D × Shared → Option (Bool × (D × Shared))
  read_write_disk r buf sector is_write (d, s) =
      if leb (get_disk_capacity r / disk_sector_size) sector
      then some (false, (d, s))
      else let (d', s') = notify d (publish (format_request buf sector is_write s)) in
        let waiting = record s' {
          virtq = record s'.virtq { last_used_index = (s'.virtq.last_used_index + 1) % u16_mod };
        } in
        let (done, s'') = complete buf is_write waiting in
        if virtq_is_busy waiting.virtq then none else some (done, (d', s''))

  -- `ReadDisk` and `WriteDisk`
  abbrev pub read_disk : Regs → ℕ → ℕ → D × Shared → Option (Bool × (D × Shared))
  read_disk r buf sector s = read_write_disk r buf sector false s

  abbrev pub write_disk : Regs → ℕ → ℕ → D × Shared → Option (Bool × (D × Shared))
  write_disk r buf sector s = read_write_disk r buf sector true s

-- ===== src/Fs/Fat32/Open/Tests.antt =====
-- The root directory of a volume just mounted, in a cluster of 8 sectors; its first entry ends it.
use evisor.Prelude.{if◌then◌else◌, ltb, none, refl, some, ℕ, ◌+◌, ◌==◌, ◌≡◌}
use evisor.Prelude.Outcome.{ok}
use evisor.Fs.Fat32.{Volume}
use evisor.Common.Cstring.{strncmp}
use evisor.Fs.Fat32.Name.{get_sfn, copy}
use evisor.Fs.Fat32.Lfn.{get_lfn, lfn_loop, entry_before}
use evisor.Fs.Fat32.Read.{File, init_file}
use evisor.Fs.Fat32.Open.{scan_entries, entry_file}
use evisor.Fs.Fat32.Open.Entries.{IsEntry, scan_entries-IsEntry}

abbrev volume : Volume
volume = record {
  bpb = record {
    byts_per_sec = 512;
    sec_per_clus = 8;
    rsvd_sec_cnt = 32;
    num_fats = 2;
    root_ent_cnt = 0;
    tot_sec32 = 0x100000;
    fat_sz32 = 0x400;
    root_clus = 2;
    fil_sys_type = λ i. b'F';
    boot_sign = 0xaa55;
  };
  first_lba = 0x800;
  fat_first_sector = 32;
  fat_sectors = 0x800;
  rde_first_sector = 0x820;
  rde_sectors = 0;
  data_first_sector = 0x820;
  data_sectors = 0xff7e0;
}

abbrev root : File
root = init_file volume 0x10 0 2

-- One file, "A", of 7 bytes from cluster 5 on.
abbrev directory : ℕ → ℕ
directory i =
    if i == 0
    then b'A'
    else if i == 11
    then 0x20
    else if i == 26
    then 5
    else if i == 28
    then 7
    else if ltb i 32
    then (if ltb i 11 then b' ' else 0)
    else 0

abbrev filename : ℕ → ℕ
filename i = if i == 0 then b'A' else if i == 1 then b' ' else 0

abbrev after : ℕ → ℕ
after = get_sfn (λ _. 0) (λ k. directory (0 + k))

found_scan :
    scan_entries filename volume directory none 16 0 (λ _. 0)
    ≡ ok (some (entry_file volume directory 0), after)
unfolding scan_entries get_lfn lfn_loop entry_before get_sfn copy strncmp
found_scan = refl

scan_entries-IsEntry_example : IsEntry volume directory 16 0 (entry_file volume directory 0)
scan_entries-IsEntry_example =
    scan_entries-IsEntry filename volume directory none 16 0 (λ _. 0) after
      (entry_file volume directory 0) found_scan

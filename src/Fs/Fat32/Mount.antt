-- ===== src/Fs/Fat32/Mount.antt =====
-- What holds of the volumes that Init accepts.
use evisor.Prelude.{
  All, Bool-cases, List, Option, [], ap, arith, inl, inr, none, not, refl, some, subst, sym, true,
  u32_mod, ℕ, ◌*◌, ◌+◌, ◌-◌, ◌/◌, ◌<◌, ◌==◌, ◌∙◌, ◌∷◌, ◌≡◌, ◌≤◌,
}
use evisor.Prelude.Outcome.{bind_inv, ok}
use evisor.Fs.Fat32.{
  mount_slots, le16, read_sector, Bpb, Volume, block_size, boot_signature, parse_bpb, check_bpb,
  areas, mount, mount_slot, init, pt_system, pt_lba_ofs,
}

-- What the code has checked of a volume that it accepts.
pub record IsMounted (read : ℕ → ℕ → ℕ) (lba : ℕ) (v : Volume) : Type 0 where
  pub layout : v ≡ areas (parse_bpb (read_sector read lba)) lba
  pub sectors : v.bpb.byts_per_sec ≡ block_size
  pub signed : v.bpb.boot_sign ≡ boot_signature
  pub clustered : 0 < v.bpb.sec_per_clus
  pub large : 65526 ≤ v.data_sectors / v.bpb.sec_per_clus

check_bpb_lem :
    (b : Bpb) → check_bpb b ≡ true → (b.byts_per_sec ≡ block_size) × (b.boot_sign ≡ boot_signature)
unfolding check_bpb
check_bpb_lem b h = ground arith

mount_inv :
    (read : ℕ → ℕ → ℕ) (lba : ℕ) (v : Volume)
    → mount read lba ≡ ok (some v)
    → (v ≡ areas (parse_bpb (read_sector read lba)) lba)
      × (check_bpb (parse_bpb (read_sector read lba)) ≡ true)
      × (0 < (parse_bpb (read_sector read lba)).sec_per_clus)
      × (65526 ≤ v.data_sectors / (parse_bpb (read_sector read lba)).sec_per_clus)
unfolding mount
mount_inv read lba v e = ground arith

bpb-areas : (b : Bpb) (lba : ℕ) → (areas b lba).bpb ≡ b
unfolding areas
bpb-areas b lba = refl

-- A volume is accepted only with 512-byte sectors, the boot signature, clusters of at least one
-- sector, at least 65526 clusters, and the areas that its parameter block gives.
pub mount-IsMounted :
    (read : ℕ → ℕ → ℕ) (lba : ℕ) (v : Volume) → mount read lba ≡ ok (some v) → IsMounted read lba v
mount-IsMounted read lba v e =
    let (layout, checked, clustered, large) = mount_inv read lba v e in
    let (sectors, signed) = check_bpb_lem (parse_bpb (read_sector read lba)) checked in
    let same : v.bpb ≡ parse_bpb (read_sector read lba) =
      ap (λ (x : Volume). x.bpb) layout ∙ bpb-areas (parse_bpb (read_sector read lba)) lba in
    record {
      layout = layout;
      sectors = rw same sectors;
      signed = rw same signed;
      clustered = rw same clustered;
      large = subst (λ b. 65526 ≤ v.data_sectors / b.sec_per_clus) (sym same) large;
    }

-- The areas of a volume fill it exactly, up to the 32 bits of the code's arithmetic; where the
-- reserved sectors, the tables and the root directory fit into the volume, without any wrap.
pub areas_fill :
    (b : Bpb) (lba : ℕ)
    → 0 < b.byts_per_sec
    → b.rsvd_sec_cnt
        + b.fat_sz32 * b.num_fats
        + (32 * b.root_ent_cnt + b.byts_per_sec - 1) / b.byts_per_sec
      ≤ b.tot_sec32
    → b.tot_sec32 < u32_mod
    → let v = areas b lba in
      (v.fat_first_sector + v.fat_sectors ≡ v.rde_first_sector)
      × (v.rde_first_sector + v.rde_sectors ≡ v.data_first_sector)
      × (v.data_first_sector + v.data_sectors ≡ b.tot_sec32)
unfolding areas
areas_fill b lba h fits small = grind arith

-- The first sector of every volume is that of partition 0, whatever slot it was found in.
abbrev pub StartsAt : ℕ → Option Volume → Type 0
StartsAt lba none = Unit {0}
StartsAt lba (some v) = v.first_lba ≡ lba

StartsAt-mount :
    (read : ℕ → ℕ → ℕ) (lba : ℕ) (o : Option Volume) → mount read lba ≡ ok o → StartsAt lba o
unfolding areas
StartsAt-mount read lba none e = tt
StartsAt-mount read lba (some v) e =
    ap (λ (x : Volume). x.first_lba) (mount-IsMounted read lba v e).layout

StartsAt-slot :
    (read : ℕ → ℕ → ℕ) (i : ℕ) (o : Option Volume)
    → mount_slot read i ≡ ok o
    → StartsAt (pt_lba_ofs (read_sector read 0) 0) o
unfolding mount_slot
StartsAt-slot read i o e = elim (Bool-cases (pt_system (read_sector read 0) i == 0xc)) [
  | inl yes_fat ↦ StartsAt-mount read (pt_lba_ofs (read_sector read 0) 0) o (ground (arith, e))
  | inr no_fat ↦
      let q : none ≡ o = ground (arith, e) in
      subst (StartsAt (pt_lba_ofs (read_sector read 0) 0)) q tt
]

slots_start :
    (read : ℕ → ℕ → ℕ) (vs : List (Option Volume))
    → mount_slots read ≡ ok vs
    → All (StartsAt (pt_lba_ofs (read_sector read 0) 0)) vs
unfolding mount_slots
slots_start read vs e =
    let (a, ra, ea) = bind_inv _ (mount_slot read 0) e in
    let (b, rb, eb) = bind_inv _ (mount_slot read 1) ra in
    let (c, rc, ec) = bind_inv _ (mount_slot read 2) rb in
    let (d, rd, ed) = bind_inv _ (mount_slot read 3) rc in
    let all : a ∷ b ∷ c ∷ d ∷ [] ≡ vs = cc in
    subst (All (StartsAt (pt_lba_ofs (read_sector read 0) 0))) all (
      StartsAt-slot read 0 a ea,
      (StartsAt-slot read 1 b eb, (StartsAt-slot read 2 c ec, (StartsAt-slot read 3 d ed, tt))),
    )

-- Every volume that `Init` finds starts at the first sector of partition 0, whatever slot of the
-- partition table it was found in.
pub init_first_lba :
    (read : ℕ → ℕ → ℕ) (vs : List (Option Volume))
    → init read ≡ ok (some vs)
    → All (StartsAt (pt_lba_ofs (read_sector read 0) 0)) vs
unfolding init
init_first_lba read vs e = elim (Bool-cases (not (le16 (read 0) 510 == boot_signature))) [
  | inl bad ↦ absurd (clash (rw (bad, init) at e))
  | inr good ↦
      let (ws, q, m) = bind_inv (λ vs. ok (some vs)) (mount_slots read) (rw (good, init) at e) in
      let same : ws ≡ vs = cc in
      subst (All (StartsAt (pt_lba_ofs (read_sector read 0) 0))) same (slots_start read ws m)
]
  where
    clash : ok none ≡ ok (some vs) → ⊥
    clash q = cc

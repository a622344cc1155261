-- ===== src/Mm/PgTable/Route.antt =====
-- The tables that lead from the root of a guest to the entry of an address, and a write at their end.
use evisor.Prelude.{
  ==_iff, ==_ne, ==_refl, ap, arith, false, refl, sym, ℕ, ℕ_discrete, ◌*◌, ◌+◌, ◌<◌, ◌==◌, ◌∙◌, ◌≡◌,
  ◌≢◌, ◌≤◌,
}
use evisor.Kernel.Task.{MmContext}
use evisor.Mm.PgTable.{Tables, page_mask, set_word, ptrs_per_table}
use evisor.Mm.PgTable.Forest.{IsForest, entry_of, entry_of_agree, second_level, third_level}
use evisor.Mm.KernelHeap.{heap_pages}
use evisor.Mm.PgTable.Room.{free_pages, room-one}
use evisor.Mm.PgTable.Extend.{Extends, SameRoots}

-- The tables that lead from the root `r` to the entry of an address, all present.
pub record Route (start : ℕ) (level key : ℕ → ℕ) (s : Tables) (r i j n : ℕ) : Type 0 where
  pub forest : IsForest start level key s
  pub root : level r ≡ 1
  pub first : s.mem r i ≢ 0
  pub second : s.mem (page_mask (s.mem r i)) j ≢ 0
  pub place : page_mask (s.mem (page_mask (s.mem r i)) j) ≡ n

-- The entry written at the end of a route is the one that its address finds.
module _ (start : ℕ) (level key : ℕ → ℕ) (s : Tables) (r i j k n v : ℕ)
    (route : Route start level key s r i j n) (a : i < ptrs_per_table)
    (b : j < ptrs_per_table) where
  pub deep : (level n ≡ 3) × (key n ≡ (r * ptrs_per_table + i) * ptrs_per_table + j)
  deep =
      let (l, e) =
        third_level start level key s r i j route.forest route.root a b route.first route.second in
      (rw (sym route.place) l, rw (sym route.place) e)

  above : (u : ℕ) → level u ≤ 2 → (n == u) ≡ false
  above u le = ==_ne n u (λ q. absurd (clash (ap level q)))
    where
      clash : level n ≡ level u → ⊥
      clash e = omega (arith, deep)

  pub written_here : entry_of (set_word s.mem n k v) r i j k ≡ v
  written_here =
      let (l, e) = second_level start level key s r i route.forest route.root a route.first in
      rw (above r (omega (arith, route.root)), ==_ne (s.mem r i) 0 route.first)
        (rw
          (
            above (page_mask (s.mem r i)) (omega (arith, l)),
            ==_ne (s.mem (page_mask (s.mem r i)) j) 0 route.second,
            route.place,
            ==_refl n,
            ==_refl k,
          )
          refl)

  pub written_elsewhere :
      (r' x y z : ℕ)
      → level r' ≡ 1
      → x < ptrs_per_table
      → y < ptrs_per_table
      → (r' ≡ r → x ≡ i → y ≡ j → z ≢ k)
      → entry_of (set_word s.mem n k v) r' x y z ≡ entry_of s.mem r' x y z
  written_elsewhere r' x y z one c d other =
      entry_of_agree s.mem (set_word s.mem n k v) r' x y z (old r' x (omega (arith, one)))
        (λ nz.
          old (page_mask (s.mem r' x)) y
            (omega (arith, second_level start level key s r' x route.forest one c nz)))
        (λ nz nz'.
          last (page_mask (s.mem (page_mask (s.mem r' x)) y))
            (third_level start level key s r' x y route.forest one c d nz nz').1)
    where
      old : (u w : ℕ) → level u ≤ 2 → set_word s.mem n k v u w ≡ s.mem u w
      old u w le = rw (above u le) refl

      same_key :
          (i j x y : ℕ)
          → i < ptrs_per_table
          → j < ptrs_per_table
          → x < ptrs_per_table
          → y < ptrs_per_table
          → (r * ptrs_per_table + i) * ptrs_per_table + j
            ≡ (r' * ptrs_per_table + x) * ptrs_per_table + y
          → (r' ≡ r) × (x ≡ i) × (y ≡ j)
      same_key i j x y lt1 lt2 lt3 lt4 e = (omega arith, omega arith, omega arith)

      last :
          (t : ℕ)
          → key t ≡ (r' * ptrs_per_table + x) * ptrs_per_table + y
          → set_word s.mem n k v t z ≡ s.mem t z
      last t e = elim (ℕ_discrete n t) [
        | no ne ↦ rw (==_ne n t ne) refl
        | yes q ↦
            let (p1, p2, p3) = same_key i j x y a b c d (sym deep.1 ∙ (ap key q ∙ e)) in
            let apart : (k == z) ≡ false = ==_ne k z (λ h. other p1 p2 p3 (sym h)) in
            rw ((==_iff n t).1 q, apart, q) refl
      ]

-- What the three steps before the write leave: a route to the entry, and the walks as they were.
pub record Tabled (start : ℕ) (level key : ℕ → ℕ) (s : Tables) (mm : MmContext) (i j r n : ℕ)
    (s' : Tables) : Type 0 where
  pub level' : ℕ → ℕ
  pub key' : ℕ → ℕ
  pub route : Route start level' key' s' r i j n
  pub kept : (u : ℕ) → 1 ≤ level u → level' u ≡ level u
  pub room : free_pages heap_pages s.heap ≤ free_pages heap_pages s'.heap + 3
  pub roots : (u : ℕ) → level' u ≡ 1 → u ≢ r → level u ≡ 1
  pub new_root : mm.page_table ≡ 0 → level r ≡ 0
  pub same_root : mm.page_table ≢ 0 → r ≡ mm.page_table
  pub walks :
      (u x y z : ℕ)
      → level u ≡ 1
      → x < ptrs_per_table
      → y < ptrs_per_table
      → entry_of s'.mem u x y z ≡ entry_of s.mem u x y z
  pub new :
      (x y z : ℕ)
      → mm.page_table ≡ 0
      → x < ptrs_per_table
      → y < ptrs_per_table
      → entry_of s'.mem r x y z ≡ 0

-- A table of level 2 is reached from the root.
pub middle_level :
    (start : ℕ) (level key : ℕ → ℕ) (s : Tables) (r i n : ℕ)
    → IsForest start level key s
    → level r ≡ 1
    → i < ptrs_per_table
    → s.mem r i ≢ 0
    → page_mask (s.mem r i) ≡ n
    → level n ≡ 2
middle_level start level key s r i n f one lt nz place =
    rw (sym place) (second_level start level key s r i f one lt nz).0

pub tables_lem :
    (start : ℕ) (level key l1 k1 l2 k2 l3 k3 : ℕ → ℕ) (s s1 s2 s3 : Tables) (mm : MmContext)
    (i j r n2 n3 : ℕ)
    → i < ptrs_per_table
    → Extends start level key s l1 k1 s1
    → l1 r ≡ 1
    → ((u : ℕ) → l1 u ≡ 1 → u ≢ r → level u ≡ 1)
    → ((mm.page_table ≡ 0) → level r ≡ 0)
    → ((mm.page_table ≢ 0) → r ≡ mm.page_table)
    → ((mm.page_table ≡ 0) → (x y z : ℕ) → entry_of s1.mem r x y z ≡ 0)
    → Extends start l1 k1 s1 l2 k2 s2
    → s2.mem r i ≢ 0
    → page_mask (s2.mem r i) ≡ n2
    → SameRoots l1 l2
    → Extends start l2 k2 s2 l3 k3 s3
    → s3.mem n2 j ≢ 0
    → page_mask (s3.mem n2 j) ≡ n3
    → SameRoots l2 l3
    → Tabled start level key s mm i j r n3 s3
tables_lem start level key l1 k1 l2 k2 l3 k3 s s1 s2 s3 mm i j r n2 n3 lt x1 one sole fresh same new
      x2 nz p back x3 nz' p' back' =
    let one2 : l2 r ≡ 1 = (x2.kept r (omega (arith, one))).0 ∙ one in
    let one3 : l3 r ≡ 1 = (x3.kept r (omega (arith, one2))).0 ∙ one2 in
    let word : s3.mem r i ≡ s2.mem r i = x3.words r i (omega (arith, one2)) nz in
    record {
      level' = l3;
      key' = k3;
      route = record {
        forest = x3.forest;
        root = one3;
        first = λ z. nz (sym word ∙ z);
        second = λ z. nz' (sym (ap (λ w. s3.mem w j) (ap page_mask word ∙ p)) ∙ z);
        place = ap (λ w. page_mask (s3.mem w j)) (ap page_mask word ∙ p) ∙ p';
      };
      kept = λ u up.
          let e1 = (x1.kept u up).0 in
          let e2 = (x2.kept u (omega (arith, e1))).0 in
          (x3.kept u (omega (arith, e1, e2))).0 ∙ (e2 ∙ e1);
      room = omega (
        arith,
        room-one x1.taken.0 s.heap s1.heap x1.taken.1,
        room-one x2.taken.0 s1.heap s2.heap x2.taken.1,
        room-one x3.taken.0 s2.heap s3.heap x3.taken.1,
      );
      roots = λ u root d. sole u (back u (back' u root)) d;
      new_root = fresh;
      same_root = same;
      walks = λ u x y z root a b.
          let e1 : l1 u ≡ 1 = (x1.kept u (omega (arith, root))).0 ∙ root in
          let e2 : l2 u ≡ 1 = (x2.kept u (omega (arith, e1))).0 ∙ e1 in
          x3.walks u x y z e2 a b ∙ (x2.walks u x y z e1 a b ∙ x1.walks u x y z root a b);
      new =
          λ x y z none a b. x3.walks r x y z one2 a b ∙ (x2.walks r x y z one a b ∙ new none x y z);
    }

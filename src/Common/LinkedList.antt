-- ===== src/Common/LinkedList.antt =====
-- src/common/list.cc: the doubly linked list, over the nodes of a heap. An address is a number; `new`
-- takes the next one, and a node that was deleted is not used again.
pub mod Ends
use evisor.Prelude.{
  ==_iff, ==_ne, ==_refl, All, All-append, All-get, All-map, All-set, Bool, Bool-cases, List,
  Option, Option-cases, [], ap, append-nil, append_assoc, ap₂, arith, bit_and, bit_or, dec_le,
  dec_lt, false, fun_ext, get_elem?, get_elem?-lt, get_elem?-set_ne, get_elem?-set_self,
  get_elem?-some, if◌then◌else◌, inl, inr, leb, leb→le, length, length-append, length-map,
  length-replicate, length-set, ltb, ltb→lt, lt→ltb, map, none, not, refl, replicate, set, some,
  subst, suc, sym, take, true, u16_mod, u32_mod, u64_mod, u8_mod, update, zero, ℕ, ℕ_discrete, ◌%◌,
  ◌&&◌, ◌*◌, ◌++◌, ◌+◌, ◌-◌, ◌/◌, ◌<◌, ◌==◌, ◌^◌, ◌||◌, ◌↔◌, ◌∙◌, ◌∷◌, ◌≡◌, ◌≢◌, ◌≤◌, ◌⊎◌,
}

-- `Node`s by address, the sentinel and the next address of `new`.
pub record LinkedList : Type 0 where
  pub nil : ℕ
  pub fresh : ℕ
  pub key : ℕ → ℕ
  pub prev : ℕ → ℕ
  pub next : ℕ → ℕ

-- The constructor, with the address of the sentinel.
unfoldable pub empty : ℕ → LinkedList
empty nil = record { nil = nil; fresh = nil + 1; key = λ _. 0; prev = λ _. nil; next = λ _. nil }

-- `Begin`, `Front` and `Back`
abbrev pub begin : LinkedList → ℕ
begin l = l.next l.nil

abbrev pub front : LinkedList → ℕ
front l = l.key (l.next l.nil)

abbrev pub back : LinkedList → ℕ
back l = l.key (l.prev l.nil)

unfoldable pub push_front : LinkedList → ℕ → LinkedList
push_front l k =
    let x = l.fresh in
    let linked = update l.next x (l.next l.nil) in
    record {
      nil = l.nil;
      fresh = x + 1;
      key = update l.key x k;
      prev = update (update l.prev (linked l.nil) x) x l.nil;
      next = update linked l.nil x;
    }

-- The sentinel's own `prev` stays as it was.
unfoldable pub push_back : LinkedList → ℕ → LinkedList
push_back l k =
    let x = l.fresh in
    let linked = update l.prev x (l.prev l.nil) in
    record {
      nil = l.nil;
      fresh = x + 1;
      key = update l.key x k;
      prev = linked;
      next = update (update l.next (linked l.nil) x) x l.nil;
    }

-- `SearchNode` from a node on, for at most `n` nodes.
unfoldable pub search_node : ℕ → LinkedList → ℕ → ℕ → Option ℕ
search_node zero l k cur = none
search_node (suc n) l k cur =
    let rest = search_node n l k (l.next cur) in
    if cur == l.nil then some cur else if l.key cur == k then some cur else rest

unfoldable pub delete_node : LinkedList → ℕ → LinkedList
delete_node l node =
    if node == l.nil
    then l
    else let next = update l.next (l.prev node) (l.next node) in
      record l { next = next; prev = update l.prev (next node) (l.prev node) }

abbrev pub pop_front : LinkedList → LinkedList
pop_front l = delete_node l (l.next l.nil)

abbrev pub pop_back : LinkedList → LinkedList
pop_back l = delete_node l (l.prev l.nil)

-- `Delete`; none where the search does not end.
abbrev pub delete : ℕ → LinkedList → ℕ → Option LinkedList
delete n l k = elim (search_node n l k (l.next l.nil)) [
  | none ↦ none
  | some node ↦ some (delete_node l node)
]

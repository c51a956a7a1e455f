-- ===== src/Adlist.antt =====
-- adlist.c, adlist.h: doubly linked lists over a heap of nodes. A pointer to a node is an address or
-- `none` for NULL; a read or write through NULL or of an address that holds no node is a fault. A
-- `list` is a value that its functions take and give back. The calls of the `free` method are kept in
-- `freed`, latest first. What zmalloc gives is a parameter.
pub mod Chain
pub mod Relink
pub mod Add
pub mod Insert
pub mod Delete
pub mod Join
pub mod Iterate
pub mod Walk
pub mod Empty
pub mod Copy
mod Samples
use decompose_redis.Base.{
  ℕ, zero, suc, ◌+◌, ◌-◌, ◌%◌, ◌^◌, ◌≡◌, Bool, true, false, List, [], ◌∷◌, Option, some, none, leb,
  ◌==◌, if◌then◌else◌,
}

pub record ListNode : Type 0 where
  pub prev : Option ℕ
  pub next : Option ℕ
  pub value : ℕ

abbrev pub node : Option ℕ → Option ℕ → ℕ → ListNode
node p q v = record { prev = p; next = q; value = v }

abbrev pub Nodes : Type 0
Nodes = ℕ → Option ListNode

pub record Heap : Type 0 where
  pub nodes : Nodes
  pub freed : List ℕ

abbrev pub write : Nodes → ℕ → Option ListNode → Nodes
write f a c b = if a == b then c else f b

-- `dup` and `match` are the methods of the list, and `free` says whether it has that method.
pub record AdList : Type 0 where
  pub head : Option ℕ
  pub tail : Option ℕ
  pub dup : Option (ℕ → Option ℕ)
  pub free : Bool
  pub match : Option (ℕ → ℕ → Bool)
  pub len : ℕ

-- zmalloc for a node gives an address that holds none, and for a `list` it is granted or not.
pub record Zmalloc : Type 0 where
  pub malloc_node : Nodes → Option ℕ
  pub malloc_list : Nodes → Bool
  pub fresh : (f : Nodes) (a : ℕ) → malloc_node f ≡ some a → f a ≡ none

-- `none` is a fault.
abbrev pub M {ℓ} : Type ℓ → Type ℓ
M A = Heap → Option (A × Heap)

abbrev pub and_then {ℓ κ} :
    {A : Type ℓ} {B : Type κ} → Option (A × Heap) → (A → M B) → Option (B × Heap)
and_then none k = none
and_then (some (a, h)) k = k a h

infixl 5 ◌>>=◌ ◌>>◌
abbrev pub ◌>>=◌ {ℓ κ} : {A : Type ℓ} {B : Type κ} → M A → (A → M B) → M B
m >>= k = λ h. and_then (m h) k

abbrev pub ◌>>◌ {ℓ} : {B : Type ℓ} → M (Unit {0}) → M B → M B
m >> k = m >>= λ _. k

abbrev pub pure {ℓ} : {A : Type ℓ} → A → M A
pure a h = some (a, h)

abbrev pub store : ℕ → Option ListNode → M (Unit {0})
store a c h = some (tt, record h { nodes = write h.nodes a c })

abbrev pub loaded : Option ListNode → M ListNode
loaded none h = none
loaded (some n) h = some (n, h)

-- `*p`
abbrev pub load : Option ℕ → M ListNode
load none h = none
load (some a) h = loaded (h.nodes a) h

-- `p->next = q` and `p->prev = q`
abbrev pub set_next : Option ℕ → Option ℕ → M (Unit {0})
set_next none q h = none
set_next (some a) q h = and_then (load (some a) h) λ n. store a (some (record n { next = q }))

abbrev pub set_prev : Option ℕ → Option ℕ → M (Unit {0})
set_prev none q h = none
set_prev (some a) q h = and_then (load (some a) h) λ n. store a (some (record n { prev = q }))

-- zfree of a node.
abbrev pub release : Option ℕ → M (Unit {0})
release none = pure tt
release (some a) = load (some a) >>= λ n. store a none

-- `if (list->free) list->free(value)`
abbrev pub call_free : Bool → ℕ → M (Unit {0})
call_free false v h = some (tt, h)
call_free true v h = some (tt, record h { freed = v ∷ h.freed })

abbrev pub len_mod : ℕ
len_mod = 2 ^ 64

abbrev pub empty_list : AdList
empty_list = record { head = none; tail = none; dup = none; free = false; match = none; len = 0 }

-- The rounds of listEmpty, `len` of them.
unfoldable pub empty_loop : Bool → ℕ → Option ℕ → M (Unit {0})
empty_loop free zero current = pure tt
empty_loop free (suc len) current = do
  n ← load current
  call_free free n.value
  release current
  empty_loop free len n.next

unfoldable pub list_empty : AdList → M AdList
list_empty l = do
  empty_loop l.free l.len l.head
  pure (record l { head = none; tail = none; len = 0 })

-- listRelease gives the list itself back too.
unfoldable pub list_release : AdList → M (Unit {0})
list_release l = list_empty l >>= λ _. pure tt

add_head_at : AdList → ℕ → ℕ → M AdList
add_head_at l value a =
    if l.len == 0
    then store a (some (node none none value))
      >> pure (record l { head = some a; tail = some a; len = (l.len + 1) % len_mod })
    else store a (some (node none l.head value))
      >> (set_prev l.head (some a)
          >> pure (record l { head = some a; len = (l.len + 1) % len_mod }))

add_tail_at : AdList → ℕ → ℕ → M AdList
add_tail_at l value a =
    if l.len == 0
    then store a (some (node none none value))
      >> pure (record l { head = some a; tail = some a; len = (l.len + 1) % len_mod })
    else store a (some (node l.tail none value))
      >> (set_next l.tail (some a)
          >> pure (record l { tail = some a; len = (l.len + 1) % len_mod }))

-- Pointers are equal.
abbrev pub same_ptr : Option ℕ → Option ℕ → Bool
same_ptr none none = true
same_ptr none (some b) = false
same_ptr (some a) none = false
same_ptr (some a) (some b) = a == b

-- `if (p != NULL) p->next = q`, and the same for `prev`.
abbrev pub link_next : Option ℕ → Option ℕ → M (Unit {0})
link_next none q = pure tt
link_next (some a) q = set_next (some a) q

abbrev pub link_prev : Option ℕ → Option ℕ → M (Unit {0})
link_prev none q = pure tt
link_prev (some a) q = set_prev (some a) q

insert_at : AdList → ℕ → ℕ → Bool → ℕ → M AdList
insert_at l old value true a = do
  o ← load (some old)
  store a (some (node (some old) o.next value))
  link_next (some old) (some a)
  link_prev o.next (some a)
  pure (record l {
    tail = if same_ptr l.tail (some old) then some a else l.tail;
    len = (l.len + 1) % len_mod;
  })
insert_at l old value false a = do
  o ← load (some old)
  store a (some (node o.prev (some old) value))
  link_next o.prev (some a)
  link_prev (some old) (some a)
  pure (record l {
    head = if same_ptr l.head (some old) then some a else l.head;
    len = (l.len + 1) % len_mod;
  })

module _ (z : Zmalloc) where
  abbrev pub on_node : Option ℕ → (ℕ → M AdList) → M (Option AdList)
  on_node none k = pure none
  on_node (some a) k = k a >>= λ l. pure (some l)

  -- A new node is granted and taken by `k`, or the function returns NULL.
  abbrev pub with_node : (ℕ → M AdList) → M (Option AdList)
  with_node k h = on_node (z.malloc_node h.nodes) k h

  unfoldable pub list_create : M (Option AdList)
  list_create h = if z.malloc_list h.nodes then some (some empty_list, h) else some (none, h)

  unfoldable pub list_add_node_head : AdList → ℕ → M (Option AdList)
  unfolding add_head_at
  list_add_node_head l value = with_node (add_head_at l value)

  unfoldable pub list_add_node_tail : AdList → ℕ → M (Option AdList)
  unfolding add_tail_at
  list_add_node_tail l value = with_node (add_tail_at l value)

  unfoldable pub list_insert_node : AdList → ℕ → ℕ → Bool → M (Option AdList)
  unfolding insert_at
  list_insert_node l old value after = with_node (insert_at l old value after)

-- `if (p) l else q`, for the ends of the list.
abbrev pub if_null : Option ℕ → Option ℕ → Option ℕ → Option ℕ
if_null none q l = q
if_null (some p) q l = l

unfoldable pub list_del_node : AdList → ℕ → M AdList
list_del_node l o = do
  n ← load (some o)
  link_next n.prev n.next
  n' ← load (some o)
  link_prev n'.next n'.prev
  call_free l.free n'.value
  release (some o)
  pure (record l {
    head = if_null n.prev n.next l.head;
    tail = if_null n'.next n'.prev l.tail;
    len = (l.len + (len_mod - 1)) % len_mod;
  })

unfoldable pub list_rotate : AdList → M AdList
list_rotate l = if leb l.len 1 then pure l else (do
  t ← load l.tail
  set_next t.prev none
  set_prev l.head l.tail
  set_prev l.tail none
  set_next l.tail l.head
  pure (record l { head = l.tail; tail = t.prev }))

-- Both lists, the joined one first.
unfoldable pub list_join : AdList → AdList → M (AdList × AdList)
list_join l o = do
  link_prev o.head l.tail
  link_next l.tail o.head
  pure (
    record l {
      head = if_null l.tail o.head l.head;
      tail = if_null o.tail l.tail o.tail;
      len = (l.len + o.len) % len_mod;
    },
    record o { head = none; tail = none; len = 0 },
  )

-- ===== src/Adlist/Iterate.antt =====
-- adlist.c: the iterator, and what walks a list: listDup, listSearchKey and listIndex.
use decompose_redis.Base.{ℕ, zero, suc, ◌+◌, Bool, Option, some, none, ◌==◌, if◌then◌else◌}
use decompose_redis.Base.Int.{ℤ, pos, negsuc}
use decompose_redis.Adlist.{
  ListNode, AdList, Zmalloc, M, ◌>>=◌, ◌>>◌, pure, load, list_create, list_release,
  list_add_node_tail,
}

-- AL_START_HEAD and AL_START_TAIL.
pub data Direction : Type 0 where
  start_head start_tail : Direction

pub record ListIter : Type 0 where
  pub next : Option ℕ
  pub direction : Direction

abbrev pub list_rewind : AdList → ListIter
list_rewind l = record { next = l.head; direction = start_head }

abbrev pub list_rewind_tail : AdList → ListIter
list_rewind_tail l = record { next = l.tail; direction = start_tail }

-- listGetIterator, when zmalloc grants the iterator.
abbrev pub list_get_iterator : AdList → Direction → ListIter
list_get_iterator l start_head = list_rewind l
list_get_iterator l start_tail = list_rewind_tail l

abbrev pub towards : Direction → ListNode → Option ℕ
towards start_head n = n.next
towards start_tail n = n.prev

abbrev pub step_from : Option ℕ → Direction → M (Option ℕ × ListIter)
step_from none d = pure (none, record { next = none; direction = d })
step_from (some a) d = do
  n ← load (some a)
  pure (some a, record { next = towards d n; direction = d })

unfoldable pub list_next : ListIter → M (Option ℕ × ListIter)
list_next i = step_from i.next i.direction

-- Whether a node is the one that listSearchKey looks for.
abbrev pub matches : Option (ℕ → ℕ → Bool) → ℕ → ℕ → Bool
matches none key v = key == v
matches (some m) key v = m v key

-- A round of listSearchKey with the node that listNext gave, before the `rest`.
abbrev pub search_at : AdList → ℕ → Option ℕ → M (Option ℕ) → M (Option ℕ)
search_at l key none rest = pure none
search_at l key (some a) rest = do
  n ← load (some a)
  if matches l.match key n.value then pure (some a) else rest

-- `while((node = listNext(&iter)) != NULL)`; the fuel is a bound on the rounds, and `none` a fault or
-- an end of the fuel.
unfoldable pub search_loop : ℕ → AdList → ℕ → ListIter → M (Option ℕ)
search_loop zero l key i h = none
search_loop (suc fuel) l key i h =
    (list_next i >>= λ r. search_at l key r.0 (search_loop fuel l key r.1)) h

unfoldable pub list_search_key : AdList → ℕ → M (Option ℕ)
unfolding search_loop
list_search_key l key = search_loop (l.len + 1) l key (list_rewind l)

-- `while(index-- && n) n = n->next`, or `prev`.
unfoldable pub index_loop : ℕ → Direction → Option ℕ → M (Option ℕ)
index_loop zero d n = pure n
index_loop (suc index) d none = pure none
index_loop (suc index) d (some a) = load (some a) >>= λ n. index_loop index d (towards d n)

unfoldable pub list_index : AdList → ℤ → M (Option ℕ)
unfolding index_loop
list_index l (pos index) = index_loop index start_head l.head
list_index l (negsuc index) = index_loop index start_tail l.tail

-- The value of the copy; `none` for NULL from the `dup` method.
abbrev pub dup_value : Option (ℕ → Option ℕ) → ℕ → Option ℕ
dup_value none v = some v
dup_value (some dup) v = dup v

module _ (z : Zmalloc) where
  abbrev pub give_up : AdList → M (Option AdList)
  give_up copy = list_release copy >> pure none

  abbrev pub dup_added : AdList → Option AdList → (AdList → M (Option AdList)) → M (Option AdList)
  dup_added copy none rest = give_up copy
  dup_added copy (some copy') rest = rest copy'

  abbrev pub dup_copied : AdList → Option ℕ → (AdList → M (Option AdList)) → M (Option AdList)
  dup_copied copy none rest = give_up copy
  dup_copied copy (some value) rest =
      list_add_node_tail z copy value >>= λ added. dup_added copy added rest

  -- A round with the node that listNext gave, before the `rest`.
  abbrev pub dup_at : AdList → Option ℕ → (AdList → M (Option AdList)) → M (Option AdList)
  dup_at copy none rest = pure (some copy)
  dup_at copy (some a) rest = do
    n ← load (some a)
    dup_copied copy (dup_value copy.dup n.value) rest

  -- The fuel is a bound on the rounds.
  unfoldable pub dup_loop : ℕ → AdList → ListIter → M (Option AdList)
  dup_loop zero copy i h = none
  dup_loop (suc fuel) copy i h =
      (list_next i >>= λ r. dup_at copy r.0 λ copy'. dup_loop fuel copy' r.1) h

  abbrev pub dup_into : AdList → Option AdList → M (Option AdList)
  dup_into orig none = pure none
  dup_into orig (some copy) =
      dup_loop (orig.len + 1) (record copy { dup = orig.dup; free = orig.free; match = orig.match })
        (list_rewind orig)

  unfoldable pub list_dup : AdList → M (Option AdList)
  list_dup orig = list_create z >>= dup_into orig

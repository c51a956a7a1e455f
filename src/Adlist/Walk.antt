-- ===== src/Adlist/Walk.antt =====
-- adlist.c: the walks of a list, by the iterator, by listSearchKey and by listIndex.
use mathlib.Core.List.{reverse, reverse_aux}
use decompose_redis.Base.{
  ℕ, zero, suc, ◌+◌, ◌<◌, ◌≡◌, refl, ap, ◌∙◌, Bool, Bool-cases, inl, inr, List, [], ◌∷◌, ◌++◌, ◌==◌,
  Option, some, none, if◌then◌else◌, length, map, arith,
}
use decompose_redis.Base.Int.{pos, negsuc}
use decompose_redis.Adlist.{ListNode, node, Nodes, Heap, AdList, list_del_node, M, pure, ◌>>=◌}
use decompose_redis.Adlist.Iterate.{
  Direction, start_head, start_tail, ListIter, towards, list_get_iterator, list_next, matches,
  search_loop, list_search_key, index_loop, list_index,
}
use decompose_redis.Adlist.Chain.{Cells, first, last, Chain, Chain-split, IsAdList}
use decompose_redis.Adlist.Delete.{Deletes, list_del_node-Deletes}

-- From a pointer the nodes lead in a direction through the cells and to NULL.
abbrev pub Leads : Direction → Nodes → Option ℕ → Cells → Type 0
Leads d f c [] = c ≡ none
Leads d f c ((a, v) ∷ xs) =
    (c ≡ some a) × ((n : ListNode) × (f a ≡ some n) × (n.value ≡ v) × Leads d f (towards d n) xs)

-- The cells in the order of a direction.
abbrev pub in_order : Direction → Cells → Cells
in_order start_head xs = xs
in_order start_tail xs = reverse xs

pub Leads-head :
    (f : Nodes) (p : Option ℕ) (xs : Cells)
    → Chain f p xs none
    → Leads start_head f (first xs none) xs
Leads-head f p [] c = refl
Leads-head f p ((a, v) ∷ xs) c =
    (refl, (node p (first xs none) v, c.0, refl, Leads-head f (some a) xs c.1))

Leads-tail :
    (f : Nodes) (p : Option ℕ) (xs : Cells) (q : Option ℕ) (r : Cells)
    → Chain f p xs q
    → Leads start_tail f p r
    → Leads start_tail f (last p xs) (reverse_aux xs r)
Leads-tail f p [] q r c k = k
Leads-tail f p ((a, v) ∷ xs) q r c k =
    Leads-tail f (some a) xs q ((a, v) ∷ r) c.1 (refl, (node p (first xs q) v, c.0, refl, k))

pub IsAdList-Leads :
    (f : Nodes) (l : AdList) (xs : Cells) (d : Direction)
    → IsAdList f l xs
    → Leads d f (list_get_iterator l d).next (in_order d xs)
IsAdList-Leads f l xs start_head is = rw is.head (Leads-head f none xs is.chain)
IsAdList-Leads f l xs start_tail is = rw is.tail (Leads-tail f none xs none [] is.chain refl)

-- The address of the first cell whose value a test accepts.
abbrev pub find_cell : (ℕ → Bool) → Cells → Option ℕ
find_cell test [] = none
find_cell test ((a, v) ∷ xs) = if test v then some a else find_cell test xs

-- The method is asked about a node's value and the key, in this order.
abbrev pub accepted : Option (ℕ → ℕ → Bool) → ℕ → ℕ → Bool
accepted none key v = v == key
accepted (some match) key v = match v key

matches_lem : (m : Option (ℕ → ℕ → Bool)) (key v : ℕ) → matches m key v ≡ accepted m key v
matches_lem none key v = ground arith
matches_lem (some m) key v = refl

search_loop_lem :
    (fuel : ℕ) (l : AdList) (key : ℕ) (d : Direction) (h : Heap) (c : Option ℕ) (xs : Cells)
    → Leads d h.nodes c xs
    → length xs < fuel
    → search_loop fuel l key (record { next = c; direction = d }) h
      ≡ some (find_cell (accepted l.match key) xs, h)
unfolding search_loop list_next
search_loop_lem zero l key d h c xs k r = absurd (omega arith)
search_loop_lem (suc fuel) l key d h c [] k r = rw k refl
search_loop_lem (suc fuel) l key d h c ((a, v) ∷ xs) (e, (n, at, val, k)) r =
    let same = ap (matches l.match key) val ∙ matches_lem l.match key v in
    elim (Bool-cases (accepted l.match key v)) [
      | inl y ↦ rw (e, at, at, same, y) refl
      | inr y ↦
          rw (e, at, at, same, y, search_loop_lem fuel l key d h (towards d n) xs k (omega arith))
            refl
    ]

-- listSearchKey always ends: it gives the first node from the head whose value the `match` method
-- accepts, or, without a method, equals the key; and NULL when there is none. The heap is as before.
pub list_search_key-first :
    (h : Heap) (l : AdList) (xs : Cells) (key : ℕ)
    → IsAdList h.nodes l xs
    → list_search_key l key h ≡ some (find_cell (accepted l.match key) xs, h)
unfolding list_search_key
list_search_key-first h l xs key is =
    search_loop_lem (l.len + 1) l key start_head h l.head xs
      (IsAdList-Leads h.nodes l xs start_head is) (omega (arith, is.len))

-- The address of a cell, or NULL behind the last.
abbrev pub address : ℕ → Cells → Option ℕ
address i [] = none
address zero ((a, v) ∷ xs) = some a
address (suc i) ((a, v) ∷ xs) = address i xs

index_loop_lem :
    (i : ℕ) (d : Direction) (h : Heap) (c : Option ℕ) (xs : Cells)
    → Leads d h.nodes c xs
    → index_loop i d c h ≡ some (address i xs, h)
unfolding index_loop
index_loop_lem zero d h c [] k = rw k refl
index_loop_lem zero d h c ((a, v) ∷ xs) k = rw k.0 refl
index_loop_lem (suc i) d h c [] k = rw k refl
index_loop_lem (suc i) d h c ((a, v) ∷ xs) (e, (n, at, val, k)) =
    rw (e, at, index_loop_lem i d h (towards d n) xs k) refl

-- listIndex: an index from 0 gives the node at that place from the head, -1 the last node, -2 the one
-- before, and so on; beyond the ends the result is NULL. The heap is as before.
pub list_index-address :
    (h : Heap) (l : AdList) (xs : Cells) (i : ℕ)
    → IsAdList h.nodes l xs
    → (list_index l (pos i) h ≡ some (address i xs, h))
      × (list_index l (negsuc i) h ≡ some (address i (reverse xs), h))
unfolding list_index
list_index-address h l xs i is = (
  index_loop_lem i start_head h l.head xs (IsAdList-Leads h.nodes l xs start_head is),
  index_loop_lem i start_tail h l.tail (reverse xs) (IsAdList-Leads h.nodes l xs start_tail is),
)

abbrev visit_at : Option ℕ → M (List ℕ) → M (List ℕ)
visit_at none rest = pure []
visit_at (some a) rest = rest >>= λ more. pure (a ∷ more)

-- The nodes that listNext gives until it gives NULL, in at most `fuel` calls.
unfoldable pub visited : ℕ → ListIter → M (List ℕ)
visited zero i h = none
visited (suc fuel) i h = (list_next i >>= λ r. visit_at r.0 (visited fuel r.1)) h

visited_lem :
    (fuel : ℕ) (d : Direction) (h : Heap) (c : Option ℕ) (xs : Cells)
    → Leads d h.nodes c xs
    → length xs < fuel
    → visited fuel (record { next = c; direction = d }) h ≡ some (map (λ x. x.0) xs, h)
unfolding visited list_next
visited_lem zero d h c xs k r = absurd (omega arith)
visited_lem (suc fuel) d h c [] k r = rw k refl
visited_lem (suc fuel) d h c ((a, v) ∷ xs) (e, (n, at, val, k)) r =
    rw (e, at, visited_lem fuel d h (towards d n) xs k (omega arith)) refl

length-reverse_aux : (xs ys : Cells) → length (reverse_aux xs ys) ≡ length xs + length ys
length-reverse_aux [] ys = omega arith
length-reverse_aux (x ∷ xs) ys = omega (arith, length-reverse_aux xs (x ∷ ys))

length-in_order : (d : Direction) (xs : Cells) → length (in_order d xs) ≡ length xs
length-in_order start_head xs = refl
length-in_order start_tail xs = length-reverse_aux xs [] ∙ omega arith

-- From listGetIterator of a list, listNext gives every node once and then NULL: from the head in the
-- order of the list, from the tail in the reverse order. The heap is as before.
pub list_next-visits :
    (h : Heap) (l : AdList) (xs : Cells) (d : Direction)
    → IsAdList h.nodes l xs
    → visited (length xs + 1) (list_get_iterator l d) h ≡ some (map (λ x. x.0) (in_order d xs), h)
list_next-visits h l xs start_head is =
    visited_lem (length xs + 1) start_head h l.head xs (IsAdList-Leads h.nodes l xs start_head is)
      (omega arith)
list_next-visits h l xs start_tail is =
    visited_lem (length xs + 1) start_tail h l.tail (reverse xs)
      (IsAdList-Leads h.nodes l xs start_tail is) (omega (arith, length-in_order start_tail xs))

-- What listNext gives at a node of the list, and the iterator that it leaves.
pub record Steps (h : Heap) (l : AdList) (i : ListIter) (o w : ℕ) (xs ys : Cells) : Type 0 where
  pub iter : ListIter
  pub returns : list_next i h ≡ some ((some o, iter), h)
  pub deleted : Deletes h l o w (xs ++ ys) (list_del_node l o h)
  pub rest : Leads start_head deleted.heap.nodes iter.next ys

-- A walk from the head may delete the node that listNext has just given: the iterator then goes on
-- with the nodes that stood behind that one, in the list without it.
pub list_next-list_del_node :
    (h : Heap) (l : AdList) (xs : Cells) (o w : ℕ) (ys : Cells)
    → IsAdList h.nodes l (xs ++ (o, w) ∷ ys)
    → Steps h l (record { next = some o; direction = start_head }) o w xs ys
unfolding list_next
list_next-list_del_node h l xs o w ys is =
    let del = list_del_node-Deletes h l xs o w ys is in
    let at = (Chain-split h.nodes none xs ((o, w) ∷ ys) none is.chain).1.0 in
    let behind = (Chain-split del.heap.nodes none xs ys none del.stands.chain).1 in
    record {
      iter = record { next = first ys none; direction = start_head };
      returns = rw at refl;
      deleted = del;
      rest = Leads-head del.heap.nodes (last none xs) ys behind;
    }

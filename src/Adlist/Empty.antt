-- ===== src/Adlist/Empty.antt =====
-- adlist.c: listEmpty and listRelease give all nodes back.
use decompose_redis.Base.{
  ℕ, ◌≡◌, refl, ◌∙◌, Bool, true, false, Bool-cases, inl, inr, List, [], ◌∷◌, Option, some, none,
  ◌==◌, if◌then◌else◌, length, arith,
}
use decompose_redis.Adlist.{Nodes, Heap, write, AdList, empty_loop, list_empty, list_release}
use decompose_redis.Adlist.Chain.{
  Cells, has, Distinct, first, Chain, IsAdList, frame-write, write_ne, not_has-cons, ne_comm,
}
use decompose_redis.Adlist.Delete.{call_free_lem}

-- The nodes without those of the cells, and the calls of `free` with their values behind earlier ones.
abbrev pub erase : Nodes → Cells → Nodes
erase f [] = f
erase f ((a, v) ∷ xs) = erase (write f a none) xs

abbrev pub freeing : Bool → Cells → List ℕ → List ℕ
freeing free [] log = log
freeing free ((a, v) ∷ xs) log = freeing free xs (if free then v ∷ log else log)

pub erase-outside : (f : Nodes) (xs : Cells) (b : ℕ) → has b xs ≡ false → erase f xs b ≡ f b
erase-outside f [] b h = refl
erase-outside f ((a, v) ∷ xs) b h =
    let p = not_has-cons b a v xs h in
    erase-outside (write f a none) xs b p.1 ∙ write_ne f a b none (ne_comm b a p.0)

erase-none : (f : Nodes) (xs : Cells) (b : ℕ) → f b ≡ none → erase f xs b ≡ none
erase-none f [] b e = e
erase-none f ((a, v) ∷ xs) b e = erase-none (write f a none) xs b (ground (arith, e))

pub erase-gone : (f : Nodes) (xs : Cells) (b : ℕ) → has b xs ≡ true → erase f xs b ≡ none
erase-gone f [] b h = absurd (ground arith)
erase-gone f ((a, v) ∷ xs) b h = elim (Bool-cases (b == a)) [
  | inl e ↦ erase-none (write f a none) xs b (ground arith)
  | inr e ↦ erase-gone (write f a none) xs b (ground arith)
]

empty_loop_lem :
    (h : Heap) (free : Bool) (p : Option ℕ) (xs : Cells)
    → Chain h.nodes p xs none
    → Distinct xs
    → empty_loop free (length xs) (first xs none) h
      ≡ some (tt, record { nodes = erase h.nodes xs; freed = freeing free xs h.freed })
unfolding empty_loop
empty_loop_lem h free p [] c d = refl
empty_loop_lem h free p ((a, v) ∷ xs) c d =
    let freed : List ℕ = if free then v ∷ h.freed else h.freed in
    let h' : Heap = record { nodes = write h.nodes a none; freed = freed } in
    let rest =
      empty_loop_lem h' free (some a) xs (frame-write h.nodes (some a) xs none a none c.1 d.0)
        d.1 in
    rw (c.0, call_free_lem free v h, c.0, rest) refl

-- A list is emptied or released: the heap is the same whichever it is.
pub record Empties (h : Heap) (l : AdList) (xs : Cells) : Type 0 where
  pub heap : Heap
  pub empties : list_empty l h ≡ some (record l { head = none; tail = none; len = 0 }, heap)
  pub releases : list_release l h ≡ some (tt, heap)
  pub gone : (b : ℕ) → has b xs ≡ true → heap.nodes b ≡ none
  pub outside : (b : ℕ) → has b xs ≡ false → heap.nodes b ≡ h.nodes b
  pub freed : heap.freed ≡ freeing l.free xs h.freed

-- listEmpty and listRelease of a list end without a fault: every node of the list is given back and no
-- other changes, `free` is called on every value once, in order, if the list has that method, and
-- what listEmpty leaves is empty.
pub list_empty-Empties :
    (h : Heap) (l : AdList) (xs : Cells) → IsAdList h.nodes l xs → Empties h l xs
unfolding list_empty list_release
list_empty-Empties h l xs is =
    let run = empty_loop_lem h l.free none xs is.chain is.distinct in
    record {
      heap = record { nodes = erase h.nodes xs; freed = freeing l.free xs h.freed };
      empties = rw (is.len, is.head, run) refl;
      releases = rw (is.len, is.head, run) refl;
      gone = erase-gone h.nodes xs;
      outside = erase-outside h.nodes xs;
      freed = refl;
    }

-- ===== src/Adlist/Delete.antt =====
-- adlist.c: listDelNode takes one cell out.
use decompose_redis.Base.{
  ℕ, ◌+◌, ◌-◌, ◌%◌, ◌≡◌, refl, sym, ap, ◌∙◌, Bool, true, false, [], ◌∷◌, ◌++◌, Option, some, none,
  if◌then◌else◌, length-append, arith,
}
use decompose_redis.Adlist.{
  node, Nodes, Heap, write, AdList, len_mod, if_null, call_free, list_del_node,
}
use decompose_redis.Adlist.Relink.{
  patch_first, patch_last, patch_first-outside, patch_last-outside, Chain-patch_first,
  Chain-patch_last, link_prev-first, link_next-last,
}
use decompose_redis.Adlist.Chain.{
  Cells, has, first, last, Chain, IsAdList, frame, frame-write, write_self, write_ne, first-append,
  last-append, Chain-append, ne_comm, not_has-cons, not_has-split, Apart-has, Apart-not_has,
  Distinct-append,
}
use decompose_redis.Adlist.Insert.{IsAdList-Around}

pub call_free_lem :
    (b : Bool) (v : ℕ) (h : Heap)
    → call_free b v h ≡ some (tt, record h { freed = if b then v ∷ h.freed else h.freed })
call_free_lem true v h = refl
call_free_lem false v h = refl

-- A call that stands for `zs` when the node `o` with the value `w` has gone.
pub record Deletes (h : Heap) (l : AdList) (o w : ℕ) (zs : Cells) (r : Option (AdList × Heap))
    : Type 0 where
  pub heap : Heap
  pub list : AdList
  pub returns : r ≡ some (list, heap)
  pub stands : IsAdList heap.nodes list zs
  pub gone : heap.nodes o ≡ none
  pub outside : (b : ℕ) → has b ((o, w) ∷ zs) ≡ false → heap.nodes b ≡ h.nodes b
  pub freed : heap.freed ≡ (if l.free then w ∷ h.freed else h.freed)
  pub methods : (list.dup ≡ l.dup) × (list.free ≡ l.free) × (list.match ≡ l.match)

pub if_null-last : (x : ℕ) (xs : Cells) (q l : Option ℕ) → if_null (last (some x) xs) q l ≡ l
if_null-last x [] q l = refl
if_null-last x ((y, u) ∷ xs) q l = if_null-last y xs q l

first_without :
    (xs ys : Cells) (o : ℕ)
    → if_null (last none xs) (first ys none) (first xs (some o)) ≡ first (xs ++ ys) none
first_without [] ys o = refl
first_without ((x, u) ∷ xs) ys o = if_null-last x xs (first ys none) (some x)

last_without :
    (xs ys : Cells) (o : ℕ)
    → if_null (first ys none) (last none xs) (last (some o) ys) ≡ last none (xs ++ ys)
last_without xs [] o = sym (last-append none xs [])
last_without xs ((y, u) ∷ ys) o = sym (last-append none xs ((y, u) ∷ ys))

-- listDelNode of a node of a list: the list stands for the other cells in their order, the node is
-- given back, and no node outside the list changes. The value is freed if the list has a `free`
-- method, and else it is not.
pub list_del_node-Deletes :
    (h : Heap) (l : AdList) (xs : Cells) (o w : ℕ) (ys : Cells)
    → IsAdList h.nodes l (xs ++ (o, w) ∷ ys)
    → Deletes h l o w (xs ++ ys) (list_del_node l o h)
unfolding list_del_node
list_del_node-Deletes h l xs o w ys is =
    let k = IsAdList-Around h.nodes l xs o w ys is in
    let f1 : Nodes = patch_last h.nodes none xs (first ys none) in
    let f2 : Nodes = patch_first f1 ys (last none xs) in
    let f3 : Nodes = write f2 o none in
    let still : f1 o ≡ some (node (last none xs) (first ys none) w) =
      patch_last-outside h.nodes none xs (first ys none) o k.not_before ∙ k.at in
    let still2 : f2 o ≡ some (node (last none xs) (first ys none) w) =
      patch_first-outside f1 ys (last none xs) o k.not_behind ∙ still in
    let linked = link_next-last h xs (some o) (first ys none) k.before in
    let behind : Chain f1 (some o) ys none =
      frame h.nodes f1 (some o) ys none k.behind
        λ c i. patch_last-outside h.nodes none xs (first ys none) c (Apart-has c xs ys k.apart i) in
    let linked2 = link_prev-first (record h { nodes = f1 }) (some o) (last none xs) ys behind in
    let freeing = call_free_lem l.free w (record h { nodes = f2 }) in
    record {
      heap = record { nodes = f3; freed = if l.free then w ∷ h.freed else h.freed };
      list = record l {
        head = if_null (last none xs) (first ys none) l.head;
        tail = if_null (first ys none) (last none xs) l.tail;
        len = (l.len + (len_mod - 1)) % len_mod;
      };
      returns = rw (k.at, linked, still, linked2, freeing, still2) refl;
      stands = record {
        chain =
            Chain-append f3 none xs ys none
              (frame-write f2 none xs (first ys none) o none
                (frame f1 f2 none xs (first ys none)
                  (Chain-patch_last h.nodes none xs (some o) (first ys none) k.before
                    k.distinct_before)
                  λ c i.
                    patch_first-outside f1 ys (last none xs) c (Apart-not_has c xs ys k.apart i))
                k.not_before)
              (frame-write f2 (last none xs) ys none o none
                (Chain-patch_first f1 (some o) (last none xs) ys behind k.distinct_behind)
                k.not_behind);
        distinct = Distinct-append xs ys k.distinct_before k.distinct_behind k.apart;
        head =
            ap (if_null (last none xs) (first ys none))
              (is.head ∙ first-append xs ((o, w) ∷ ys) none)
            ∙ first_without xs ys o;
        tail =
            ap (if_null (first ys none) (last none xs))
              (is.tail ∙ last-append none xs ((o, w) ∷ ys))
            ∙ last_without xs ys o;
        len = omega (arith, is.len, is.fits, length-append xs ys, length-append xs ((o, w) ∷ ys));
        fits = omega (arith, is.fits, length-append xs ys, length-append xs ((o, w) ∷ ys));
      };
      gone = write_self f2 o none;
      outside = λ c q.
          let p = not_has-cons c o w (xs ++ ys) q in
          let p' = not_has-split c xs ys p.1 in
          write_ne f2 o c none (ne_comm c o p.0)
          ∙ patch_first-outside f1 ys (last none xs) c p'.1
          ∙ patch_last-outside h.nodes none xs (first ys none) c p'.0;
      freed = refl;
      methods = (refl, refl, refl);
    }

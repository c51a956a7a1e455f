-- ===== src/Adlist/Join.antt =====
-- adlist.c: listJoin puts one list behind another, and listRotate brings the last cell to the front.
use decompose_redis.Base.{
  ℕ, suc, ◌+◌, ◌%◌, ◌<◌, ◌≡◌, refl, sym, ap, ◌∙◌, false, [], ◌∷◌, ◌++◌, Option, some, none, leb,
  length, length-append, arith,
}
use decompose_redis.Adlist.{
  node, Nodes, Heap, write, AdList, len_mod, if_null, list_join, list_rotate,
}
use decompose_redis.Adlist.Relink.{
  patch_first, patch_last, patch_first-outside, patch_last-outside, Chain-patch_first,
  Chain-patch_last, link_prev-first, link_next-last, set_next-last,
}
use decompose_redis.Adlist.Chain.{
  Cells, has, first, last, Chain, IsAdList, frame, frame-write, write_self, write_ne, last-append,
  Chain-append, ne_comm, not_has-cons, not_has-split, Apart, Apart-has, Apart-not_has,
  Distinct-append,
}
use decompose_redis.Adlist.Insert.{IsAdList-Around}
use decompose_redis.Adlist.Delete.{if_null-last}

joined_head :
    (xs ys : Cells) → if_null (last none xs) (first ys none) (first xs none) ≡ first (xs ++ ys) none
joined_head [] ys = refl
joined_head ((x, u) ∷ xs) ys = if_null-last x xs (first ys none) (some x)

joined_tail :
    (xs ys : Cells) → if_null (last none ys) (last none xs) (last none ys) ≡ last none (xs ++ ys)
joined_tail xs [] = sym (last-append none xs [])
joined_tail xs ((y, u) ∷ ys) =
    if_null-last y ys (last none xs) (last (some y) ys) ∙ sym (last-append none xs ((y, u) ∷ ys))

-- A call that leaves the first list with all the cells and the second one empty, and touches no node
-- outside the two.
pub record Joins (h : Heap) (l o : AdList) (zs : Cells) (r : Option ((AdList × AdList) × Heap))
    : Type 0 where
  pub heap : Heap
  pub list : AdList
  pub other : AdList
  pub returns : r ≡ some ((list, other), heap)
  pub stands : IsAdList heap.nodes list zs
  pub empty : IsAdList heap.nodes other []
  pub outside : (b : ℕ) → has b zs ≡ false → heap.nodes b ≡ h.nodes b
  pub freed : heap.freed ≡ h.freed

-- listJoin of two lists with no node in common and fewer than 2 ^ 64 nodes together: the first stands
-- for its cells and those of the second behind them, the second is empty, no node outside the two
-- lists changes and no value is freed.
pub list_join-Joins :
    (h : Heap) (l o : AdList) (xs ys : Cells)
    → IsAdList h.nodes l xs
    → IsAdList h.nodes o ys
    → Apart xs ys
    → length xs + length ys < len_mod
    → Joins h l o (xs ++ ys) (list_join l o h)
unfolding list_join
list_join-Joins h l o xs ys is os apart room =
    let f1 : Nodes = patch_first h.nodes ys (last none xs) in
    let f2 : Nodes = patch_last f1 none xs (first ys none) in
    let linked = link_prev-first h none (last none xs) ys os.chain in
    let front : Chain f1 none xs none =
      frame h.nodes f1 none xs none is.chain
        λ c i. patch_first-outside h.nodes ys (last none xs) c (Apart-not_has c xs ys apart i) in
    let linked2 = link_next-last (record h { nodes = f1 }) xs none (first ys none) front in
    record {
      heap = record h { nodes = f2 };
      list = record l {
        head = if_null (last none xs) (first ys none) l.head;
        tail = if_null (last none ys) (last none xs) (last none ys);
        len = (l.len + o.len) % len_mod;
      };
      other = record o { head = none; tail = none; len = 0 };
      returns = rw (os.head, is.tail, os.tail, linked, linked2) refl;
      stands = record {
        chain =
            Chain-append f2 none xs ys none
              (Chain-patch_last f1 none xs none (first ys none) front is.distinct)
              (frame f1 f2 (last none xs) ys none
                (Chain-patch_first h.nodes none (last none xs) ys os.chain os.distinct)
                λ c i. patch_last-outside f1 none xs (first ys none) c (Apart-has c xs ys apart i));
        distinct = Distinct-append xs ys is.distinct os.distinct apart;
        head = ap (if_null (last none xs) (first ys none)) is.head ∙ joined_head xs ys;
        tail = joined_tail xs ys;
        len = omega (arith, is.len, os.len, length-append xs ys);
        fits = omega (arith, length-append xs ys);
      };
      empty = record {
        chain = tt;
        distinct = tt;
        head = refl;
        tail = refl;
        len = refl;
        fits = omega arith;
      };
      outside = λ c q.
          let p = not_has-split c xs ys q in
          patch_last-outside f1 none xs (first ys none) c p.0
          ∙ patch_first-outside h.nodes ys (last none xs) c p.1;
      freed = refl;
    }

-- A call that leaves the list with the cells `zs`, and touches no node outside them.
pub record Rotates (h : Heap) (l : AdList) (zs : Cells) (r : Option (AdList × Heap)) : Type 0 where
  pub heap : Heap
  pub list : AdList
  pub returns : r ≡ some (list, heap)
  pub stands : IsAdList heap.nodes list zs
  pub outside : (b : ℕ) → has b zs ≡ false → heap.nodes b ≡ h.nodes b
  pub freed : heap.freed ≡ h.freed

many_cells :
    (len : ℕ) (xs : Cells) (t w : ℕ) → len ≡ suc (length (xs ++ (t, w) ∷ [])) → leb len 1 ≡ false
many_cells len xs t w e =
    let two : 1 < len = omega (arith, length-append xs ((t, w) ∷ [])) in ground arith

rotate_more :
    (h : Heap) (l : AdList) (x u : ℕ) (xs : Cells) (t w : ℕ)
    → IsAdList h.nodes l (((x, u) ∷ xs) ++ (t, w) ∷ [])
    → Rotates h l ((t, w) ∷ (x, u) ∷ xs) (list_rotate l h)
unfolding list_rotate
rotate_more h l x u xs t w is =
    let whole : Cells = (x, u) ∷ xs in
    let k = IsAdList-Around h.nodes l whole t w [] is in
    let f1 : Nodes = patch_last h.nodes none whole none in
    let f2 : Nodes = patch_first f1 whole (some t) in
    let f3 : Nodes = write f2 t (some (node none none w)) in
    let f4 : Nodes = write f3 t (some (node none (some x) w)) in
    let tail_is : l.tail ≡ some t = is.tail ∙ last-append none whole ((t, w) ∷ []) in
    let many : leb l.len 1 ≡ false = many_cells l.len xs t w is.len in
    let alone : Chain f1 none whole none =
      Chain-patch_last h.nodes none whole (some t) none k.before k.distinct_before in
    let linked = set_next-last h none x u xs (some t) none k.before in
    let linked2 = link_prev-first (record h { nodes = f1 }) none (some t) whole alone in
    let still : f2 t ≡ some (node (last none whole) none w) =
      patch_first-outside f1 whole (some t) t k.not_before
      ∙ patch_last-outside h.nodes none whole none t k.not_before
      ∙ k.at in
    record {
      heap = record h { nodes = f4 };
      list = record l { head = some t; tail = last none whole };
      returns = rw (many, tail_is, k.at, linked, is.head, linked2, still, write_self f2 t _) refl;
      stands = record {
        chain = (
          write_self f3 t _,
          frame-write f3 (some t) whole none t _
              (frame-write f2 (some t) whole none t _
                (Chain-patch_first f1 none (some t) whole alone k.distinct_before) k.not_before)
              k.not_before,
        );
        distinct = (k.not_before, k.distinct_before);
        head = refl;
        tail = refl;
        len = omega (arith, is.len, length-append whole ((t, w) ∷ []));
        fits = omega (arith, is.fits, length-append whole ((t, w) ∷ []));
      };
      outside = λ c q.
          let p = not_has-cons c t w whole q in
          let tc = ne_comm c t p.0 in
          write_ne f3 t c _ tc
          ∙ write_ne f2 t c _ tc
          ∙ patch_first-outside f1 whole (some t) c p.1
          ∙ patch_last-outside h.nodes none whole none c p.1;
      freed = refl;
    }

-- listRotate: the last cell of the list stands in front of the others, whose order is kept; of a list of
-- one cell nothing changes. No node outside the list changes and no value is freed.
pub list_rotate-Rotates :
    (h : Heap) (l : AdList) (xs : Cells) (t w : ℕ)
    → IsAdList h.nodes l (xs ++ (t, w) ∷ [])
    → Rotates h l ((t, w) ∷ xs) (list_rotate l h)
unfolding list_rotate
list_rotate-Rotates h l [] t w is = record {
  heap = h;
  list = l;
  returns = rw is.len refl;
  stands = is;
  outside = λ b q. refl;
  freed = refl;
}
list_rotate-Rotates h l ((x, u) ∷ xs) t w is = rotate_more h l x u xs t w is

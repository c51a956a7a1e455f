-- ===== src/Adlist/Insert.antt =====
-- adlist.c: listInsertNode puts one cell before or behind another.
use decompose_redis.Base.{
  ℕ, ◌+◌, ◌%◌, ◌<◌, ◌≡◌, refl, sym, ap, ◌∙◌, Bool, true, false, Option-cases, inl, inr, [], ◌∷◌,
  ◌++◌, some, none, if◌then◌else◌, length, length-append, arith,
}
use decompose_redis.Adlist.{
  node, Nodes, Heap, write, AdList, Zmalloc, len_mod, same_ptr, list_insert_node,
}
use decompose_redis.Adlist.Relink.{
  patch_first, patch_last, patch_first-outside, patch_last-outside, Chain-patch_first,
  Chain-patch_last, link_prev-first, link_next-last,
}
use decompose_redis.Adlist.Chain.{
  Cells, has, Distinct, first, last, Chain, IsAdList, frame, frame-write, write_self, write_ne,
  first-append, last-append, Chain-append, Chain-split, has_ne, ne_comm, not_has-cons,
  not_has-split, Apart-cons, Apart-not_has, last_ne, Apart, Apart-has, Distinct-append,
  Distinct-split,
}
use decompose_redis.Adlist.Add.{Adds, AddsOr, Chain-fresh}

-- The facts on `xs`, a cell at `o` and `ys` in one list.
pub record Around (f : Nodes) (xs : Cells) (o w : ℕ) (ys : Cells) : Type 0 where
  pub before : Chain f none xs (some o)
  pub at : f o ≡ some (node (last none xs) (first ys none) w)
  pub behind : Chain f (some o) ys none
  pub distinct_before : Distinct xs
  pub distinct_behind : Distinct ys
  pub not_before : has o xs ≡ false
  pub not_behind : has o ys ≡ false
  pub apart : Apart xs ys

pub Apart-head :
    (xs : Cells) (o w : ℕ) (ys : Cells) → Apart xs ((o, w) ∷ ys) → (has o xs ≡ false) × Apart xs ys
Apart-head [] o w ys h = (refl, tt)
Apart-head ((b, v) ∷ xs) o w ys h =
    let rest = Apart-head xs o w ys h.1 in (ground arith, (ground arith, rest.1))

pub IsAdList-Around :
    (f : Nodes) (l : AdList) (xs : Cells) (o w : ℕ) (ys : Cells)
    → IsAdList f l (xs ++ (o, w) ∷ ys)
    → Around f xs o w ys
IsAdList-Around f l xs o w ys is =
    let c = Chain-split f none xs ((o, w) ∷ ys) none is.chain in
    let d = Distinct-split xs ((o, w) ∷ ys) is.distinct in
    let a = Apart-head xs o w ys d.2 in
    record {
      before = c.0;
      at = c.1.0;
      behind = c.1.1;
      distinct_before = d.0;
      distinct_behind = d.1.1;
      not_before = a.0;
      not_behind = d.1.0;
      apart = a.1;
    }

-- The tail after an insertion behind `o`.
tail_after :
    (o a : ℕ) (ys : Cells)
    → has o ys ≡ false
    → (if same_ptr (last (some o) ys) (some o) then some a else last (some o) ys) ≡ last (some a) ys
tail_after o a [] h = ground arith
tail_after o a ((y, u) ∷ ys) h = rw (last_ne o y u ys h) refl

-- The head after an insertion before `o`.
head_before :
    (o a : ℕ) (xs : Cells)
    → has o xs ≡ false
    → (if same_ptr (first xs (some o)) (some o) then some a else first xs (some o))
      ≡ first xs (some a)
head_before o a [] h = ground arith
head_before o a ((x, u) ∷ xs) h = rw (ne_comm o x (not_has-cons o x u xs h).0) refl

module _ (z : Zmalloc) where
  insert_after-Adds :
      (h : Heap) (l : AdList) (xs : Cells) (o w : ℕ) (ys : Cells) (v a : ℕ)
      → IsAdList h.nodes l (xs ++ (o, w) ∷ ys)
      → length (xs ++ (o, w) ∷ ys) + 1 < len_mod
      → z.malloc_node h.nodes ≡ some a
      → Adds h l a (xs ++ (o, w) ∷ (a, v) ∷ ys) (list_insert_node z l o v true h)
  unfolding list_insert_node
  insert_after-Adds h l xs o w ys v a is room e =
      let k = IsAdList-Around h.nodes l xs o w ys is in
      let new : has a (xs ++ (o, w) ∷ ys) ≡ false =
        Chain-fresh h.nodes none (xs ++ (o, w) ∷ ys) none a is.chain (z.fresh h.nodes a e) in
      let off = not_has-split a xs ((o, w) ∷ ys) new in
      let axs = off.0 in
      let ays = (not_has-cons a o w ys off.1).1 in
      let ao = (not_has-cons a o w ys off.1).0 in
      let oa = ne_comm a o ao in
      let f1 : Nodes = write h.nodes a (some (node (some o) (first ys none) v)) in
      let f2 : Nodes = write f1 o (some (node (last none xs) (some a) w)) in
      let f3 : Nodes = patch_first f2 ys (some a) in
      let behind : Chain f2 (some o) ys none =
        frame-write f1 (some o) ys none o _ (frame-write h.nodes (some o) ys none a _ k.behind ays)
          k.not_behind in
      let linked = link_prev-first (record h { nodes = f2 }) (some o) (some a) ys behind in
      let at_o : f3 o ≡ some (node (last none xs) (some a) w) =
        patch_first-outside f2 ys (some a) o k.not_behind ∙ write_self f1 o _ in
      let at_a : f3 a ≡ some (node (some o) (first ys none) v) =
        patch_first-outside f2 ys (some a) a ays ∙ write_ne f1 o a _ oa ∙ write_self h.nodes a _ in
      record {
        heap = record h { nodes = f3 };
        list = record l {
          tail = if same_ptr l.tail (some o) then some a else l.tail;
          len = (l.len + 1) % len_mod;
        };
        returns = rw (e, k.at, ao, k.at, linked) refl;
        stands = record {
          chain =
              Chain-append f3 none xs ((o, w) ∷ (a, v) ∷ ys) none
                (frame h.nodes f3 none xs (some o) k.before λ c i.
                  patch_first-outside f2 ys (some a) c (Apart-not_has c xs ys k.apart i)
                  ∙ write_ne f1 o c _ (ne_comm c o (has_ne c o xs i k.not_before))
                  ∙ write_ne h.nodes a c _ (ne_comm c a (has_ne c a xs i axs)))
                (at_o, (at_a, Chain-patch_first f2 (some o) (some a) ys behind k.distinct_behind));
          distinct =
              Distinct-append xs ((o, w) ∷ (a, v) ∷ ys) k.distinct_before
                (rw (oa, k.not_behind) refl, (ays, k.distinct_behind))
                (Apart-cons xs o w ((a, v) ∷ ys) k.not_before (Apart-cons xs a v ys axs k.apart));
          head =
              is.head
              ∙ first-append xs ((o, w) ∷ ys) none
              ∙ sym (first-append xs ((o, w) ∷ (a, v) ∷ ys) none);
          tail =
              ap (λ t. if same_ptr t (some o) then some a else t)
                (is.tail ∙ last-append none xs ((o, w) ∷ ys))
              ∙ tail_after o a ys k.not_behind
              ∙ sym (last-append none xs ((o, w) ∷ (a, v) ∷ ys));
          len = omega (
            arith,
            is.len,
            length-append xs ((o, w) ∷ ys),
            length-append xs ((o, w) ∷ (a, v) ∷ ys),
          );
          fits =
              omega
                (arith, length-append xs ((o, w) ∷ ys), length-append xs ((o, w) ∷ (a, v) ∷ ys));
        };
        spares = record {
          outside = λ c q.
              let p = not_has-split c xs ((o, w) ∷ (a, v) ∷ ys) q in
              let p' = not_has-cons c o w ((a, v) ∷ ys) p.1 in
              let p'' = not_has-cons c a v ys p'.1 in
              patch_first-outside f2 ys (some a) c p''.1
              ∙ write_ne f1 o c _ (ne_comm c o p'.0)
              ∙ write_ne h.nodes a c _ (ne_comm c a p''.0);
          freed = refl;
        };
        methods = (refl, refl, refl);
        unused = z.fresh h.nodes a e;
      }

  insert_before-Adds :
      (h : Heap) (l : AdList) (xs : Cells) (o w : ℕ) (ys : Cells) (v a : ℕ)
      → IsAdList h.nodes l (xs ++ (o, w) ∷ ys)
      → length (xs ++ (o, w) ∷ ys) + 1 < len_mod
      → z.malloc_node h.nodes ≡ some a
      → Adds h l a (xs ++ (a, v) ∷ (o, w) ∷ ys) (list_insert_node z l o v false h)
  unfolding list_insert_node
  insert_before-Adds h l xs o w ys v a is room e =
      let k = IsAdList-Around h.nodes l xs o w ys is in
      let new : has a (xs ++ (o, w) ∷ ys) ≡ false =
        Chain-fresh h.nodes none (xs ++ (o, w) ∷ ys) none a is.chain (z.fresh h.nodes a e) in
      let off = not_has-split a xs ((o, w) ∷ ys) new in
      let axs = off.0 in
      let ays = (not_has-cons a o w ys off.1).1 in
      let ao = (not_has-cons a o w ys off.1).0 in
      let oa = ne_comm a o ao in
      let f1 : Nodes = write h.nodes a (some (node (last none xs) (some o) v)) in
      let f2 : Nodes = patch_last f1 none xs (some a) in
      let f3 : Nodes = write f2 o (some (node (some a) (first ys none) w)) in
      let before = frame-write h.nodes none xs (some o) a _ k.before axs in
      let linked = link_next-last (record h { nodes = f1 }) xs (some o) (some a) before in
      let still : f2 o ≡ some (node (last none xs) (first ys none) w) =
        patch_last-outside f1 none xs (some a) o k.not_before ∙ write_ne h.nodes a o _ ao ∙ k.at in
      let at_a : f3 a ≡ some (node (last none xs) (some o) v) =
        write_ne f2 o a _ oa
        ∙ patch_last-outside f1 none xs (some a) a axs
        ∙ write_self h.nodes a _ in
      record {
        heap = record h { nodes = f3 };
        list = record l {
          head = if same_ptr l.head (some o) then some a else l.head;
          len = (l.len + 1) % len_mod;
        };
        returns = rw (e, k.at, linked, still) refl;
        stands = record {
          chain =
              Chain-append f3 none xs ((a, v) ∷ (o, w) ∷ ys) none
                (frame-write f2 none xs (some a) o _
                  (Chain-patch_last f1 none xs (some o) (some a) before k.distinct_before)
                  k.not_before)
                (
                  at_a,
                  (
                    write_self f2 o _,
                    frame h.nodes f3 (some o) ys none k.behind λ c i.
                        write_ne f2 o c _ (ne_comm c o (has_ne c o ys i k.not_behind))
                        ∙ patch_last-outside f1 none xs (some a) c (Apart-has c xs ys k.apart i)
                        ∙ write_ne h.nodes a c _ (ne_comm c a (has_ne c a ys i ays)),
                  ),
                );
          distinct =
              Distinct-append xs ((a, v) ∷ (o, w) ∷ ys) k.distinct_before
                (rw (ao, ays) refl, (k.not_behind, k.distinct_behind))
                (Apart-cons xs a v ((o, w) ∷ ys) axs (Apart-cons xs o w ys k.not_before k.apart));
          head =
              ap (λ t. if same_ptr t (some o) then some a else t)
                (is.head ∙ first-append xs ((o, w) ∷ ys) none)
              ∙ head_before o a xs k.not_before
              ∙ sym (first-append xs ((a, v) ∷ (o, w) ∷ ys) none);
          tail =
              is.tail
              ∙ last-append none xs ((o, w) ∷ ys)
              ∙ sym (last-append none xs ((a, v) ∷ (o, w) ∷ ys));
          len = omega (
            arith,
            is.len,
            length-append xs ((o, w) ∷ ys),
            length-append xs ((a, v) ∷ (o, w) ∷ ys),
          );
          fits =
              omega
                (arith, length-append xs ((o, w) ∷ ys), length-append xs ((a, v) ∷ (o, w) ∷ ys));
        };
        spares = record {
          outside = λ c q.
              let p = not_has-split c xs ((a, v) ∷ (o, w) ∷ ys) q in
              let p' = not_has-cons c a v ((o, w) ∷ ys) p.1 in
              let p'' = not_has-cons c o w ys p'.1 in
              write_ne f2 o c _ (ne_comm c o p''.0)
              ∙ patch_last-outside f1 none xs (some a) c p.0
              ∙ write_ne h.nodes a c _ (ne_comm c a p'.0);
          freed = refl;
        };
        methods = (refl, refl, refl);
        unused = z.fresh h.nodes a e;
      }

  -- listInsertNode beside a node of a list of fewer than 2 ^ 64 - 1 nodes: either zmalloc refuses, and
  -- the result is NULL and nothing has changed; or the list stands for its old cells with one of the
  -- value directly behind the node, or directly before it, at an address that held no node. No node
  -- outside the list changes, no value is freed and the methods stay.
  pub list_insert_node-Adds :
      (h : Heap) (l : AdList) (xs : Cells) (o w : ℕ) (ys : Cells) (v : ℕ) (after : Bool)
      → IsAdList h.nodes l (xs ++ (o, w) ∷ ys)
      → length (xs ++ (o, w) ∷ ys) + 1 < len_mod
      → AddsOr z h l
          (λ a. if after then xs ++ (o, w) ∷ (a, v) ∷ ys else xs ++ (a, v) ∷ (o, w) ∷ ys)
          (list_insert_node z l o v after h)
  unfolding list_insert_node
  list_insert_node-Adds h l xs o w ys v true is room = elim (Option-cases (z.malloc_node h.nodes)) [
    | inl e ↦ inl (e, rw e refl)
    | inr (a, e) ↦ inr (a, insert_after-Adds h l xs o w ys v a is room e)
  ]
  list_insert_node-Adds h l xs o w ys v false is room =
      elim (Option-cases (z.malloc_node h.nodes)) [
        | inl e ↦ inl (e, rw e refl)
        | inr (a, e) ↦ inr (a, insert_before-Adds h l xs o w ys v a is room e)
      ]

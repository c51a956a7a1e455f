-- ===== src/Adlist/Add.antt =====
-- adlist.c: listAddNodeHead, listAddNodeTail and listInsertNode put one cell in its place.
use decompose_redis.Base.{
  ℕ, ◌+◌, ◌%◌, ◌<◌, ◌≡◌, refl, sym, ap, ◌∙◌, ◌⊎◌, false, Bool-cases, Option-cases, inl, inr, [],
  ◌∷◌, ◌++◌, Option, some, none, ◌==◌, length, length-append, arith,
}
use decompose_redis.Adlist.{
  node, Nodes, Heap, write, AdList, Zmalloc, len_mod, list_add_node_head, list_add_node_tail,
}
use decompose_redis.Adlist.Relink.{patch_last, patch_last-outside, Chain-patch_last, set_next-last}
use decompose_redis.Adlist.Chain.{
  Apart-single, ne_comm, not_has-cons, not_has-split, Cells, has, first, last, Chain, IsAdList,
  frame-write, write_self, write_ne, last-append, Chain-append, Distinct-append,
}

-- What a call leaves of the heap: nodes outside `xs` are as they were, and no value has been freed.
pub record Spares (xs : Cells) (h h' : Heap) : Type 0 where
  pub outside : (b : ℕ) → has b xs ≡ false → h'.nodes b ≡ h.nodes b
  pub freed : h'.freed ≡ h.freed

-- A call that stands for `ys` in place of `xs`, where `ys` has a cell at the new address `a`.
pub record Adds (h : Heap) (l : AdList) (a : ℕ) (ys : Cells) (r : Option (Option AdList × Heap))
    : Type 0 where
  pub heap : Heap
  pub list : AdList
  pub returns : r ≡ some (some list, heap)
  pub stands : IsAdList heap.nodes list ys
  pub spares : Spares ys h heap
  pub methods : (list.dup ≡ l.dup) × (list.free ≡ l.free) × (list.match ≡ l.match)
  pub unused : h.nodes a ≡ none

-- A new cell at an address that holds no node, or NULL and nothing changed.
abbrev pub AddsOr : Zmalloc → Heap → AdList → (ℕ → Cells) → Option (Option AdList × Heap) → Type 0
AddsOr z h l ys r =
    ((z.malloc_node h.nodes ≡ none) × (r ≡ some (none, h))) ⊎ ((a : ℕ) × Adds h l a (ys a) r)

pub Chain-fresh :
    (f : Nodes) (p : Option ℕ) (xs : Cells) (q : Option ℕ) (a : ℕ)
    → Chain f p xs q
    → f a ≡ none
    → has a xs ≡ false
Chain-fresh f p [] q a c e = refl
Chain-fresh f p ((b, v) ∷ xs) q a c e = elim (Bool-cases (a == b)) [
  | inl h ↦ let s : a ≡ b = ground arith in ground (arith, ap f s, c.0)
  | inr h ↦ rw h (Chain-fresh f (some b) xs q a c.1 e)
]

module _ (z : Zmalloc) where
  add_head-Adds :
      (h : Heap) (l : AdList) (xs : Cells) (v a : ℕ)
      → IsAdList h.nodes l xs
      → length xs + 1 < len_mod
      → z.malloc_node h.nodes ≡ some a
      → Adds h l a ((a, v) ∷ xs) (list_add_node_head z l v h)
  unfolding list_add_node_head
  add_head-Adds h l [] v a is room e = record {
    heap = record h { nodes = write h.nodes a (some (node none none v)) };
    list = record l { head = some a; tail = some a; len = (l.len + 1) % len_mod };
    returns = rw (e, is.len) refl;
    stands = record {
      chain = (write_self h.nodes a _, tt);
      distinct = (refl, tt);
      head = refl;
      tail = refl;
      len = omega (arith, is.len);
      fits = omega arith;
    };
    spares = record { outside = λ b o. ground arith; freed = refl };
    methods = (refl, refl, refl);
    unused = z.fresh h.nodes a e;
  }
  add_head-Adds h l ((b, w) ∷ xs) v a is room e =
      let new : has a ((b, w) ∷ xs) ≡ false =
        Chain-fresh h.nodes none ((b, w) ∷ xs) none a is.chain (z.fresh h.nodes a e) in
      let ab : (a == b) ≡ false = ground arith in
      let ba : (b == a) ≡ false = ground arith in
      let some_len : (l.len == 0) ≡ false = ground (arith, is.len) in
      let f1 : Nodes = write h.nodes a (some (node none (some b) v)) in
      let f2 : Nodes = write f1 b (some (node (some a) (first xs none) w)) in
      record {
        heap = record h { nodes = f2 };
        list = record l { head = some a; len = (l.len + 1) % len_mod };
        returns = rw (e, some_len, is.head, ab, is.chain.0) refl;
        stands = record {
          chain = (
            write_ne f1 b a _ ba ∙ write_self h.nodes a _,
            (
              write_self f1 b _,
              frame-write f1 (some b) xs none b _
                  (frame-write h.nodes (some b) xs none a _ is.chain.1 (ground arith))
                  is.distinct.0,
            ),
          );
          distinct = (new, is.distinct);
          head = refl;
          tail = is.tail;
          len = omega (arith, is.len);
          fits = omega arith;
        };
        spares = record { outside = λ c o. ground arith; freed = refl };
        methods = (refl, refl, refl);
        unused = z.fresh h.nodes a e;
      }

  add_tail-Adds :
      (h : Heap) (l : AdList) (xs : Cells) (v a : ℕ)
      → IsAdList h.nodes l xs
      → length xs + 1 < len_mod
      → z.malloc_node h.nodes ≡ some a
      → Adds h l a (xs ++ (a, v) ∷ []) (list_add_node_tail z l v h)
  unfolding list_add_node_tail
  add_tail-Adds h l [] v a is room e = record {
    heap = record h { nodes = write h.nodes a (some (node none none v)) };
    list = record l { head = some a; tail = some a; len = (l.len + 1) % len_mod };
    returns = rw (e, is.len) refl;
    stands = record {
      chain = (write_self h.nodes a _, tt);
      distinct = (refl, tt);
      head = refl;
      tail = refl;
      len = omega (arith, is.len);
      fits = omega arith;
    };
    spares = record { outside = λ b o. ground arith; freed = refl };
    methods = (refl, refl, refl);
    unused = z.fresh h.nodes a e;
  }
  add_tail-Adds h l ((x, u) ∷ xs) v a is room e =
      let whole : Cells = (x, u) ∷ xs in
      let end : Option ℕ = last none whole in
      let new : has a whole ≡ false =
        Chain-fresh h.nodes none whole none a is.chain (z.fresh h.nodes a e) in
      let some_len : (l.len == 0) ≡ false = ground (arith, is.len) in
      let f1 : Nodes = write h.nodes a (some (node end none v)) in
      let f2 : Nodes = patch_last f1 none whole (some a) in
      let kept = frame-write h.nodes none whole none a (some (node end none v)) is.chain new in
      let linked = set_next-last (record h { nodes = f1 }) none x u xs none (some a) kept in
      let at : f2 a ≡ some (node end none v) =
        patch_last-outside f1 none whole (some a) a new ∙ write_self h.nodes a _ in
      record {
        heap = record h { nodes = f2 };
        list = record l { tail = some a; len = (l.len + 1) % len_mod };
        returns = rw (e, some_len, is.tail, linked) refl;
        stands = record {
          chain =
              Chain-append f2 none whole ((a, v) ∷ []) none
                (Chain-patch_last f1 none whole none (some a) kept is.distinct) (at, tt);
          distinct =
              Distinct-append whole ((a, v) ∷ []) is.distinct (refl, tt)
                (Apart-single whole a v new);
          head = is.head;
          tail = sym (last-append none whole ((a, v) ∷ []));
          len = omega (arith, is.len, length-append whole ((a, v) ∷ []));
          fits = omega (arith, length-append whole ((a, v) ∷ []));
        };
        spares = record {
          outside = λ c o.
              let off = not_has-split c whole ((a, v) ∷ []) o in
              patch_last-outside f1 none whole (some a) c off.0
              ∙ write_ne h.nodes a c _ (ne_comm c a (not_has-cons c a v [] off.1).0);
          freed = refl;
        };
        methods = (refl, refl, refl);
        unused = z.fresh h.nodes a e;
      }

  -- listAddNodeHead and listAddNodeTail on a list of fewer than 2 ^ 64 - 1 nodes: either zmalloc
  -- refuses, and the result is NULL and nothing has changed; or the list stands for its old cells and
  -- one with the value at its head or its tail, at an address that held no node. No other node
  -- changes, no value is freed and the methods stay.
  pub list_add_node-Adds :
      (h : Heap) (l : AdList) (xs : Cells) (v : ℕ)
      → IsAdList h.nodes l xs
      → length xs + 1 < len_mod
      → AddsOr z h l (λ a. (a, v) ∷ xs) (list_add_node_head z l v h)
        × AddsOr z h l (λ a. xs ++ (a, v) ∷ []) (list_add_node_tail z l v h)
  unfolding list_add_node_head list_add_node_tail
  list_add_node-Adds h l xs v is room = elim (Option-cases (z.malloc_node h.nodes)) [
    | inl e ↦ (inl (e, rw e refl), inl (e, rw e refl))
    | inr (a, e) ↦
        (inr (a, add_head-Adds h l xs v a is room e), inr (a, add_tail-Adds h l xs v a is room e))
  ]

-- ===== src/Adlist/Copy.antt =====
-- adlist.c: listDup copies a list, or leaves nothing of a copy.
use mathlib.Core.List.{append_assoc, append-nil}
use mathlib.Core.Path.{subst}
use decompose_redis.Base.{
  ℕ, zero, suc, ◌+◌, ◌<◌, ◌≡◌, refl, sym, ap, ◌∙◌, ◌⊎◌, true, false, ◌||◌, Bool-cases, Option-cases,
  inl, inr, List, [], ◌∷◌, ◌++◌, Option, some, none, length, length-append, map, take, arith,
}
use decompose_redis.Adlist.{ListNode, node, Heap, AdList, Zmalloc, len_mod, list_create}
use decompose_redis.Adlist.Iterate.{dup_value, dup_loop, give_up, start_head, list_dup, list_next}
use decompose_redis.Adlist.Chain.{Cells, has, first, Chain, IsAdList, not_has-split, has-append}
use decompose_redis.Adlist.Empty.{freeing, list_empty-Empties}
use decompose_redis.Adlist.Add.{Adds, list_add_node-Adds}

-- Beside the heap `h0` of the start a copy stands for the cells `ys`.
pub record Copying (h0 h : Heap) (copy : AdList) (ys : Cells) : Type 0 where
  pub stands : IsAdList h.nodes copy ys
  pub same : (b : ℕ) → has b ys ≡ false → h.nodes b ≡ h0.nodes b
  pub new : (b : ℕ) → has b ys ≡ true → h0.nodes b ≡ none
  pub freed : h.freed ≡ h0.freed

abbrev pub values : (ℕ → Option ℕ) → Cells → List (Option ℕ)
values f xs = map (λ x. f x.1) xs

-- What the method gives for a value, or without a method the value itself.
abbrev pub duplicated : Option (ℕ → Option ℕ) → ℕ → Option ℕ
duplicated none v = some v
duplicated (some dup) v = dup v

dup_value_lem : (d : Option (ℕ → Option ℕ)) (v : ℕ) → dup_value d v ≡ duplicated d v
dup_value_lem none v = refl
dup_value_lem (some dup) v = refl

-- The cells `ys` have been copied before, and those of `xs` are copied too.
pub record Copied (h0 : Heap) (copy : AdList) (ys xs : Cells) (r : Option (Option AdList × Heap))
    : Type 0 where
  pub heap : Heap
  pub list : AdList
  pub more : Cells
  pub returns : r ≡ some (some list, heap)
  pub copying : Copying h0 heap list (ys ++ more)
  pub same_values : values some more ≡ values (duplicated copy.dup) xs
  pub methods : (list.dup ≡ copy.dup) × (list.free ≡ copy.free) × (list.match ≡ copy.match)

-- The result is NULL after the first cells of `xs`: every node is as it was at the start.
pub record Undone (h0 : Heap) (copy : AdList) (ys xs : Cells) (r : Option (Option AdList × Heap))
    : Type 0 where
  pub heap : Heap
  pub more : Cells
  pub returns : r ≡ some (none, heap)
  pub same : (b : ℕ) → heap.nodes b ≡ h0.nodes b
  pub same_values : values some more ≡ take (length more) (values (duplicated copy.dup) xs)
  pub freed : heap.freed ≡ freeing copy.free (ys ++ more) h0.freed

last_one : (b a v : ℕ) (ys : Cells) → has b (ys ++ (a, v) ∷ []) ≡ true → has b ys ≡ false → b ≡ a
last_one b a v ys i n =
    let parts : (has b ys || has b ((a, v) ∷ [])) ≡ true =
      sym (has-append b ys ((a, v) ∷ [])) ∙ i in
    ground arith

module _ (z : Zmalloc) where
  give_up-Undone :
      (h0 h : Heap) (copy : AdList) (ys xs : Cells)
      → Copying h0 h copy ys
      → Undone h0 copy ys xs (give_up z copy h)
  give_up-Undone h0 h copy ys xs c =
      let e = list_empty-Empties h copy ys c.stands in
      record {
        heap = e.heap;
        more = [];
        returns = rw e.releases refl;
        same = λ b. elim (Bool-cases (has b ys)) [
          | inl i ↦ e.gone b i ∙ sym (c.new b i)
          | inr i ↦ e.outside b i ∙ c.same b i
        ];
        same_values = refl;
        freed =
            e.freed
            ∙ ap (freeing copy.free ys) c.freed
            ∙ ap (λ zs. freeing copy.free zs h0.freed) (sym (append-nil ys));
      }

  -- listAddNodeTail has put one more cell in the copy.
  Adds-Copying :
      (h0 h : Heap) (copy : AdList) (ys : Cells) (a v : ℕ) (r : Option (Option AdList × Heap))
      → Copying h0 h copy ys
      → (k : Adds h copy a (ys ++ (a, v) ∷ []) r) → Copying h0 k.heap k.list (ys ++ (a, v) ∷ [])
  Adds-Copying h0 h copy ys a v r c k = record {
    stands = k.stands;
    same = λ b o. k.spares.outside b o ∙ c.same b (not_has-split b ys ((a, v) ∷ []) o).0;
    new = λ b i. elim (Bool-cases (has b ys)) [
      | inl y ↦ c.new b y
      | inr n ↦
          let eq : b ≡ a = last_one b a v ys i n in sym (c.same b n) ∙ ap h.nodes eq ∙ k.unused
    ];
    freed = k.spares.freed ∙ c.freed;
  }

  Copied-more :
      (h0 : Heap) (copy list : AdList) (ys : Cells) (a v w x : ℕ) (xs : Cells)
      (r : Option (Option AdList × Heap))
      → (list.dup ≡ copy.dup) × (list.free ≡ copy.free) × (list.match ≡ copy.match)
      → duplicated copy.dup w ≡ some v
      → Copied h0 list (ys ++ (a, v) ∷ []) xs r
      → Copied h0 copy ys ((x, w) ∷ xs) r
  Copied-more h0 copy list ys a v w x xs r m e k = record {
    heap = k.heap;
    list = k.list;
    more = (a, v) ∷ k.more;
    returns = k.returns;
    copying = subst (Copying h0 k.heap k.list) (append_assoc ys ((a, v) ∷ []) k.more) k.copying;
    same_values =
        ap (◌∷◌ (some v)) (k.same_values ∙ ap (λ d. values (duplicated d) xs) m.0)
        ∙ ap (λ o. o ∷ values (duplicated copy.dup) xs) (sym e);
    methods = (k.methods.0 ∙ m.0, k.methods.1 ∙ m.1, k.methods.2 ∙ m.2);
  }

  Undone-more :
      (h0 : Heap) (copy list : AdList) (ys : Cells) (a v w x : ℕ) (xs : Cells)
      (r : Option (Option AdList × Heap))
      → (list.dup ≡ copy.dup) × (list.free ≡ copy.free) × (list.match ≡ copy.match)
      → duplicated copy.dup w ≡ some v
      → Undone h0 list (ys ++ (a, v) ∷ []) xs r
      → Undone h0 copy ys ((x, w) ∷ xs) r
  Undone-more h0 copy list ys a v w x xs r m e k = record {
    heap = k.heap;
    more = (a, v) ∷ k.more;
    returns = k.returns;
    same = k.same;
    same_values =
        ap (◌∷◌ (some v))
          (k.same_values ∙ ap (λ d. take (length k.more) (values (duplicated d) xs)) m.0)
        ∙ ap (λ o. o ∷ take (length k.more) (values (duplicated copy.dup) xs)) (sym e);
    freed =
        k.freed
        ∙ ap (λ b. freeing b (ys ++ (a, v) ∷ [] ++ k.more) h0.freed) m.1
        ∙ ap (λ zs. freeing copy.free zs h0.freed) (append_assoc ys ((a, v) ∷ []) k.more);
  }

  still_there :
      (h0 h : Heap) (copy : AdList) (ys : Cells) (x : ℕ) (n : ListNode)
      → Copying h0 h copy ys
      → h0.nodes x ≡ some n
      → h.nodes x ≡ some n
  still_there h0 h copy ys x n c e = elim (Bool-cases (has x ys)) [
    | inl i ↦ let gone = c.new x i in cc
    | inr i ↦ c.same x i ∙ e
  ]

  dup_loop_lem :
      (fuel : ℕ) (h0 h : Heap) (copy : AdList) (p : Option ℕ) (ys xs : Cells)
      → Copying h0 h copy ys
      → Chain h0.nodes p xs none
      → length ys + length xs < len_mod
      → length xs < fuel
      → Copied h0 copy ys xs
          (dup_loop z fuel copy (record { next = first xs none; direction = start_head }) h)
        ⊎ Undone h0 copy ys xs
            (dup_loop z fuel copy (record { next = first xs none; direction = start_head }) h)
  unfolding dup_loop list_next
  dup_loop_lem zero h0 h copy p ys xs c k room r = absurd (omega arith)
  dup_loop_lem (suc fuel) h0 h copy p ys [] c k room r = inl (record {
    heap = h;
    list = copy;
    more = [];
    returns = refl;
    copying = subst (Copying h0 h copy) (sym (append-nil ys)) c;
    same_values = refl;
    methods = (refl, refl, refl);
  })
  dup_loop_lem (suc fuel) h0 h copy p ys ((x, w) ∷ xs) c k room r =
      let at = still_there h0 h copy ys x (node p (first xs none) w) c k.0 in
      elim (Option-cases (dup_value copy.dup w)) [
        | inl e ↦ inr (rw (at, at, e) (give_up-Undone h0 h copy ys ((x, w) ∷ xs) c))
        | inr (v, e) ↦ elim (list_add_node-Adds z h copy ys v c.stands (omega arith)).1 [
          | inl (refused, e2) ↦
              inr (rw (at, at, e, e2) (give_up-Undone h0 h copy ys ((x, w) ∷ xs) c))
          | inr (a, add) ↦
              elim (dup_loop_lem fuel h0 add.heap add.list (some x) (ys ++ (a, v) ∷ []) xs
                (Adds-Copying h0 h copy ys a v _ c add) k.1
                (omega (arith, length-append ys ((a, v) ∷ []))) (omega arith)) [
                  | inl u ↦ inl (
                      rw (at, at, e, add.returns)
                        (Copied-more h0 copy add.list ys a v w x xs _ add.methods
                          (sym (dup_value_lem copy.dup w) ∙ e) u))
                  | inr u ↦ inr (
                      rw (at, at, e, add.returns)
                        (Undone-more h0 copy add.list ys a v w x xs _ add.methods
                          (sym (dup_value_lem copy.dup w) ∙ e) u))
                ]
        ]
      ]

  nothing_yet :
      (h : Heap) (l : AdList) → Copying h h (record l { head = none; tail = none; len = 0 }) []
  nothing_yet h l = record {
    stands = record {
      chain = tt;
      distinct = tt;
      head = refl;
      tail = refl;
      len = refl;
      fits = omega arith;
    };
    same = λ b o. refl;
    new = λ b i. absurd (ground arith);
    freed = refl;
  }

  -- listDup of a list ends without a fault in one of two ways. Either the copy stands for as many cells,
  -- whose values are those that the `dup` method gives for the values of the list, or without that
  -- method the same values; its nodes are none of the nodes there were, which all stay as they were;
  -- no value is freed and the methods are those of the list. Or the result is NULL and every node is
  -- as it was, the `free` method having been called for the values of the first copies.
  pub list_dup-copies :
      (h : Heap) (l : AdList) (xs : Cells)
      → IsAdList h.nodes l xs
      → Copied h l [] xs (list_dup z l h) ⊎ Undone h l [] xs (list_dup z l h)
  unfolding list_dup list_create
  list_dup-copies h l xs is =
      let copy : AdList = record l { head = none; tail = none; len = 0 } in
      elim (Bool-cases (z.malloc_list h.nodes)) [
        | inl y ↦
            elim (dup_loop_lem (l.len + 1) h h copy none [] xs (nothing_yet h l) is.chain
              (omega (arith, is.fits)) (omega (arith, is.len))) [
                | inl k ↦ inl (record {
                  heap = k.heap;
                  list = k.list;
                  more = k.more;
                  returns = rw (y, is.head) k.returns;
                  copying = k.copying;
                  same_values = k.same_values;
                  methods = k.methods;
                })
                | inr k ↦ inr (record {
                  heap = k.heap;
                  more = k.more;
                  returns = rw (y, is.head) k.returns;
                  same = k.same;
                  same_values = k.same_values;
                  freed = k.freed;
                })
              ]
        | inr n ↦ inr (record {
          heap = h;
          more = [];
          returns = rw n refl;
          same = λ b. refl;
          same_values = refl;
          freed = refl;
        })
      ]

-- ===== src/Adlist/Samples.antt =====
-- adlist.c: the theorems at a list of two nodes, and runs of the operations.
use mathlib.Core.Path.{subst}
use mathlib.Core.Option.{some-injective}
use decompose_redis.Base.{
  ℕ, ◌+◌, ◌≡◌, refl, ◌⊎◌, true, [], ◌∷◌, ◌++◌, Option, some, none, ◌==◌, if◌then◌else◌,
  Option-cases, inl, inr, arith,
}
use decompose_redis.Base.Int.{pos, negsuc}
use decompose_redis.Adlist.{
  ListNode, node, Nodes, Heap, AdList, Zmalloc, list_add_node_head, list_add_node_tail,
  list_insert_node, list_del_node, list_rotate, list_create,
}
use decompose_redis.Adlist.Iterate.{
  start_head, list_search_key, list_index, list_dup, dup_loop, list_next,
}
use decompose_redis.Adlist.Chain.{Cells, IsAdList}
use decompose_redis.Adlist.Add.{AddsOr, list_add_node-Adds}
use decompose_redis.Adlist.Insert.{list_insert_node-Adds}
use decompose_redis.Adlist.Delete.{Deletes, list_del_node-Deletes}
use decompose_redis.Adlist.Join.{Rotates, list_rotate-Rotates}
use decompose_redis.Adlist.Walk.{
  list_search_key-first, list_index-address, Steps, list_next-list_del_node,
}
use decompose_redis.Adlist.Empty.{Empties, list_empty-Empties}
use decompose_redis.Adlist.Copy.{Copied, Undone, list_dup-copies}

-- Nodes at 1, 2 and 3, of which the first two are a list and the third is one.
abbrev samples : Heap
samples = record {
  nodes = λ a.
      if a == 1
      then some (node none (some 2) 10)
      else if a == 2
      then some (node (some 1) none 20)
      else if a == 3
      then some (node none none 30)
      else none;
  freed = [];
}

abbrev two : AdList
two = record {
  head = some 1;
  tail = some 2;
  dup = some λ v. some (v + 1);
  free = true;
  match = none;
  len = 2;
}

abbrev single : AdList
single = record two { head = some 3; tail = some 3; len = 1 }

abbrev two_cells : Cells
two_cells = (1, 10) ∷ (2, 20) ∷ []

two-IsAdList : IsAdList samples.nodes two two_cells
two-IsAdList = record {
  chain = (refl, (refl, tt));
  distinct = (refl, (refl, tt));
  head = refl;
  tail = refl;
  len = refl;
  fits = omega arith;
}

single-IsAdList : IsAdList samples.nodes single ((3, 30) ∷ [])
single-IsAdList = record {
  chain = (refl, tt);
  distinct = (refl, tt);
  head = refl;
  tail = refl;
  len = refl;
  fits = omega arith;
}

-- The addresses from 5 to 7, as long as they are free.
abbrev free_of : Option ListNode → ℕ → Option ℕ → Option ℕ
free_of none a rest = some a
free_of (some n) a rest = rest

free_of-fresh :
    (f : Nodes) (a b : ℕ) (rest : Option ℕ)
    → free_of (f a) a rest ≡ some b
    → (rest ≡ some b → f b ≡ none)
    → f b ≡ none
free_of-fresh f a b rest e k = elim (Option-cases (f a)) [
  | inl q ↦
      let eq : some a ≡ some b = subst (λ o. free_of o a rest ≡ some b) q e in
      subst (λ c. f c ≡ none) (some-injective a b eq) q
  | inr (n, q) ↦ k (subst (λ o. free_of o a rest ≡ some b) q e)
]

abbrev small : Zmalloc
small = record {
  malloc_node = λ f. free_of (f 5) 5 (free_of (f 6) 6 none);
  malloc_list = λ f. true;
  fresh = λ f a e.
      free_of-fresh f 5 a _ e λ e2. free_of-fresh f 6 a none e2 λ e3. absurd (ground (arith, e3));
}

list_add_node-Adds_example :
    AddsOr small samples two (λ a. (a, 40) ∷ two_cells) (list_add_node_head small two 40 samples)
    × AddsOr small samples two
        (λ a. two_cells ++ (a, 40) ∷ [])
        (list_add_node_tail small two 40 samples)
list_add_node-Adds_example =
    list_add_node-Adds small samples two two_cells 40 two-IsAdList (omega arith)

list_insert_node-Adds_example :
    AddsOr small samples two
      (λ a. (1, 10) ∷ (a, 40) ∷ (2, 20) ∷ [])
      (list_insert_node small two 1 40 true samples)
list_insert_node-Adds_example =
    list_insert_node-Adds small samples two [] 1 10 ((2, 20) ∷ []) 40 true two-IsAdList
      (omega arith)

list_del_node-Deletes_example :
    Deletes samples two 2 20 ((1, 10) ∷ []) (list_del_node two 2 samples)
list_del_node-Deletes_example =
    list_del_node-Deletes samples two ((1, 10) ∷ []) 2 20 [] two-IsAdList

list_rotate-Rotates_example : Rotates samples two ((2, 20) ∷ (1, 10) ∷ []) (list_rotate two samples)
list_rotate-Rotates_example = list_rotate-Rotates samples two ((1, 10) ∷ []) 2 20 two-IsAdList

list_search_key-first_example : list_search_key two 20 samples ≡ some (some 2, samples)
list_search_key-first_example = list_search_key-first samples two two_cells 20 two-IsAdList

list_index-address_example :
    (list_index two (pos 1) samples ≡ some (some 2, samples))
    × (list_index two (negsuc 1) samples ≡ some (some 1, samples))
list_index-address_example = list_index-address samples two two_cells 1 two-IsAdList

list_next-list_del_node_example :
    Steps samples two (record { next = some 1; direction = start_head }) 1 10 [] ((2, 20) ∷ [])
list_next-list_del_node_example =
    list_next-list_del_node samples two [] 1 10 ((2, 20) ∷ []) two-IsAdList

list_empty-Empties_example : Empties samples two two_cells
list_empty-Empties_example = list_empty-Empties samples two two_cells two-IsAdList

list_dup-copies_example :
    Copied samples two [] two_cells (list_dup small two samples)
    ⊎ Undone samples two [] two_cells (list_dup small two samples)
list_dup-copies_example = list_dup-copies small samples two two_cells two-IsAdList

abbrev nodes_of : Option (Option AdList × Heap) → Option ListNode × Option ListNode
nodes_of none = (none, none)
nodes_of (some (l, h)) = (h.nodes 5, h.nodes 6)

dup_two :
    nodes_of (list_dup small two samples)
    ≡ (some (node none (some 6) 11), some (node (some 5) none 21))
unfolding list_dup list_create dup_loop list_next list_add_node_tail
dup_two = refl

-- ===== src/Ae/TimeEvents/Nodes.antt =====
-- ae.c: the timer list as the sequence of its nodes, under the reads and writes of a walk.
use decompose_redis.Base.{
  ℕ, ◌≡◌, ◌≢◌, refl, sym, ap, inl, inr, true, false, Bool-cases, List, [], ◌∷◌, ◌++◌, map, Option,
  some, none, ◌==◌, if◌then◌else◌, arith,
}
use decompose_redis.Ae.{TimeEvent}
use decompose_redis.Ae.TimeEvents.{find_node, head_node, next_node, unlink, update_node}

abbrev pub nodes : List TimeEvent → List ℕ
nodes = map λ te. te.node

abbrev pub NotIn : ℕ → List ℕ → Type 0
NotIn a [] = Unit {0}
NotIn a (b ∷ bs) = (b ≢ a) × NotIn a bs

-- No node stands twice in the list.
abbrev pub Distinct : List ℕ → Type 0
Distinct [] = Unit {0}
Distinct (a ∷ ns) = NotIn a ns × Distinct ns

abbrev pub head? : List ℕ → Option ℕ
head? [] = none
head? (a ∷ ns) = some a

pub Distinct-front : (pre : List ℕ) (a : ℕ) (suf : List ℕ) → Distinct (pre ++ a ∷ suf) → NotIn a pre
Distinct-front [] a suf d = tt
Distinct-front (b ∷ pre) a suf d = (apart pre d.0, Distinct-front pre a suf d.1)
  where
    apart : (p : List ℕ) → NotIn b (p ++ a ∷ suf) → b ≢ a
    apart [] n = λ e. n.0 (sym e)
    apart (c ∷ p) n = apart p n.1

pub NotIn-remove :
    (b : ℕ) (pre : List ℕ) (a : ℕ) (suf : List ℕ) → NotIn b (pre ++ a ∷ suf) → NotIn b (pre ++ suf)
NotIn-remove b [] a suf n = n.1
NotIn-remove b (c ∷ pre) a suf n = (n.0, NotIn-remove b pre a suf n.1)

pub Distinct-remove :
    (pre : List ℕ) (a : ℕ) (suf : List ℕ) → Distinct (pre ++ a ∷ suf) → Distinct (pre ++ suf)
Distinct-remove [] a suf d = d.1
Distinct-remove (b ∷ pre) a suf d = (NotIn-remove b pre a suf d.0, Distinct-remove pre a suf d.1)

pub head_node-nodes : (tes : List TimeEvent) → head_node tes ≡ head? (nodes tes)
head_node-nodes [] = refl
head_node-nodes (te ∷ tes) = refl

module _ (a : ℕ) (suf : List ℕ) where
  pub find_node-split :
      (pre : List ℕ) (tes : List TimeEvent)
      → nodes tes ≡ pre ++ a ∷ suf
      → (te : TimeEvent) × (find_node a tes ≡ some te) × (te.node ≡ a)
  unfolding find_node
  find_node-split [] [] e = cc
  find_node-split (p ∷ pre) [] e = cc
  find_node-split [] (te ∷ tes) e =
      let same : te.node ≡ a = ground arith in
      let hit : (te.node == a) ≡ true = ground arith in (te, rw hit, same)
  find_node-split (p ∷ pre) (te ∷ tes) e =
      let rest : nodes tes ≡ pre ++ a ∷ suf = ground arith in
      elim (Bool-cases (te.node == a)) [
        | inl hit ↦ (te, rw hit, ground arith)
        | inr miss ↦
            let (found, run, same) = find_node-split pre tes rest in (found, rw miss run, same)
      ]

  pub next_node-split :
      (pre : List ℕ) (tes : List TimeEvent)
      → nodes tes ≡ pre ++ a ∷ suf
      → NotIn a pre
      → next_node a tes ≡ head? suf
  unfolding next_node
  next_node-split [] [] e n = cc
  next_node-split (p ∷ pre) [] e n = cc
  next_node-split [] (te ∷ tes) e n =
      let hit : (te.node == a) ≡ true = ground arith in
      let rest : nodes tes ≡ suf = ground arith in rw (hit, ← rest) (head_node-nodes tes)
  next_node-split (p ∷ pre) (te ∷ tes) e n =
      let miss : (te.node == a) ≡ false = ground (arith, n.0) in
      rw miss (next_node-split pre tes (ground arith) n.1)

  pub unlink-split :
      (pre : List ℕ) (tes : List TimeEvent)
      → nodes tes ≡ pre ++ a ∷ suf
      → NotIn a pre
      → nodes (unlink a tes) ≡ pre ++ suf
  unfolding unlink
  unlink-split [] [] e n = cc
  unlink-split (p ∷ pre) [] e n = cc
  unlink-split [] (te ∷ tes) e n =
      let hit : (te.node == a) ≡ true = ground arith in rw hit (ground arith)
  unlink-split (p ∷ pre) (te ∷ tes) e n =
      let miss : (te.node == a) ≡ false = ground (arith, n.0) in
      rw (miss, unlink-split pre tes (ground arith) n.1) (ground arith)

-- Every event of a node is replaced, or taken out.
abbrev pub rewritten : ℕ → (TimeEvent → TimeEvent) → List TimeEvent → List TimeEvent
rewritten a f = map λ te. if te.node == a then f te else te

abbrev pub without : ℕ → List TimeEvent → List TimeEvent
without a [] = []
without a (te ∷ tes) = if te.node == a then without a tes else te ∷ without a tes

other_node : (a b : ℕ) → b ≢ a → (b == a) ≡ false
other_node a b n = ground (arith, n)

rewritten-absent :
    (a : ℕ) (f : TimeEvent → TimeEvent) (tes : List TimeEvent)
    → NotIn a (nodes tes)
    → rewritten a f tes ≡ tes
rewritten-absent a f [] n = refl
rewritten-absent a f (te ∷ tes) n =
    rw (other_node a te.node n.0) (ap (◌∷◌ te) (rewritten-absent a f tes n.1))

without-absent : (a : ℕ) (tes : List TimeEvent) → NotIn a (nodes tes) → without a tes ≡ tes
without-absent a [] n = refl
without-absent a (te ∷ tes) n =
    rw (other_node a te.node n.0) (ap (◌∷◌ te) (without-absent a tes n.1))

NotIn-eq : (a b : ℕ) (ns : List ℕ) → (b == a) ≡ true → NotIn b ns → NotIn a ns
NotIn-eq a b ns e n = let q : b ≡ a = ground arith in rw q at n

pub update_node-rewritten :
    (a : ℕ) (f : TimeEvent → TimeEvent) (tes : List TimeEvent)
    → Distinct (nodes tes)
    → update_node a f tes ≡ rewritten a f tes
unfolding update_node
update_node-rewritten a f [] d = refl
update_node-rewritten a f (te ∷ tes) d = elim (Bool-cases (te.node == a)) [
  | inl e ↦
      rw e (ap (◌∷◌ (f te)) (sym (rewritten-absent a f tes (NotIn-eq a te.node (nodes tes) e d.0))))
  | inr e ↦ rw e (ap (◌∷◌ te) (update_node-rewritten a f tes d.1))
]

pub unlink-without :
    (a : ℕ) (tes : List TimeEvent) → Distinct (nodes tes) → unlink a tes ≡ without a tes
unfolding unlink
unlink-without a [] d = refl
unlink-without a (te ∷ tes) d = elim (Bool-cases (te.node == a)) [
  | inl e ↦ rw e (sym (without-absent a tes (NotIn-eq a te.node (nodes tes) e d.0)))
  | inr e ↦ rw e (ap (◌∷◌ te) (unlink-without a tes d.1))
]

pub nodes-update_node :
    (a : ℕ) (f : TimeEvent → TimeEvent) (tes : List TimeEvent)
    → ((te : TimeEvent) → (f te).node ≡ te.node)
    → nodes (update_node a f tes) ≡ nodes tes
unfolding update_node
nodes-update_node a f [] keeps = refl
nodes-update_node a f (te ∷ tes) keeps = elim (Bool-cases (te.node == a)) [
  | inl e ↦ rw e (ap (λ n. n ∷ nodes tes) (keeps te))
  | inr e ↦ rw e (ap (◌∷◌ te.node) (nodes-update_node a f tes keeps))
]

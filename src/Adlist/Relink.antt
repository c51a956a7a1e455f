-- ===== src/Adlist/Relink.antt =====
-- adlist.c: the writes to the neighbours of a place in a list.
use decompose_redis.Base.{ℕ, ◌≡◌, refl, ◌∙◌, false, [], ◌∷◌, Option, some, none, arith}
use decompose_redis.Adlist.{node, Nodes, Heap, write, link_next, link_prev, set_next}
use decompose_redis.Adlist.Chain.{
  Cells, has, Distinct, first, last, Chain, frame-write, write_self, write_ne,
}

-- The nodes with `p` before the first of the cells.
abbrev pub patch_first : Nodes → Cells → Option ℕ → Nodes
patch_first f [] p = f
patch_first f ((a, v) ∷ xs) p = write f a (some (node p (first xs none) v))

-- The nodes with `q` behind the last of the cells, of which `p` stands before the first.
abbrev pub patch_last : Nodes → Option ℕ → Cells → Option ℕ → Nodes
patch_last f p [] q = f
patch_last f p ((a, v) ∷ []) q = write f a (some (node p q v))
patch_last f p ((a, v) ∷ (b, w) ∷ xs) q = patch_last f (some a) ((b, w) ∷ xs) q

pub patch_first-outside :
    (f : Nodes) (xs : Cells) (p : Option ℕ) (c : ℕ) → has c xs ≡ false → patch_first f xs p c ≡ f c
patch_first-outside f [] p c h = refl
patch_first-outside f ((a, v) ∷ xs) p c h = write_ne f a c _ (ground arith)

pub patch_last-outside :
    (f : Nodes) (p : Option ℕ) (xs : Cells) (q : Option ℕ) (c : ℕ)
    → has c xs ≡ false
    → patch_last f p xs q c ≡ f c
patch_last-outside f p [] q c h = refl
patch_last-outside f p ((a, v) ∷ []) q c h = write_ne f a c _ (ground arith)
patch_last-outside f p ((a, v) ∷ (b, w) ∷ xs) q c h =
    patch_last-outside f (some a) ((b, w) ∷ xs) q c (ground arith)

pub Chain-patch_first :
    (f : Nodes) (p p' : Option ℕ) (xs : Cells)
    → Chain f p xs none
    → Distinct xs
    → Chain (patch_first f xs p') p' xs none
Chain-patch_first f p p' [] c d = tt
Chain-patch_first f p p' ((a, v) ∷ xs) c d =
    (write_self f a _, frame-write f (some a) xs none a _ c.1 d.0)

pub Chain-patch_last :
    (f : Nodes) (p : Option ℕ) (xs : Cells) (q q' : Option ℕ)
    → Chain f p xs q
    → Distinct xs
    → Chain (patch_last f p xs q') p xs q'
Chain-patch_last f p [] q q' c d = tt
Chain-patch_last f p ((a, v) ∷ []) q q' c d = (write_self f a _, tt)
Chain-patch_last f p ((a, v) ∷ (b, w) ∷ xs) q q' c d = (
  patch_last-outside f (some a) ((b, w) ∷ xs) q' a d.0 ∙ c.0,
  Chain-patch_last f (some a) ((b, w) ∷ xs) q q' c.1 d.1,
)

pub link_prev-first :
    (h : Heap) (p p' : Option ℕ) (xs : Cells)
    → Chain h.nodes p xs none
    → link_prev (first xs none) p' h ≡ some (tt, record h { nodes = patch_first h.nodes xs p' })
link_prev-first h p p' [] c = refl
link_prev-first h p p' ((a, v) ∷ xs) c = rw c.0 refl

pub set_next-last :
    (h : Heap) (p : Option ℕ) (a v : ℕ) (xs : Cells) (q q' : Option ℕ)
    → Chain h.nodes p ((a, v) ∷ xs) q
    → set_next (last (some a) xs) q' h
      ≡ some (tt, record h { nodes = patch_last h.nodes p ((a, v) ∷ xs) q' })
set_next-last h p a v [] q q' c = rw c.0 refl
set_next-last h p a v ((b, w) ∷ xs) q q' c = set_next-last h (some a) b w xs q q' c.1

link_next-set_next :
    (a : ℕ) (xs : Cells) (q : Option ℕ) (h : Heap)
    → link_next (last (some a) xs) q h ≡ set_next (last (some a) xs) q h
link_next-set_next a [] q h = refl
link_next-set_next a ((b, w) ∷ xs) q h = link_next-set_next b xs q h

pub link_next-last :
    (h : Heap) (xs : Cells) (q q' : Option ℕ)
    → Chain h.nodes none xs q
    → link_next (last none xs) q' h ≡ some (tt, record h { nodes = patch_last h.nodes none xs q' })
link_next-last h [] q q' c = refl
link_next-last h ((a, v) ∷ xs) q q' c =
    link_next-set_next a xs q' h ∙ set_next-last h none a v xs q q' c

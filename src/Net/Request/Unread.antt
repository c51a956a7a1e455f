-- ===== src/Net/Request/Unread.antt =====
-- networking.c: how the steps of the parser move in the unread bytes.
use mathlib.Core.List.{append_assoc}
use decompose_redis.Base.{
  ℕ, suc, ◌+◌, ◌-◌, ◌≤◌, ◌<◌, ◌≡◌, refl, sym, ap, ◌∙◌, true, false, ◌&&◌, List, [], ◌∷◌, ◌++◌, leb,
  ltb, if_case, length, take, drop, length-append, length-drop, drop_long, arith,
}
use decompose_redis.Net.{Client}
use decompose_redis.Net.Request.{
  unread, skip, to_front, just_bulk, push_arg, proto_mbulk_big_arg, proto_inline_max_size,
}
use decompose_redis.Net.Request.Line.{drop-drop, drop-append_length, take-append_length}

-- `qb_pos` is in the buffer.
abbrev pub Placed : Client → Type 0
Placed c = c.qb_pos ≤ length c.querybuf

pub unread-skip : (n : ℕ) (c : Client) → unread (skip n c) ≡ drop n (unread c)
unread-skip n c = drop-drop c.qb_pos n c.querybuf

pub Placed-skip : (n : ℕ) (c : Client) → Placed c → n ≤ length (unread c) → Placed (skip n c)
Placed-skip n c h k = omega (arith, length-drop c.qb_pos c.querybuf)

pub unread-to_front : (n : ℕ) (c : Client) → unread (to_front n c) ≡ unread c
unread-to_front n c =
    if_case (λ (r : Client). unread r ≡ unread c)
      (leb proto_mbulk_big_arg n && leb (length (unread c)) (n + 2))
      (record c { querybuf = unread c; qb_pos = 0 }) c (λ e. refl) λ e. refl

pub Placed-to_front : (n : ℕ) (c : Client) → Placed c → Placed (to_front n c)
Placed-to_front n c h =
    if_case Placed (leb proto_mbulk_big_arg n && leb (length (unread c)) (n + 2))
      (record c { querybuf = unread c; qb_pos = 0 }) c (λ e. omega arith) λ e. h

-- The rest of the client is as it was.
pub record SameRest (c c' : Client) : Type 0 where
  pub same_argv : c'.argv ≡ c.argv
  pub same_count : c'.multibulklen ≡ c.multibulklen

pub SameRest-to_front : (n i : ℕ) (c : Client) → SameRest c (to_front n (skip i c))
SameRest-to_front n i c =
    if_case (SameRest c) (leb proto_mbulk_big_arg n && leb (length (unread (skip i c))) (n + 2))
      (record c { querybuf = unread (skip i c); qb_pos = 0 }) (skip i c)
      (λ e. record { same_argv = refl; same_count = refl })
      λ e. record { same_argv = refl; same_count = refl }

pub just_bulk_lem :
    (n : ℕ) (c : Client) → just_bulk n c ≡ true → (c.qb_pos ≡ 0) × (length c.querybuf ≡ n + 2)
just_bulk_lem n c e = (ground (arith, e), ground (arith, e))

pub unread-push_arg :
    (n : ℕ) (c : Client)
    → Placed c
    → n + 2 ≤ length (unread c)
    → (unread (push_arg n c) ≡ drop (n + 2) (unread c))
      × ((push_arg n c).argv ≡ c.argv ++ take n (unread c) ∷ [])
      × Placed (push_arg n c)
      × ((push_arg n c).multibulklen ≡ c.multibulklen)
unread-push_arg n c h k =
    let Goal : Client → Type 0 = λ r.
      (unread r ≡ drop (n + 2) (unread c))
      × (r.argv ≡ c.argv ++ take n (unread c) ∷ [])
      × Placed r
      × (r.multibulklen ≡ c.multibulklen) in
    if_case Goal (just_bulk n c)
      (record c { argv = c.argv ++ take n c.querybuf ∷ []; querybuf = [] })
      (record c { argv = c.argv ++ take n (unread c) ∷ []; qb_pos = c.qb_pos + (n + 2) })
      (λ e.
        let (at_start, full) = just_bulk_lem n c e in
        (
          drop_long {A = ℕ} [] c.qb_pos (omega arith)
              ∙ sym (
                  drop_long (unread c) (n + 2)
                    (omega (arith, length-drop c.qb_pos c.querybuf, at_start, full))),
          ap (λ m. c.argv ++ take n (drop m c.querybuf) ∷ []) (sym at_start),
          omega arith,
          refl,
        ))
      λ e. (drop-drop c.qb_pos (n + 2) c.querybuf, refl, Placed-skip (n + 2) c h k, refl)

pub small_line : (n : ℕ) → n ≤ 64 → ltb (proto_inline_max_size) n ≡ false
small_line n h = ground arith

pub not_less : (a b : ℕ) → a ≤ b → ltb b a ≡ false
not_less a b h = ground arith

pub at_least : (a b : ℕ) → ltb a b ≡ false → b ≤ a
at_least a b h = ground arith

pub less : (a b : ℕ) → a < b → ltb a b ≡ true
less a b h = ground arith

pub number_text :
    (x : ℕ) (text rest line : List ℕ)
    → line ≡ (x ∷ text) ++ rest
    → take (suc (length text) - 1) (drop 1 line) ≡ text
number_text x text rest line e =
    ap (λ y. take (suc (length text) - 1) (drop 1 y)) e
    ∙ take-append_length text rest (suc (length text) - 1) (omega arith)

pub after_line :
    (line rest : List ℕ) (n : ℕ) → n ≡ length line + 2 → drop n (line ++ 0x0d ∷ 0x0a ∷ rest) ≡ rest
after_line line rest n e =
    ap (drop n) (sym (append_assoc line (0x0d ∷ 0x0a ∷ []) rest))
    ∙ drop-append_length (line ++ 0x0d ∷ 0x0a ∷ []) rest n
        (omega (arith, length-append line (0x0d ∷ 0x0a ∷ [])))

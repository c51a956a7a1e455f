-- ===== src/Sds/Repr/RoundTrip.antt =====
-- sdssplitargs reads back what sdscatrepr prints.
use decompose_redis.Base.{
  ℕ, zero, suc, ◌+◌, ◌/◌, ◌%◌, ◌≤◌, ◌<◌, ◌≡◌, refl, sym, ap, ◌∙◌, ◌⊎◌, inl, inr, true, List, [],
  ◌∷◌, ◌++◌, length, drop, get_or, arith, length-append,
}
use mathlib.Core.List.{append-nil, append_assoc}
use decompose_redis.Sds.Ctype.{Ctype}
use decompose_redis.Sds.Repr.{
  hex_digit, escape, escape_all, is_hex_digit, hex_digit_to_int, unescape, Quote, bare, inq, goes,
  closes, token_round, parsed, token_loop, skip_blanks, args_loop, sdssplitargs,
}

hex_digit_lem :
    (n : ℕ) → n < 16 → (is_hex_digit (hex_digit n) ≡ true) × (hex_digit_to_int (hex_digit n) ≡ n)
unfolding is_hex_digit hex_digit hex_digit_to_int
hex_digit_lem n h = ground arith

module _ (t : Ctype) where
  round-escape :
      (c : ℕ) (r : List ℕ)
      → c < 256
      → token_round t inq (escape t c ++ r) ≡ goes inq (length (escape t c)) (c ∷ [])
  unfolding token_round escape unescape
  round-escape c r h =
      ground (arith, hex_digit_lem (c / 16), hex_digit_lem (c % 16), t.not_print_nul)

drop-append_length : (xs ys : List ℕ) → drop (length xs) (xs ++ ys) ≡ ys
drop-append_length [] ys = refl
drop-append_length (x ∷ xs) ys = drop-append_length xs ys

-- Every number of the list is a byte.
abbrev pub AreBytes : List ℕ → Type 0
AreBytes [] = Unit {0}
AreBytes (c ∷ p) = (c < 256) × AreBytes p

module _ (t : Ctype) where
  -- Where a closing quote may stand: before the end of the line or a space.
  abbrev pub Ends : List ℕ → Type 0
  Ends p = (get_or p 0 0 ≡ 0) ⊎ (t.isspace (get_or p 0 0) ≡ true)

  length-escape_all : (p : List ℕ) → length p ≤ length (escape_all t p)
  unfolding escape_all escape
  length-escape_all [] = omega arith
  length-escape_all (c ∷ p) =
      ground (arith, length-escape_all p, length-append (escape t c) (escape_all t p))

  round-close : (tail : List ℕ) → Ends tail → token_round t inq (0x22 ∷ tail) ≡ closes 1
  unfolding token_round
  round-close tail e = ground arith

  escape_all-nil : escape_all t [] ≡ []
  unfolding escape_all
  escape_all-nil = refl

  escape_all-cons :
      (c : ℕ) (p r : List ℕ) → escape_all t (c ∷ p) ++ r ≡ escape t c ++ (escape_all t p ++ r)
  unfolding escape_all
  escape_all-cons c p r = append_assoc (escape t c) (escape_all t p) r

  pub token_loop_goes :
      (f n : ℕ) (q q' : Quote) (p current bs : List ℕ)
      → token_round t q p ≡ goes q' n bs
      → token_loop t (suc f) q p current ≡ token_loop t f q' (drop n p) (current ++ bs)
  unfolding token_loop
  token_loop_goes f n q q' p current bs e = rw (e, token_loop)

  pub token_loop_closes :
      (f n : ℕ) (q : Quote) (p current : List ℕ)
      → token_round t q p ≡ closes n
      → token_loop t (suc f) q p current ≡ parsed (drop n p, current)
  unfolding token_loop
  token_loop_closes f n q p current e = rw (e, token_loop)

  -- Inside a literal the loop reads what sdscatrepr printed, up to the closing quote.
  loop-escape_all :
      (f : ℕ) (p tail current : List ℕ)
      → length p < f
      → AreBytes p
      → Ends tail
      → token_loop t f inq (escape_all t p ++ 0x22 ∷ tail) current ≡ parsed (tail, current ++ p)
  loop-escape_all zero p tail current h b e = absurd (omega arith)
  loop-escape_all (suc f) [] tail current h b e =
      rw (escape_all-nil, append-nil)
        (token_loop_closes f 1 inq (0x22 ∷ tail) current (round-close tail e))
  loop-escape_all (suc f) (c ∷ p) tail current h b e =
      let rest : List ℕ = escape_all t p ++ 0x22 ∷ tail in
      rw (escape_all-cons c p (0x22 ∷ tail)) (
        token_loop_goes f _ inq inq (escape t c ++ rest) current _ (round-escape t c rest b.0)
        ∙ rw (drop-append_length (escape t c) rest) (
            loop-escape_all f p tail (current ++ c ∷ []) (omega arith) b.1 e
            ∙ ap (λ l. parsed (tail, l)) (append_assoc current (c ∷ []) p)))

  -- The literals of `args`, each with a blank before it.
  abbrev pub literals : List (List ℕ) → List ℕ
  literals [] = []
  literals (a ∷ args) = b' ' ∷ 0x22 ∷ (escape_all t a ++ 0x22 ∷ literals args)

  abbrev pub AllBytes : List (List ℕ) → Type 0
  AllBytes [] = Unit {0}
  AllBytes (a ∷ args) = AreBytes a × AllBytes args

  literals-Ends : (args : List (List ℕ)) → Ends (literals args)
  literals-Ends [] = inl refl
  literals-Ends (a ∷ args) = inr t.space_blank

  token_loop-literal :
      (a tail : List ℕ)
      → AreBytes a
      → Ends tail
      → token_loop t
          (length (0x22 ∷ (escape_all t a ++ 0x22 ∷ tail)) + 1)
          bare
          (0x22 ∷ (escape_all t a ++ 0x22 ∷ tail))
          []
        ≡ parsed (tail, a)
  unfolding token_loop token_round
  token_loop-literal a tail b e =
      let fuel : length (0x22 ∷ (escape_all t a ++ 0x22 ∷ tail)) + 1
          ≡ suc (suc (length (escape_all t a ++ 0x22 ∷ tail))) =
        omega arith in
      rw fuel (
        loop-escape_all (suc (length (escape_all t a ++ 0x22 ∷ tail))) a tail []
          (omega (arith, length-escape_all a, length-append (escape_all t a) (0x22 ∷ tail))) b e)

  skip_nil : skip_blanks t [] ≡ []
  unfolding skip_blanks
  skip_nil = refl

  skip_quoted :
      (a tail : List ℕ)
      → skip_blanks t (0x22 ∷ (escape_all t a ++ 0x22 ∷ tail))
        ≡ 0x22 ∷ (escape_all t a ++ 0x22 ∷ tail)
  unfolding skip_blanks
  skip_quoted a tail = rw t.space_quote

  skip_literals :
      (a tail : List ℕ)
      → skip_blanks t (b' ' ∷ 0x22 ∷ (escape_all t a ++ 0x22 ∷ tail))
        ≡ 0x22 ∷ (escape_all t a ++ 0x22 ∷ tail)
  unfolding skip_blanks
  skip_literals a tail = rw (t.space_blank, t.space_quote)

  args_loop-literals :
      (f : ℕ) (args vector : List (List ℕ))
      → length args < f
      → AllBytes args
      → args_loop t f (literals args) vector ≡ parsed (vector ++ args)
  unfolding args_loop
  args_loop-literals zero args vector h b = absurd (omega arith)
  args_loop-literals (suc f) [] vector h b = rw (skip_nil, args_loop, append-nil)
  args_loop-literals (suc f) (a ∷ args) vector h b = rw (
    skip_literals a (literals args),
    args_loop,
    token_loop-literal a (literals args) b.0 (literals-Ends args),
    args_loop-literals f args (vector ++ a ∷ []) (omega arith) b.1,
    append_assoc vector (a ∷ []) args,
  )

  length-literals : (args : List (List ℕ)) → length args ≤ length (literals args)
  length-literals [] = omega arith
  length-literals (a ∷ args) =
      omega (arith, length-literals args, length-append (escape_all t a) (0x22 ∷ literals args))

  args_loop-skip :
      (f : ℕ) (p p' : List ℕ) (vector : List (List ℕ))
      → skip_blanks t p ≡ skip_blanks t p'
      → args_loop t f p vector ≡ args_loop t f p' vector
  unfolding args_loop
  args_loop-skip zero p p' vector e = refl
  args_loop-skip (suc f) p p' vector e = rw (e, args_loop)

  -- sdssplitargs reads a line that holds one literal or more, each as sdscatrepr prints it and with
  -- a blank between them, as exactly the byte strings that were printed, whatever bytes they hold,
  -- nul and quotes included.
  pub sdssplitargs-quoted :
      (a : List ℕ) (args : List (List ℕ))
      → AreBytes a
      → AllBytes args
      → sdssplitargs t (0x22 ∷ (escape_all t a ++ 0x22 ∷ literals args)) ≡ parsed (a ∷ args)
  unfolding sdssplitargs
  sdssplitargs-quoted a args ba bs =
      let line : List ℕ = 0x22 ∷ (escape_all t a ++ 0x22 ∷ literals args) in
      args_loop-skip (length line + 1) line (b' ' ∷ line) []
        (skip_quoted a (literals args) ∙ sym (skip_literals a (literals args)))
      ∙ args_loop-literals (length line + 1) (a ∷ args) []
          (omega
            (arith, length-literals args, length-append (escape_all t a) (0x22 ∷ literals args)))
          (ba, bs)

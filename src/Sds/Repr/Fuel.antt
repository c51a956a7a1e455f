-- ===== src/Sds/Repr/Fuel.antt =====
-- The loops of sdssplitargs end.
use decompose_redis.Base.{
  ℕ, zero, suc, ◌+◌, ◌≤◌, ◌<◌, ◌≡◌, ◌≢◌, refl, List, [], ◌∷◌, ◌++◌, length, drop, arith,
  length-drop,
}
use decompose_redis.Sds.Ctype.{Ctype}
use decompose_redis.Sds.Repr.{
  Quote, bare, inq, insq, Round, failed, closes, goes, token_round, Parsed, parsed, unbalanced,
  out_of_fuel, token_loop, skip_blanks, args_loop, sdssplitargs,
}
use decompose_redis.Sds.Repr.RoundTrip.{token_loop_goes, token_loop_closes}

-- No byte of the line is the nul that ends it.
abbrev pub NoNul : List ℕ → Type 0
NoNul [] = Unit {0}
NoNul (c ∷ p) = (c ≢ 0) × NoNul p

module _ (t : Ctype) where
  NoNul-drop : (n : ℕ) (p : List ℕ) → NoNul p → NoNul (drop n p)
  NoNul-drop zero p h = h
  NoNul-drop (suc n) [] h = tt
  NoNul-drop (suc n) (c ∷ p) h = NoNul-drop n p h.1

  -- A round that goes on has read a byte at least.
  goes_reads :
      (q q' : Quote) (p bs : List ℕ) (n : ℕ)
      → token_round t q p ≡ goes q' n bs
      → (1 ≤ n) × (1 ≤ length p)
  unfolding token_round
  goes_reads bare q' [] bs n e = ground arith
  goes_reads inq q' [] bs n e = ground arith
  goes_reads insq q' [] bs n e = ground arith
  goes_reads bare q' (c ∷ p) bs n e = ground arith
  goes_reads inq q' (c ∷ p) bs n e = ground arith
  goes_reads insq q' (c ∷ p) bs n e = ground arith

  failed_stops :
      (f : ℕ) (q : Quote) (p current : List ℕ)
      → token_round t q p ≡ failed
      → token_loop t (suc f) q p current ≡ unbalanced
  unfolding token_loop
  failed_stops f q p current e = rw (e, token_loop)

  -- An end of the token loop, with no more of the line left than `p`.
  abbrev Done : List ℕ → Parsed (List ℕ × List ℕ) → Type 0
  Done p (parsed (rest, current)) = (length rest ≤ length p) × NoNul rest
  Done p unbalanced = Unit {0}
  Done p out_of_fuel = ⊥

  Done-mono :
      (p p' : List ℕ) (r : Parsed (List ℕ × List ℕ)) → length p ≤ length p' → Done p r → Done p' r
  Done-mono p p' (parsed (rest, current)) le d = (omega arith, d.1)
  Done-mono p p' unbalanced le d = tt
  Done-mono p p' out_of_fuel le d = d

  token_loop-Done :
      (f : ℕ) (q : Quote) (p current : List ℕ)
      → length p < f
      → NoNul p
      → Done p (token_loop t f q p current)
  token_loop-Done zero q p current h nn = absurd (omega arith)
  token_loop-Done (suc f) q p current h nn = go (token_round t q p) refl (token_loop-Done f)
    where
      go :
          (r : Round)
          → token_round t q p ≡ r
          → ((q' : Quote) (p' current' : List ℕ)
              → length p' < f
              → NoNul p'
              → Done p' (token_loop t f q' p' current'))
          → Done p (token_loop t (suc f) q p current)
      go failed e ih = rw (failed_stops f q p current e) tt
      go (closes n) e ih =
          rw (token_loop_closes t f n q p current e)
            (omega (arith, length-drop n p), NoNul-drop n p nn)
      go (goes q' n bs) e ih =
          let reads = goes_reads q q' p bs n e in
          rw (token_loop_goes t f n q q' p current bs e) (
            Done-mono (drop n p) p _ (omega (arith, length-drop n p)) (
              ih q' (drop n p) (current ++ bs) (omega (arith, length-drop n p, reads))
                (NoNul-drop n p nn)))

  bare_reads :
      (c : ℕ) (r : List ℕ)
      → c ≢ 0
      → (token_round t bare (c ∷ r) ≢ failed)
        × ((n : ℕ) → token_round t bare (c ∷ r) ≡ closes n → n ≡ 1)
        × ((q : Quote) (n : ℕ) (bs : List ℕ) → token_round t bare (c ∷ r) ≡ goes q n bs → n ≡ 1)
  unfolding token_round
  bare_reads c r h = (λ e. ground arith, λ n e. ground arith, λ q n bs e. ground arith)

  -- The first round of a token reads a byte.
  token-Done :
      (f c : ℕ) (r : List ℕ)
      → length r < f
      → NoNul (c ∷ r)
      → Done r (token_loop t (suc f) bare (c ∷ r) [])
  token-Done f c r h nn = go (token_round t bare (c ∷ r)) refl
    where
      go :
          (x : Round)
          → token_round t bare (c ∷ r) ≡ x
          → Done r (token_loop t (suc f) bare (c ∷ r) [])
      go failed e = absurd ((bare_reads c r nn.0).0 e)
      go (closes n) e =
          let one : n ≡ 1 = (bare_reads c r nn.0).1 n e in
          rw (token_loop_closes t f n bare (c ∷ r) [] e, one) (omega arith, nn.1)
      go (goes q' n bs) e =
          let one : n ≡ 1 = (bare_reads c r nn.0).2 q' n bs e in
          rw (token_loop_goes t f n bare q' (c ∷ r) [] bs e, one) (token_loop-Done f q' r bs h nn.1)

  skip_blanks-shrinks :
      (p : List ℕ) → NoNul p → (length (skip_blanks t p) ≤ length p) × NoNul (skip_blanks t p)
  unfolding skip_blanks
  skip_blanks-shrinks [] nn = (omega arith, tt)
  skip_blanks-shrinks (c ∷ p) nn = ground (arith, skip_blanks-shrinks p nn.1)

  args_loop-ends :
      (f : ℕ) (p : List ℕ) (vector : List (List ℕ))
      → length p < f
      → NoNul p
      → args_loop t f p vector ≢ out_of_fuel
  unfolding args_loop
  args_loop-ends zero p vector h nn = absurd (omega arith)
  args_loop-ends (suc f) p vector h nn =
      go (skip_blanks t p) refl (skip_blanks-shrinks p nn) (args_loop-ends f)
    where
      go :
          (x : List ℕ)
          → skip_blanks t p ≡ x
          → (length (skip_blanks t p) ≤ length p) × NoNul (skip_blanks t p)
          → ((p' : List ℕ) (vector' : List (List ℕ))
              → length p' < f
              → NoNul p'
              → args_loop t f p' vector' ≢ out_of_fuel)
          → args_loop t (suc f) p vector ≢ out_of_fuel
      go [] e le ih = rw (e, args_loop) (λ q. cc)
      go (c ∷ r) e le ih = next (token_loop t (length (c ∷ r) + 1) bare (c ∷ r) []) refl done
        where
          some_left : (length (c ∷ r) ≤ length p) × NoNul (c ∷ r)
          some_left = rw e at le

          fuel : length (c ∷ r) + 1 ≡ suc (suc (length r))
          fuel = omega arith

          done : Done r (token_loop t (length (c ∷ r) + 1) bare (c ∷ r) [])
          done = rw fuel (token-Done (suc (length r)) c r (omega arith) some_left.1)

          next :
              (y : Parsed (List ℕ × List ℕ))
              → token_loop t (length (c ∷ r) + 1) bare (c ∷ r) [] ≡ y
              → Done r y
              → args_loop t (suc f) p vector ≢ out_of_fuel
          next (parsed (rest, current)) e' d =
              rw (e, args_loop, e')
                (ih rest (vector ++ current ∷ []) (omega (arith, some_left.0)) d.1)
          next unbalanced e' d = rw (e, args_loop, e') (λ q. cc)
          next out_of_fuel e' d = absurd d

  -- On a line with no nul byte sdssplitargs comes to an end, with the arguments or with its error:
  -- the fuel, one more than the bytes of the line, suffices.
  pub sdssplitargs-ends : (line : List ℕ) → NoNul line → sdssplitargs t line ≢ out_of_fuel
  unfolding sdssplitargs
  sdssplitargs-ends line nn = args_loop-ends (length line + 1) line [] (omega arith) nn

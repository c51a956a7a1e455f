-- ===== src/Sds/Split/Join.antt =====
-- sds.c: what sdsjoinsds puts together, and that it undoes sdssplitlen.
use decompose_redis.Base.{
  ℕ, suc, ◌+◌, ◌^◌, ◌≤◌, ◌<◌, ◌≡◌, refl, sym, ap, ◌∙◌, ◌⊎◌, inl, inr, List, [], ◌∷◌, ◌++◌, length,
  take, length-append, length-take, arith,
}
use mathlib.Core.Path.{subst}
use mathlib.Core.List.{append-nil, append_assoc}
use decompose_redis.Base.Int.{pos}
use decompose_redis.Base.Outcome.{
  Outcome, null, ◌>>=◌, used, Safe, Unless, refusing, refusing_why, used-Unless, Unless-why,
  Unless-bind,
}
use decompose_redis.Sds.{Sds, IsValid, Holds, content, size_mod}
use decompose_redis.Sds.Memory.{Allocator, RunsOut}
use decompose_redis.Sds.Memory.Laws.{length-take_le}
use decompose_redis.Sds.Write.{sdsempty, sdscatlen, sdscatsds}
use decompose_redis.Sds.Write.Laws.{sdsnewlen-Holds}
use decompose_redis.Sds.Write.Appends.{NoRoom, sdscatlen-part, sdscatlen-whole}
use decompose_redis.Sds.Split.{joinsds_loop, sdsjoinsds, sdssplitlen}
use decompose_redis.Sds.Split.Laws.{joined, AllValid, sdssplitlen-Cuts}

empty-Holds : (m : Allocator) → Safe (RunsOut m) (Holds []) (sdsempty m)
unfolding sdsempty
empty-Holds m = sdsnewlen-Holds m (0 ∷ []) 0 (omega arith) (omega arith)

length-content : (s : Sds) → IsValid s → length (content s) ≡ s.len
length-content s v = length-take_le s.buf s.len (omega (arith, v.within, v.room))

-- The joining of `whole` gets no memory: for the empty string, or on the way.
abbrev pub NotJoined : Allocator → List ℕ → Type 0
NotJoined m whole = (sdsempty m ≡ null) ⊎ NoRoom m whole

module _ (m : Allocator) where
  -- A call goes on from the bytes `bs` of `whole`.
  goes_on :
      (r : Outcome Sds) (whole bs : List ℕ) (f : Sds → Outcome Sds) (bs' : List ℕ)
      → Unless (NotJoined m whole) (Holds bs) r
      → ((s : Sds) → Holds bs s → Unless (NoRoom m whole) (Holds bs') (f s))
      → Unless (NotJoined m whole) (Holds bs') (used r >>= f)
  goes_on r whole bs f bs' u step =
      Unless-bind (used-Unless u) λ s h. Unless-why (step s h) λ stop. inr stop

  joinsds_loop-Holds :
      (join : Outcome Sds) (bs : List ℕ) (argv : List Sds) (sep whole : List ℕ)
      → Unless (NotJoined m whole) (Holds bs) join
      → AllValid argv
      → length bs + length (joined sep argv) + 2 ^ 21 < size_mod
      → bs ++ joined sep argv ≡ whole
      → Unless (NotJoined m whole) (Holds whole) (joinsds_loop m join argv sep (length sep))
  unfolding joinsds_loop sdscatsds
  joinsds_loop-Holds join bs [] sep whole u vs small e =
      subst (λ x. Unless (NotJoined m whole) (Holds x) join) (sym (append-nil bs) ∙ e) u
  joinsds_loop-Holds join bs (a ∷ []) sep whole u (va, vs) small e =
      let la = length-content a va in
      rw (← e) (
        goes_on join (bs ++ content a) bs (λ s. sdscatlen m s a.buf a.len) (bs ++ content a)
          (rw e u)
          λ s h.
            sdscatlen-part m s bs a.buf a.len [] (bs ++ content a) h
              (omega (arith, va.within, va.room)) (omega (arith, la))
              (ap (λ x. bs ++ x) (append-nil (content a))))
  joinsds_loop-Holds join bs (a ∷ b ∷ argv) sep whole u (va, vs) small e =
      let rest : List ℕ = joined sep (b ∷ argv) in
      let l = length-append (content a) (sep ++ rest) in
      let l' = length-append sep rest in
      let la = length-content a va in
      let la' = length-append bs (content a) in
      let lb = length-append (bs ++ content a) sep in
      let e1 = append_assoc bs (content a) (sep ++ rest) ∙ e in
      let e2 = append_assoc (bs ++ content a) sep rest ∙ e1 in
      let added =
        goes_on join whole bs (λ s. sdscatlen m s a.buf a.len) (bs ++ content a) u
          λ s h.
            sdscatlen-part m s bs a.buf a.len (sep ++ rest) whole h
              (omega (arith, va.within, va.room)) (omega arith) e in
      let separated =
        goes_on (used join >>= λ s. sdscatlen m s a.buf a.len) whole (bs ++ content a)
          (λ s. sdscatlen m s sep (length sep)) (bs ++ content a ++ sep) added
          λ s h. sdscatlen-whole m s (bs ++ content a) sep rest whole h (omega arith) e1 in
      joinsds_loop-Holds
        (used (used join >>= λ s. sdscatsds m s a) >>= λ s. sdscatlen m s sep (length sep))
        (bs ++ content a ++ sep) (b ∷ argv) sep whole separated vs (omega arith) e2

  -- sdsjoinsds of valid strings with a separator, when the joined length stays 2 ^ 21 below the range
  -- of size_t: a valid string holds the contents with the separator between them, or sdsempty or a
  -- call of sdscatlen on the way was refused memory.
  pub sdsjoinsds-Holds :
      (argv : List Sds) (sep : List ℕ)
      → AllValid argv
      → length (joined sep argv) + 2 ^ 21 < size_mod
      → Unless
          (NotJoined m (joined sep argv))
          (Holds (joined sep argv))
          (sdsjoinsds m argv sep (length sep))
  unfolding sdsjoinsds
  sdsjoinsds-Holds argv sep vs small =
      joinsds_loop-Holds (sdsempty m) [] argv sep (joined sep argv)
        (refusing (empty-Holds m) λ e. inl e) vs (omega arith) refl

  -- The tokens that sdssplitlen cuts of the first `len` bytes of a block, sdsjoinsds with the same
  -- separator joins to those bytes, for a positive `len` 2 below 2 ^ 30 and a separator that is not
  -- empty. Otherwise sdssplitlen has given NULL, which it does only with an allocator that refuses some
  -- request; or sdsempty has, or sdscatlen when a first part of the bytes had been joined. Only then
  -- the result is NULL, or NULL is gone through.
  pub sdsjoinsds-sdssplitlen :
      (s : List ℕ) (len : ℕ) (sep : List ℕ) (k : ℕ)
      → len ≤ length s
      → length sep ≡ suc k
      → 0 < len
      → len + 2 ≤ 2 ^ 30
      → Unless
          (((sdssplitlen m s (pos len) sep (pos (suc k)) ≡ null) × RunsOut m)
            ⊎ NotJoined m (take len s))
          (Holds (take len s))
          (sdssplitlen m s (pos len) sep (pos (suc k)) >>= λ ts. sdsjoinsds m ts sep (length sep))
  sdsjoinsds-sdssplitlen s len sep k hl hs positive small =
      Unless-bind
        (refusing_why (sdssplitlen-Cuts m s len sep k hl hs positive small) λ e o. inl (e, o))
        λ ts c.
          let short : length (joined sep ts) ≤ len =
            rw c.whole (omega (arith, length-take len s)) in
          rw (← c.whole)
            (Unless-why (sdsjoinsds-Holds ts sep c.valid (omega arith)) λ stop. inr stop)

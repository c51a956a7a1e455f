-- ===== src/Net/Request/Bulk.antt =====
-- networking.c: the rounds of processMultibulkBuffer at one argument.
use mathlib.Core.List.{append_assoc, head-eq_of_cons-eq, tail-eq_of_cons-eq}
use mathlib.Core.Path.{subst}
use decompose_redis.Base.{
  ℕ, suc, ◌+◌, ◌-◌, ◌^◌, ◌≤◌, ◌<◌, ◌≡◌, refl, sym, ap, ◌∙◌, ◌⊎◌, inl, inr, true, false, Bool-cases,
  List, [], ◌∷◌, ◌++◌, Option, some, none, ltb, length, take, drop, get_or, length-append, arith,
  tests,
}
use decompose_redis.Base.Int.{pos}
use decompose_redis.Net.{Client, State}
use decompose_redis.Net.Reply.{Platform}
use decompose_redis.Net.Request.{
  Numbers, unread, Step, goes, waits, skip, to_front, len_line, read_len_of, push_arg, take_arg,
  no_line, line_number,
}
use decompose_redis.Net.Request.Line.{Texts, arrived, arrived_all, bulks, take-append_length}
use decompose_redis.Net.Request.Unread.{
  Placed, unread-skip, Placed-skip, unread-to_front, Placed-to_front, SameRest-to_front,
  unread-push_arg, small_line, not_less, at_least, less, number_text, after_line,
}

module _ (p : Platform) (num : Numbers) (tx : Texts num) where
  -- What has arrived and what is still to come are the arguments from the one begun, and more.
  abbrev pub Expects : Option ℕ → List (List ℕ) → List ℕ → List ℕ → Type 0
  Expects none todo more input = input ≡ bulks num tx todo more
  Expects (some n) [] more input = ⊥
  Expects (some n) (a ∷ todo) more input =
      (n ≡ length a) × (input ≡ a ++ 0x0d ∷ 0x0a ∷ bulks num tx todo more)

  -- The client has read the arguments `done` of a request and is to read those of `todo`.
  pub record Stands (c : Client) (done todo : List (List ℕ)) (more future : List ℕ) : Type 0 where
    pub argv : c.argv ≡ done
    pub count : c.multibulklen ≡ length todo
    pub expects : Expects c.bulklen todo more (unread c ++ future)
    pub placed : Placed c

  -- The part waits, for input that is still to come, or goes on to a state.
  abbrev pub Goes : State → List ℕ → (State → Type 0) → Step → Type 0
  Goes st future P r =
      ((r ≡ waits st) × (0 < length future)) ⊎ ((st' : State) × (r ≡ goes st') × P st')

  pub no_line-waits :
      (st : State) (message : List ℕ)
      → length (unread st.client) ≤ 64
      → no_line p message st ≡ waits st
  no_line-waits st message h = rw (small_line (length (unread st.client)) h) refl

  -- The line has arrived whole.
  whole_line :
      (st : State) (a : List ℕ) (todo done : List (List ℕ)) (more future rest : List ℕ)
      → Stands st.client done (a ∷ todo) more future
      → length a ≤ st.server.proto_max_bulk_len
      → st.server.proto_max_bulk_len < 2 ^ 63
      → unread st.client ≡ (b'$' ∷ tx.text (length a)) ++ 0x0d ∷ 0x0a ∷ rest
      → rest ++ future ≡ a ++ 0x0d ∷ 0x0a ∷ bulks num tx todo more
      → (st' : State) × (len_line p num (some (suc (length (tx.text (length a))))) st ≡ goes st')
        × Stands st'.client done (a ∷ todo) more future
        × (st'.client.bulklen ≡ some (length a))
        × (st'.server ≡ st.server)
  whole_line st a todo done more future rest is fits bound e f =
      let text : List ℕ = tx.text (length a) in
      let i : ℕ = suc (length text) in
      let c : Client = st.client in
      let skipped : Client = skip (i + 2) c in
      let long : i + 2 ≤ length (unread c) =
        omega (arith, ap length e, length-append text (0x0d ∷ 0x0a ∷ rest)) in
      let enough : ltb (length (unread c)) (i + 2) ≡ false =
        not_less (i + 2) (length (unread c)) long in
      let dollar : get_or (unread c) 0 0 ≡ b'$' = ap (λ x. get_or x 0 0) e in
      let number : line_number p num i (unread c) ≡ some (pos (length a)) =
        ap num.string2ll (number_text b'$' text (0x0d ∷ 0x0a ∷ rest) (unread c) e)
        ∙ tx.text-string2ll (length a) (omega arith) in
      let small : ltb st.server.proto_max_bulk_len (length a) ≡ false =
        not_less (length a) st.server.proto_max_bulk_len fits in
      let left : unread skipped ≡ rest =
        unread-skip (i + 2) c
        ∙ ap (drop (i + 2)) e
        ∙ after_line (b'$' ∷ text) rest (i + 2) (omega arith) in
      let front : Client = to_front (length a) skipped in
      let same = SameRest-to_front (length a) (i + 2) c in
      (
        record st { client = record front { bulklen = some (length a) } },
        rw (enough, dollar, number, small) refl,
        record {
          argv = same.same_argv ∙ is.argv;
          count = same.same_count ∙ is.count;
          expects = (refl, ap (λ x. x ++ future) (unread-to_front (length a) skipped ∙ left) ∙ f);
          placed = Placed-to_front (length a) skipped (Placed-skip (i + 2) c is.placed long);
        },
        refl,
        refl,
      )

  -- The byte behind the CR is there, or still to come.
  pub line_end :
      (more1 future rest : List ℕ)
      → more1 ++ future ≡ 0x0a ∷ rest
      → ((more1 ≡ []) × (0 < length future))
        ⊎ ((more2 : List ℕ) × (more1 ≡ 0x0a ∷ more2) × (more2 ++ future ≡ rest))
  line_end [] future rest e = inl (refl, omega (arith, ap length e))
  line_end (x ∷ more2) future rest e =
      inr (more2, ap (λ y. y ∷ more2) (head-eq_of_cons-eq e), tail-eq_of_cons-eq e)

  pub ends_short :
      (st : State) (x : ℕ) (text more1 : List ℕ)
      → unread st.client ≡ (x ∷ text) ++ 0x0d ∷ more1
      → more1 ≡ []
      → ltb (length (unread st.client)) (suc (length text) + 2) ≡ true
  ends_short st x text more1 e f =
      less (length (unread st.client)) (suc (length text) + 2)
        (omega (arith, ap length e, ap length f, length-append text (0x0d ∷ more1)))

  pub read_len_of-Goes :
      (n : Option ℕ) (st : State) (a : List ℕ) (todo done : List (List ℕ)) (more future : List ℕ)
      → st.client.bulklen ≡ n
      → Stands st.client done (a ∷ todo) more future
      → length a ≤ st.server.proto_max_bulk_len
      → st.server.proto_max_bulk_len < 2 ^ 63
      → Goes st future
          (λ st'.
            Stands st'.client done (a ∷ todo) more future
            × (st'.client.bulklen ≡ some (length a))
            × (st'.server ≡ st.server))
          (read_len_of p num n st)
  read_len_of-Goes (some n) st a todo done more future e is fits bound =
      let got = subst (λ b. Expects b (a ∷ todo) more (unread st.client ++ future)) e is.expects in
      inr (st, refl, (is, e ∙ ap some got.0, refl))
  read_len_of-Goes none st a todo done more future e is fits bound =
      let text : List ℕ = tx.text (length a) in
      let short = tx.text_short (length a) (omega arith) in
      let input =
        subst (λ b. Expects b (a ∷ todo) more (unread st.client ++ future)) e is.expects in
      let rest : List ℕ = 0x0a ∷ (a ++ 0x0d ∷ 0x0a ∷ bulks num tx todo more) in
      elim (arrived (unread st.client) future (b'$' ∷ text) rest
        ((refl, refl), tx.text-IsPlain (length a)) input) [
          | inl (nothing, few) ↦ inl (
            rw (nothing, no_line-waits st _ (omega arith)) refl,
            omega (
              arith,
              ap length input,
              length-append (unread st.client) future,
              length-append text (0x0d ∷ rest),
            ),
          )
          | inr (more1, line, found, next) ↦ elim (line_end more1 future _ next) [
            | inl (gone, later) ↦
                inl (rw (found, ends_short st b'$' text more1 line gone) refl, later)
            | inr (more2, newline, next2) ↦
                let e2 : unread st.client ≡ (b'$' ∷ text) ++ 0x0d ∷ 0x0a ∷ more2 =
                  line ∙ ap (λ y. (b'$' ∷ text) ++ 0x0d ∷ y) newline in
                let (st', ran, stands, len_is, server_is) =
                  whole_line st a todo done more future more2 is fits bound e2 next2 in
                inr (st', rw (found, ran) refl, (stands, len_is, server_is))
          ]
        ]

  pub take_arg-Goes :
      (st : State) (a : List ℕ) (todo done : List (List ℕ)) (more future : List ℕ)
      → st.client.bulklen ≡ some (length a)
      → Stands st.client done (a ∷ todo) more future
      → Goes st future
          (λ st'.
            Stands st'.client (done ++ a ∷ []) todo more future
            × (st'.client.bulklen ≡ none)
            × (st'.server ≡ st.server))
          (take_arg (some (length a)) st)
  take_arg-Goes st a todo done more future e is =
      let c : Client = st.client in
      let n : ℕ = length a in
      let input = (subst (λ b. Expects b (a ∷ todo) more (unread c ++ future)) e is.expects).1 in
      let whole : List ℕ = a ++ 0x0d ∷ 0x0a ∷ [] in
      let behind : List ℕ = bulks num tx todo more in
      let input2 : unread c ++ future ≡ whole ++ behind =
        input ∙ sym (append_assoc a (0x0d ∷ 0x0a ∷ []) behind) in
      elim (Bool-cases (ltb (length (unread c)) (n + 2))) [
        | inl few ↦ inl (
          rw few refl,
          omega (
            tests,
            few,
            ap length input,
            length-append (unread c) future,
            length-append a (0x0d ∷ 0x0a ∷ behind),
          ),
        )
        | inr enough ↦
            let long : n + 2 ≤ length (unread c) = at_least (length (unread c)) (n + 2) enough in
            let (next, line, f) =
              arrived_all (unread c) future whole behind
                (omega (arith, length-append a (0x0d ∷ 0x0a ∷ []))) input2 in
            let (left, args, placed, same) = unread-push_arg n c is.placed long in
            let line2 : unread c ≡ a ++ 0x0d ∷ 0x0a ∷ next =
              line ∙ append_assoc a (0x0d ∷ 0x0a ∷ []) next in
            let arg : take n (unread c) ≡ a =
              ap (take n) line2 ∙ take-append_length a (0x0d ∷ 0x0a ∷ next) n refl in
            let rest : unread (push_arg n c) ≡ next =
              left ∙ ap (drop (n + 2)) line2 ∙ after_line a next (n + 2) refl in
            inr (
              record st {
                client = record (push_arg n c) {
                  bulklen = none;
                  multibulklen = (push_arg n c).multibulklen - 1;
                };
              },
              rw enough refl,
              (
                record {
                  argv =
                      args
                      ∙ ap (λ x. x ++ take n (unread c) ∷ []) is.argv
                      ∙ ap (λ x. done ++ x ∷ []) arg;
                  count = omega (arith, same, is.count);
                  expects = ap (λ x. x ++ future) rest ∙ f;
                  placed = placed;
                },
                refl,
                refl,
              ),
            )
      ]

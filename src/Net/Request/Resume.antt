-- ===== src/Net/Request/Resume.antt =====
-- networking.c: processMultibulkBuffer reads a request in as many pieces as it arrives in.
use mathlib.Core.Path.{subst}
use mathlib.Core.List.{append_assoc}
use decompose_redis.Base.{
  ℕ, suc, ◌+◌, ◌*◌, ◌^◌, ◌≤◌, ◌<◌, ◌≡◌, refl, sym, ap, ◌∙◌, ◌⊎◌, inl, inr, Bool, false, List, [],
  ◌∷◌, ◌++◌, Option, some, none, ltb, ◌==◌, if◌then◌else◌, if_true, if_false, not, length, drop,
  get_or, length-append, arith,
}
use decompose_redis.Base.Int.{pos}
use decompose_redis.Net.{Client, State}
use decompose_redis.Net.Reply.{Platform, is_empty}
use decompose_redis.Net.Reply.Queue.{drop-append}
use decompose_redis.Net.Request.{
  Numbers, strchr, unread, goes, waits, skip, bulk_loop, count_line, line_number, after_count,
  process_multibulk_buffer,
}
use decompose_redis.Net.Request.Line.{Texts, arrived, bulks}
use decompose_redis.Net.Request.Bulk.{Stands, Expects, line_end, no_line-waits, ends_short}
use decompose_redis.Net.Request.Unread.{
  Placed, unread-skip, Placed-skip, number_text, after_line, not_less,
}
use decompose_redis.Net.Request.Args.{AllFit, AtStart, InRequest, Outcome, bulk_loop-Outcome}

suc_not_zero : (n : ℕ) → (suc n == 0) ≡ false
suc_not_zero n = ground arith

module _ (p : Platform) (num : Numbers) (tx : Texts num) where
  Expects-none :
      (n : Option ℕ) (args : List (List ℕ)) (more input : List ℕ)
      → n ≡ none
      → input ≡ bulks num tx args more
      → Expects p num tx n args more input
  Expects-none n args more input e k = subst (λ b. Expects p num tx b args more input) (sym e) k

  -- The line with the number of arguments has arrived whole.
  whole_count :
      (st : State) (args : List (List ℕ)) (more future rest : List ℕ)
      → AtStart p num tx st.client args more future
      → length args ≤ 1024 * 1024
      → unread st.client ≡ (b'*' ∷ tx.text (length args)) ++ 0x0d ∷ 0x0a ∷ rest
      → rest ++ future ≡ bulks num tx args more
      → (st' : State) × (count_line p num (some (suc (length (tx.text (length args))))) st
          ≡ some (goes st'))
        × Stands p num tx st'.client [] args more future
        × (st'.server ≡ st.server)
  whole_count st args more future rest is few e f =
      let text : List ℕ = tx.text (length args) in
      let i : ℕ = suc (length text) in
      let c : Client = st.client in
      let long : i + 2 ≤ length (unread c) =
        omega (arith, ap length e, length-append text (0x0d ∷ 0x0a ∷ rest)) in
      let enough : ltb (length (unread c)) (i + 2) ≡ false =
        not_less (i + 2) (length (unread c)) long in
      let star : get_or (unread c) 0 0 ≡ b'*' = ap (λ x. get_or x 0 0) e in
      let number : line_number p num i (unread c) ≡ some (pos (length args)) =
        ap num.string2ll (number_text b'*' text (0x0d ∷ 0x0a ∷ rest) (unread c) e)
        ∙ tx.text-string2ll (length args) (omega arith) in
      let small : ltb (1024 * 1024) (length args) ≡ false =
        not_less (length args) (1024 * 1024) few in
      let left : unread (skip (i + 2) c) ≡ rest =
        unread-skip (i + 2) c
        ∙ ap (drop (i + 2)) e
        ∙ after_line (b'*' ∷ text) rest (i + 2) (omega arith) in
      (
        record st { client = record (skip (i + 2) c) { multibulklen = length args } },
        rw (enough, star, number, small) refl,
        record {
          argv = is.argv;
          count = refl;
          expects = Expects-none c.bulklen args more _ is.bulklen (ap (λ x. x ++ future) left ∙ f);
          placed = Placed-skip (i + 2) c is.placed long;
        },
        refl,
      )

  -- The step that reads the number of arguments waits, or goes on to the arguments.
  count_line-Goes :
      (st : State) (args : List (List ℕ)) (more future : List ℕ)
      → AtStart p num tx st.client args more future
      → length args ≤ 1024 * 1024
      → ((count_line p num (strchr 0x0d (unread st.client)) st ≡ some (waits st))
          × (0 < length future))
        ⊎ ((st' : State) × (count_line p num (strchr 0x0d (unread st.client)) st ≡ some (goes st'))
            × Stands p num tx st'.client [] args more future
            × (st'.server ≡ st.server))
  count_line-Goes st args more future is few =
      let text : List ℕ = tx.text (length args) in
      let short = tx.text_short (length args) (omega arith) in
      let rest : List ℕ = 0x0a ∷ bulks num tx args more in
      elim (arrived (unread st.client) future (b'*' ∷ text) rest
        ((refl, refl), tx.text-IsPlain (length args)) is.input) [
          | inl (nothing, some_) ↦ inl (
            ap (λ o. count_line p num o st) nothing
                ∙ ap some (no_line-waits p num tx st _ (omega arith)),
            omega (
              arith,
              ap length is.input,
              length-append (unread st.client) future,
              length-append text (0x0d ∷ rest),
            ),
          )
          | inr (more1, line, found, next) ↦
              let at_line = ap (λ o. count_line p num o st) found in
              elim (line_end p num tx more1 future _ next) [
                | inl (gone, later) ↦
                    inl
                      (at_line ∙ rw (ends_short p num tx st b'*' text more1 line gone) refl, later)
                | inr (more2, newline, next2) ↦
                    let e2 : unread st.client ≡ (b'*' ∷ text) ++ 0x0d ∷ 0x0a ∷ more2 =
                      line ∙ ap (λ y. (b'*' ∷ text) ++ 0x0d ∷ y) newline in
                    let (st', ran, stands, same) =
                      whole_count st args more future more2 is few e2 next2 in
                    inr (st', at_line ∙ ran, stands, same)
              ]
        ]

  AllFit-split :
      (most : ℕ) (done todo : List (List ℕ)) → AllFit most (done ++ todo) → AllFit most todo
  AllFit-split most [] todo h = h
  AllFit-split most (a ∷ done) todo h = AllFit-split most done todo h.1

  at_start :
      (st : State) (args : List (List ℕ)) (more future : List ℕ)
      → AtStart p num tx st.client args more future
      → process_multibulk_buffer p num st
        ≡ after_count p num (count_line p num (strchr 0x0d (unread st.client)) st)
  unfolding process_multibulk_buffer
  at_start st args more future is =
      let counted = after_count p num (count_line p num (strchr 0x0d (unread st.client)) st) in
      let inner = if not (is_empty st.client.argv) then none else counted in
      if_true (st.client.multibulklen == 0) inner (some (bulk_loop p num st.client.multibulklen st))
        (rw is.count refl)
      ∙ if_false (not (is_empty st.client.argv)) none counted (rw is.argv refl)

  -- processMultibulkBuffer at the start or in the middle of a request of at most 1024 * 1024 arguments,
  -- none longer than proto_max_bulk_len: no assertion fails, and either it returns C_OK with all the
  -- arguments and has read no byte behind the request; or part of the request has not arrived, and it
  -- returns C_ERR with the client in the middle of the request, to go on when more arrives.
  pub process_multibulk_buffer-Outcome :
      (st : State) (args : List (List ℕ)) (more future : List ℕ)
      → InRequest p num tx st.client args more future
      → length args ≤ 1024 * 1024
      → AllFit st.server.proto_max_bulk_len args
      → st.server.proto_max_bulk_len < 2 ^ 63
      → (r : Bool × State) × (process_multibulk_buffer p num st ≡ some r)
        × Outcome p num tx st args more future r
  unfolding process_multibulk_buffer
  process_multibulk_buffer-Outcome st args more future (inl is) few fits bound =
      elim (count_line-Goes st args more future is few) [
        | inl (e, later) ↦ (
          (false, st),
          at_start st args more future is ∙ ap (after_count p num) e,
          (refl, inr (refl, inl is, later)),
        )
        | inr (st', e, stands, same) ↦
            let r =
              bulk_loop-Outcome p num tx args [] st' more future stands (rw same fits)
                (rw same bound) in
            (
              bulk_loop p num (length args) st',
              at_start st args more future is
                  ∙ ap (after_count p num) e
                  ∙ ap (λ n. some (bulk_loop p num n st')) stands.count,
              (r.0 ∙ same, r.1),
            )
      ]
  process_multibulk_buffer-Outcome st args more future (inr is) few fits bound =
      let todo : List (List ℕ) = is.arg ∷ is.todo in
      let fit = AllFit-split st.server.proto_max_bulk_len is.done todo (rw is.all fits) in
      let r = bulk_loop-Outcome p num tx todo is.done st more future is.stands fit bound in
      (
        bulk_loop p num (length todo) st,
        if_false (st.client.multibulklen == 0) _ (some (bulk_loop p num st.client.multibulklen st))
              (rw is.stands.count (suc_not_zero (length is.todo)))
            ∙ ap (λ n. some (bulk_loop p num n st)) is.stands.count,
        subst (λ xs. Outcome p num tx st xs more future (bulk_loop p num (length todo) st)) is.all
            r,
      )

-- readQueryFromClient has put more bytes behind those of the query buffer.
abbrev pub receive : List ℕ → State → State
receive chunk st = record st {
  client = record st.client { querybuf = st.client.querybuf ++ chunk };
}

abbrev pub concat : List (List ℕ) → List ℕ
concat [] = []
concat (chunk ∷ chunks) = chunk ++ concat chunks

module _ (p : Platform) (num : Numbers) (tx : Texts num) where
  receive-unread :
      (c : Client) (chunk future : List ℕ)
      → Placed c
      → drop c.qb_pos (c.querybuf ++ chunk) ++ future ≡ unread c ++ (chunk ++ future)
  receive-unread c chunk future h =
      ap (λ x. x ++ future) (drop-append c.qb_pos c.querybuf chunk h)
      ∙ append_assoc (unread c) chunk future

  pub receive-InRequest :
      (st : State) (args : List (List ℕ)) (more chunk future : List ℕ)
      → InRequest p num tx st.client args more (chunk ++ future)
      → InRequest p num tx (receive chunk st).client args more future
  receive-InRequest st args more chunk future (inl is) = inl (record {
    argv = is.argv;
    count = is.count;
    bulklen = is.bulklen;
    input = receive-unread st.client chunk future is.placed ∙ is.input;
    placed = omega (arith, is.placed, length-append st.client.querybuf chunk);
  })
  receive-InRequest st args more chunk future (inr is) =
      let k = is.stands in
      inr (record {
        done = is.done;
        arg = is.arg;
        todo = is.todo;
        all = is.all;
        stands = record {
          argv = k.argv;
          count = k.count;
          expects =
              subst (Expects p num tx st.client.bulklen (is.arg ∷ is.todo) more)
                (sym (receive-unread st.client chunk future k.placed)) k.expects;
          placed = omega (arith, k.placed, length-append st.client.querybuf chunk);
        };
      })

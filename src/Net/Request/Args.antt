-- ===== src/Net/Request/Args.antt =====
-- networking.c: where a client is in a request, and the loop of processMultibulkBuffer over the arguments.
use mathlib.Core.Path.{subst}
use mathlib.Core.List.{append_assoc, append-nil}
use decompose_redis.Base.{
  ℕ, ◌^◌, ◌≤◌, ◌<◌, ◌≡◌, refl, sym, ap, ◌∙◌, ◌⊎◌, inl, inr, Bool, true, false, List, [], ◌∷◌, ◌++◌,
  Option, some, none, length,
}
use decompose_redis.Net.{Client, State}
use decompose_redis.Net.Reply.{Platform}
use decompose_redis.Net.Request.{Numbers, unread, then_, take_arg, read_len, bulk_loop}
use decompose_redis.Net.Request.Line.{Texts, request}
use decompose_redis.Net.Request.Bulk.{Stands, Expects, read_len_of-Goes, take_arg-Goes}
use decompose_redis.Net.Request.Unread.{Placed}

abbrev pub AllFit : ℕ → List (List ℕ) → Type 0
AllFit most [] = Unit {0}
AllFit most (a ∷ args) = (length a ≤ most) × AllFit most args

module _ (p : Platform) (num : Numbers) (tx : Texts num) where
  -- Nothing of the request has been taken from the query buffer.
  pub record AtStart (c : Client) (args : List (List ℕ)) (more future : List ℕ) : Type 0 where
    pub argv : c.argv ≡ []
    pub count : c.multibulklen ≡ 0
    pub bulklen : c.bulklen ≡ none
    pub input : unread c ++ future ≡ request num tx args more
    pub placed : Placed c

  -- Some arguments have been read, and at least one has not.
  pub record Midway (c : Client) (args : List (List ℕ)) (more future : List ℕ) : Type 0 where
    pub done : List (List ℕ)
    pub arg : List ℕ
    pub todo : List (List ℕ)
    pub all : done ++ arg ∷ todo ≡ args
    pub stands : Stands p num tx c done (arg ∷ todo) more future

  -- The client has the arguments, and what is unread begins the bytes behind the request.
  pub record Ready (c : Client) (args : List (List ℕ)) (more future : List ℕ) : Type 0 where
    pub argv : c.argv ≡ args
    pub count : c.multibulklen ≡ 0
    pub bulklen : c.bulklen ≡ none
    pub input : unread c ++ future ≡ more
    pub placed : Placed c

  abbrev pub InRequest : Client → List (List ℕ) → List ℕ → List ℕ → Type 0
  InRequest c args more future = AtStart c args more future ⊎ Midway c args more future

  -- C_OK and the arguments, or C_ERR in the middle of the request, when not all has arrived.
  abbrev pub Outcome : State → List (List ℕ) → List ℕ → List ℕ → Bool × State → Type 0
  Outcome st args more future r =
      (r.1.server ≡ st.server)
      × (((r.0 ≡ true) × Ready r.1.client args more future)
          ⊎ ((r.0 ≡ false) × InRequest r.1.client args more future × (0 < length future)))

  pub no_bulklen :
      (c : Client) (n : Option ℕ) (more input : List ℕ)
      → c.bulklen ≡ n
      → Expects p num tx n [] more input
      → (c.bulklen ≡ none) × (input ≡ more)
  no_bulklen c none more input e k = (e, k)
  no_bulklen c (some n) more input e k = absurd k

  pub bulk_loop-Outcome :
      (todo done : List (List ℕ)) (st : State) (more future : List ℕ)
      → Stands p num tx st.client done todo more future
      → AllFit st.server.proto_max_bulk_len todo
      → st.server.proto_max_bulk_len < 2 ^ 63
      → Outcome st (done ++ todo) more future (bulk_loop p num (length todo) st)
  unfolding bulk_loop read_len
  bulk_loop-Outcome [] done st more future is fits bound =
      let (none_, rest) =
        no_bulklen st.client st.client.bulklen more (unread st.client ++ future) refl is.expects in
      (
        refl,
        inl (
          refl,
          record {
            argv = is.argv ∙ sym (append-nil done);
            count = is.count;
            bulklen = none_;
            input = rest;
            placed = is.placed;
          },
        ),
      )
  bulk_loop-Outcome (a ∷ todo) done st more future is fits bound =
      let midway : (c : Client)
          → Stands p num tx c done (a ∷ todo) more future
          → Midway c (done ++ a ∷ todo) more future =
        λ c k. record { done = done; arg = a; todo = todo; all = refl; stands = k } in
      let Goal : Bool × State → Type 0 = Outcome st (done ++ a ∷ todo) more future in
      let loop : State → Bool × State = bulk_loop p num (length todo) in
      let round : State → Bool × State = λ s. then_ (take_arg s.client.bulklen s) loop in
      elim (read_len_of-Goes p num tx st.client.bulklen st a todo done more future refl is fits.0
        bound) [
          | inl (e, later) ↦
              subst Goal (sym (ap (λ s. then_ s round) e))
                (refl, inr (refl, inr (midway st.client is), later))
          | inr (st', e, (k, n, same)) ↦
              let with_len : round st' ≡ then_ (take_arg (some (length a)) st') loop =
                ap (λ b. then_ (take_arg b st') loop) n in
              let ran = ap (λ s. then_ s round) e ∙ with_len in
              elim (take_arg-Goes p num tx st' a todo done more future n k) [
                | inl (f, later) ↦
                    subst Goal (sym (ran ∙ ap (λ s. then_ s loop) f))
                      (same, inr (refl, inr (midway st'.client k), later))
                | inr (st2, f, (k2, n2, same2)) ↦
                    let keeps : st2.server ≡ st.server = same2 ∙ same in
                    let r =
                      bulk_loop-Outcome todo (done ++ a ∷ []) st2 more future k2 (rw keeps fits.1)
                        (rw keeps bound) in
                    subst Goal (sym (ran ∙ ap (λ s. then_ s loop) f)) (
                      subst (λ args. Outcome st args more future (loop st2))
                        (append_assoc done (a ∷ []) todo) (r.0 ∙ keeps, r.1))
              ]
        ]

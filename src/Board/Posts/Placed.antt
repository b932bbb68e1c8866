-- ===== src/Board/Posts/Placed.antt =====
-- A post of src/board.rs as a whole: its reply inbox comes first, and the post names it.
use aamio_rust.Base.{
  Option, arith, ◌<◌, ◌+◌, ◌%◌, ◌^◌, ℕ, ◌≡◌, refl, sym, ◌∙◌, ◌⊎◌, inl, inr, true, false, ◌==◌, none,
  some, List, ◌∷◌, [], Bool-cases, Option-cases, Bytes, unwrap_or,
}
use mathlib.Core.Path.{subst}
use aamio_rust.Extern.Encodings.{Encodings}
use aamio_rust.Extern.Hashing.{Hashing}
use aamio_rust.Extern.Crypto.{Crypto}
use aamio_rust.Extern.Json.{Json}
use aamio_rust.Extern.Floats.{Floats}
use aamio_rust.Address.{is_w}
use aamio_rust.Keys.{Keys}
use aamio_rust.Client.Allow.{star}
use aamio_rust.Client.World.{World, State, Outcome, done, ◌>>=◌, NoValue, >>=-done}
use aamio_rust.Client.Threads.{Thread, open_thread}
use aamio_rust.Client.Threads.Opened.{Opened, open_thread-Opened}
use aamio_rust.Client.Presence.{key_of}
use aamio_rust.Board.Find.{Board}
use aamio_rust.Board.Posts.{
  PostOptions, Posted, board_ttl, is_bad_scope, inbox_ttl, post_fields, post_into, post_opened,
  post,
}
use aamio_rust.Board.Posts.Body.{PostBody, post_fields-PostBody}
use aamio_rust.Board.Posts.Inbox.{PostedInto, post_into-Posted}

-- A scope that is given is no address.
abbrev pub WrongScope : Option Bytes → Type 0
WrongScope scope = (x : Bytes) × (scope ≡ some x) × (is_w x ≡ false)

-- A scope that is given is an address.
abbrev pub GoodScope : Option Bytes → Type 0
GoodScope scope = (x : Bytes) → scope ≡ some x → is_w x ≡ true

scope-cases :
    (scope : Option Bytes)
    → (WrongScope scope × (is_bad_scope scope ≡ true))
      ⊎ (GoodScope scope × (is_bad_scope scope ≡ false))
unfolding is_bad_scope
scope-cases none = inr ((λ x given. ground (arith, given)), refl)
scope-cases (some x) = elim (Bool-cases (is_w x)) [
  | inl address ↦ inr ((λ y given. ground (arith, given, address)), ground (arith, address))
  | inr other ↦ inl ((x, refl, other), ground (arith, other))
]

module _ ⦃j : Json⦄ ⦃f : Floats⦄ ⦃e : Encodings⦄ ⦃h : Hashing⦄ ⦃c : Crypto⦄ ⦃world : World⦄
    (board : Board) where
  -- The inbox was opened, for any key and signed only, to live a minute longer than the post, and the
  -- post itself was made only where the inbox was created: its body names the inbox, and it comes
  -- after it.
  abbrev pub Placed :
      Bytes
      → Bytes
      → Bytes
      → List Bytes
      → PostOptions
      → Keys
      → State
      → Outcome Posted × State
      → Type 0
  Placed kind title text tags o keys s r =
      (inbox : Thread) × (t : State) × Opened board.client ((unwrap_or o.ttl 1800 + 60) % 2 ^ 32)
        (some (star ∷ [])) none inbox s (done inbox, t)
      × ((((inbox.answer.status == 201) ≡ false)
            × (r ≡ (done (record { answer = inbox.answer; inbox = inbox }), t)))
          ⊎ (((inbox.answer.status == 201) ≡ true)
              × ((m : j.Map) × PostBody kind title text tags inbox.w (unwrap_or o.ttl 1800) o m
                  × PostedInto board keys (j.to_string (j.object m)) inbox t r)))

  post_opened-refused :
      (keys : Keys) (kind title text : Bytes) (tags : List Bytes) (ttl : ℕ) (o : PostOptions)
      (inbox : Thread) (t : State)
      → (inbox.answer.status == 201) ≡ false
      → post_opened board keys kind title text tags ttl o inbox t
        ≡ (done (record { answer = inbox.answer; inbox = inbox }), t)
  unfolding post_opened
  post_opened-refused keys kind title text tags ttl o inbox t refused = rw refused refl

  post_opened-created :
      (keys : Keys) (kind title text : Bytes) (tags : List Bytes) (ttl : ℕ) (o : PostOptions)
      (inbox : Thread) (t : State)
      → (inbox.answer.status == 201) ≡ true
      → post_opened board keys kind title text tags ttl o inbox t
        ≡ post_into board keys
            (j.to_string (j.object (post_fields kind title text tags inbox.w ttl o)))
            inbox
            t
  unfolding post_opened
  post_opened-created keys kind title text tags ttl o inbox t created = rw created refl

  post-refused :
      (kind title text : Bytes) (tags : List Bytes) (o : PostOptions) (s : State)
      → (key_of board.client ≡ none) ⊎ (is_bad_scope o.scope ≡ true)
      → NoValue (post board kind title text tags o s).0
        × ((post board kind title text tags o s).1.log ≡ s.log)
  unfolding post
  post-refused kind title text tags o s (inl no_keys) = rw no_keys (tt, refl)
  post-refused kind title text tags o s (inr bad) = elim (Option-cases (key_of board.client)) [
    | inl no_keys ↦ rw no_keys (tt, refl)
    | inr (keys, has_keys) ↦ rw (has_keys, bad) (tt, refl)
  ]

  post-opened :
      (kind title text : Bytes) (tags : List Bytes) (o : PostOptions) (keys : Keys) (s : State)
      → key_of board.client ≡ some keys
      → is_bad_scope o.scope ≡ false
      → post board kind title text tags o s
        ≡ (open_thread board.client (inbox_ttl (unwrap_or o.ttl board_ttl)) (some (star ∷ [])) none
              >>= post_opened board keys kind title text tags (unwrap_or o.ttl board_ttl) o)
            s
  unfolding post
  post-opened kind title text tags o keys s has_keys good = rw (has_keys, good) refl

  post_opened-Placed :
      (kind title text : Bytes) (tags : List Bytes) (o : PostOptions) (keys : Keys) (s t : State)
      (inbox : Thread)
      → Opened board.client
          ((unwrap_or o.ttl 1800 + 60) % 2 ^ 32)
          (some (star ∷ []))
          none
          inbox
          s
          (done inbox, t)
      → world.fuel < 2 ^ 64
      → Placed kind title text tags o keys s
          (post_opened board keys kind title text tags (unwrap_or o.ttl board_ttl) o inbox t)
  post_opened-Placed kind title text tags o keys s t inbox opened small =
      let ttl = unwrap_or o.ttl board_ttl in
      elim (Bool-cases (inbox.answer.status == 201)) [
        | inr refused ↦ (
          inbox,
          t,
          opened,
          inl (refused, post_opened-refused keys kind title text tags ttl o inbox t refused),
        )
        | inl created ↦
            subst (Placed kind title text tags o keys s)
              (sym (post_opened-created keys kind title text tags ttl o inbox t created))
              (
                inbox,
                t,
                opened,
                inr (
                  created,
                  (
                    post_fields kind title text tags inbox.w ttl o,
                    post_fields-PostBody kind title text tags inbox.w ttl o,
                    post_into-Posted board keys
                        (j.to_string (j.object (post_fields kind title text tags inbox.w ttl o)))
                        inbox t small,
                  ),
                ),
              )
      ]

  keyed_post-Placed :
      (kind title text : Bytes) (tags : List Bytes) (o : PostOptions) (keys : Keys) (s : State)
      → key_of board.client ≡ some keys
      → is_bad_scope o.scope ≡ false
      → world.fuel < 2 ^ 64
      → Placed kind title text tags o keys s (post board kind title text tags o s)
  unfolding inbox_ttl
  keyed_post-Placed kind title text tags o keys s has_keys good small =
      let ttl = unwrap_or o.ttl board_ttl in
      let opening = open_thread board.client (inbox_ttl ttl) (some (star ∷ [])) none in
      let (inbox, opened) =
        open_thread-Opened board.client (inbox_ttl ttl) (some (star ∷ [])) none s in
      subst (Placed kind title text tags o keys s)
        (sym (
          post-opened kind title text tags o keys s has_keys good
          ∙ >>=-done opening (post_opened board keys kind title text tags ttl o) s inbox opened.0))
        (post_opened-Placed kind title text tags o keys s (opening s).1 inbox
          (refl, opened.1, opened.2, opened.3, opened.4, opened.5) small)

  -- A post without keys, or with a scope that is no address, is refused without a call. Otherwise the
  -- reply inbox is opened first, with a lifetime of a minute more than the post's as a `u32`, and where
  -- it is not created its answer is the answer of the post and nothing is posted. Where it is, the
  -- board's descriptor is read with one call, unless it was kept before, and with it the bits that it
  -- advises, cut to 32 bits and to 18 at most. For no bits the post carries no work, else a nonce that
  -- does it; a search that does not end tried every candidate of the model, none does the work, and
  -- nothing is posted. The post is made once, to the board, with the identity's key, its signature over
  -- the body and that nonce, and ends with its answer; its body gives the kind, title, text, tags,
  -- lifetime and the options, and the address of the inbox. The model follows less than 2^64
  -- candidates of the search.
  pub post-Placed :
      (kind title text : Bytes) (tags : List Bytes) (o : PostOptions) (s : State)
      → world.fuel < 2 ^ 64
      → (((key_of board.client ≡ none) ⊎ WrongScope o.scope)
          × NoValue (post board kind title text tags o s).0
          × ((post board kind title text tags o s).1.log ≡ s.log))
        ⊎ ((keys : Keys) × (key_of board.client ≡ some keys)
            × GoodScope o.scope
            × Placed kind title text tags o keys s (post board kind title text tags o s))
  post-Placed kind title text tags o s small = elim (Option-cases (key_of board.client)) [
    | inl no_keys ↦
        let (no_value, quiet) = post-refused kind title text tags o s (inl no_keys) in
        inl (inl no_keys, no_value, quiet)
    | inr (keys, has_keys) ↦ elim (scope-cases o.scope) [
      | inl (wrong, bad) ↦
          let (no_value, quiet) = post-refused kind title text tags o s (inr bad) in
          inl (inr wrong, no_value, quiet)
      | inr (right, good) ↦ inr (
        keys,
        has_keys,
        right,
        keyed_post-Placed kind title text tags o keys s has_keys good small,
      )
    ]
  ]

-- ===== src/Board/Find/Scoped.antt =====
-- What reading a scope in src/board.rs hands over, and the board's descriptor, which is read once.
use aamio_rust.Base.{
  ◌≡◌, ◌≢◌, refl, sym, ap, ◌⊎◌, inl, inr, true, false, ◌==◌, Option, none, some, List, ◌∷◌, [],
  arith, Result, ok, err, Bool-cases, Bytes, codes, concat, same_iff,
}
use mathlib.Core.Path.{subst}
use aamio_rust.Base.Int.{ℤ}
use aamio_rust.Extern.Encodings.{Encodings}
use aamio_rust.Extern.Hashing.{Hashing}
use aamio_rust.Extern.Crypto.{Crypto}
use aamio_rust.Extern.Json.{Json}
use aamio_rust.Extern.Floats.{Floats}
use aamio_rust.Address.{is_scope_key, scope_address}
use aamio_rust.Client.Answer.{Answer}
use aamio_rust.Client.Check.{is_text}
use aamio_rust.Client.World.{Request, Reply, World, State, Outcome, done, failed}
use aamio_rust.Client.Calls.{request_of, answer_of, call, call_reading}
use aamio_rust.Client.Threads.{next_of, listed}
use aamio_rust.Board.Find.{
  Board, FindOptions, find_fields, objects, named_scope, find_with, in_scope, find_in_scope,
}

is_text_iff : (t : Option Bytes) (s : Bytes) → (is_text t s ≡ true) → t ≡ some s
unfolding is_text
is_text_iff none s h = absurd (ground (arith, h))
is_text_iff (some t) s h = ap some ((same_iff t s).0 h)

is_text-not : (t : Option Bytes) (s : Bytes) → (is_text t s ≡ false) → t ≢ some s
unfolding is_text
is_text-not none s h = λ p. ground (arith, p)
is_text-not (some t) s h = λ p. ground (arith, h, p, same_iff t s)

module _ ⦃e : Encodings⦄ ⦃h : Hashing⦄ where
  scope_address-err :
      (scope_key reason : Bytes)
      → scope_address scope_key ≡ err reason
      → is_scope_key scope_key ≡ false
  unfolding scope_address
  scope_address-err scope_key reason refused = ground (arith, refused)

  scope_address-ok :
      (scope_key address : Bytes)
      → scope_address scope_key ≡ ok address
      → is_scope_key scope_key ≡ true
  unfolding scope_address
  scope_address-ok scope_key address derived = ground (arith, derived)

module _ ⦃j : Json⦄ ⦃f : Floats⦄ ⦃e : Encodings⦄ ⦃h : Hashing⦄ ⦃c : Crypto⦄ ⦃world : World⦄
    (board : Board) where
  -- The call that reads a scope: its key stands in the body, and the path is that of every search.
  unfoldable pub find_request : FindOptions → Bytes → Request
  find_request o scope_key =
      request_of (codes "POST") (concat (board.host ∷ codes "/find" ∷ []))
        (some (j.to_string (j.object (find_fields o (some scope_key)))))
        ((codes "Content-Type", codes "application/json") ∷ [])

  unfoldable pub find_reply : FindOptions → Bytes → State → Reply
  find_reply o scope_key s = world.reply s.log (find_request o scope_key)

  unfoldable pub find_answer : FindOptions → Bytes → State → Answer
  find_answer o scope_key s = (answer_of [] (find_reply o scope_key s)).0

  -- What is handed over of an answer: all that it lists where it names the scope or is no success, and
  -- an error else.
  abbrev pub Weighed : Bytes → Answer → FindOptions → Outcome (Answer × List j.Map × ℤ) → Type 0
  Weighed address answer o r =
      (((named_scope answer ≡ some address) ⊎ ((answer.status == 200) ≡ false))
        × (r ≡ done (answer, objects (listed answer (codes "posts")), next_of answer o.after)))
      ⊎ (((answer.status == 200) ≡ true)
          × (named_scope answer ≢ some address)
          × ((reason : Bytes) × (r ≡ failed reason)))

  abbrev pub Scoped :
      FindOptions → Bytes → State → Outcome (Answer × List j.Map × ℤ) × State → Type 0
  Scoped o scope_key s r =
      ((reason : Bytes) × (is_scope_key scope_key ≡ false)
        × (scope_address scope_key ≡ err reason)
        × (r ≡ (failed reason, s)))
      ⊎ ((address : Bytes) × (is_scope_key scope_key ≡ true)
          × (scope_address scope_key ≡ ok address)
          × (r.1.log ≡ (find_request o scope_key, find_reply o scope_key s) ∷ s.log)
          × Weighed address (find_answer o scope_key s) o r.0)

  in_scope-Weighed :
      (address : Bytes) (answer : Answer) (o : FindOptions) (t : State)
      → Weighed address answer o
          (in_scope board address
            (answer, objects (listed answer (codes "posts")), next_of answer o.after)
            t).0
        × ((in_scope board address
              (answer, objects (listed answer (codes "posts")), next_of answer o.after)
              t).1
            ≡ t)
  unfolding in_scope
  in_scope-Weighed address answer o t = elim (Bool-cases (answer.status == 200)) [
    | inr other ↦ rw other (inl (inr refl, refl), refl)
    | inl fine ↦ elim (Bool-cases (is_text (named_scope answer) address)) [
      | inl named ↦ rw (fine, named) (inl (inl (is_text_iff _ address named), refl), refl)
      | inr unnamed ↦
          rw (fine, unnamed) (inr (refl, is_text-not _ address unnamed, (_, refl)), refl)
    ]
  ]

  find_in_scope-err :
      (o : FindOptions) (scope_key reason : Bytes) (s : State)
      → scope_address scope_key ≡ err reason
      → find_in_scope board scope_key o s ≡ (failed reason, s)
  unfolding find_in_scope
  find_in_scope-err o scope_key reason s refused = ground (arith, refused)

  find_in_scope-ok :
      (o : FindOptions) (scope_key address : Bytes) (s : State)
      → scope_address scope_key ≡ ok address
      → find_in_scope board scope_key o s
        ≡ in_scope board address
            (
              find_answer o scope_key s,
              objects (listed (find_answer o scope_key s) (codes "posts")),
              next_of (find_answer o scope_key s) o.after,
            )
            (record s { log = (find_request o scope_key, find_reply o scope_key s) ∷ s.log })
  unfolding find_in_scope find_with call call_reading find_answer find_reply find_request
  find_in_scope-ok o scope_key address s derived = ground (arith, derived)

  -- A text that is no scope key, by is_scope_key, is refused without a call. Otherwise one call is made, to the path of
  -- every search, and posts are handed over only of an answer that names the address of the key, or
  -- that is no success; a success that does not name it is an error.
  pub find_in_scope-Scoped :
      (o : FindOptions) (scope_key : Bytes) (s : State)
      → Scoped o scope_key s (find_in_scope board scope_key o s)
  find_in_scope-Scoped o scope_key s = by_address (scope_address scope_key) refl
    where
      by_address :
          (a : Result Bytes)
          → scope_address scope_key ≡ a
          → Scoped o scope_key s (find_in_scope board scope_key o s)
      by_address (err reason) refused = inl (
        reason,
        scope_address-err scope_key reason refused,
        refused,
        find_in_scope-err o scope_key reason s refused,
      )
      by_address (ok address) derived =
          let t : State = record s {
            log = (find_request o scope_key, find_reply o scope_key s) ∷ s.log;
          } in
          let (weighed, same_state) = in_scope-Weighed address (find_answer o scope_key s) o t in
          subst (Scoped o scope_key s) (sym (find_in_scope-ok o scope_key address s derived)) (
            inr (
              address,
              scope_address-ok scope_key address derived,
              derived,
              ap (λ (u : State). u.log) same_state,
              weighed,
            ))

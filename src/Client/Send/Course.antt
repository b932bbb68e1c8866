-- ===== src/Client/Send/Course.antt =====
-- How a write in src/client.rs goes: what it posts, and how it ends by that.
use aamio_rust.Base.{
  ℕ, ◌≡◌, refl, sym, ap, ◌∙◌, ◌<◌, ◌^◌, ◌⊎◌, inl, inr, Bool, true, false, ◌||◌, ◌==◌, Option, none,
  some, List, ◌∷◌, ◌++◌, arith, Bytes, Bool-cases, same_refl,
}
use mathlib.Core.Path.{subst}
use aamio_rust.Extern.Encodings.{Encodings}
use aamio_rust.Extern.Hashing.{Hashing}
use aamio_rust.Extern.Crypto.{Crypto}
use aamio_rust.Extern.Json.{Json}
use aamio_rust.Extern.Floats.{Floats}
use aamio_rust.Keys.{Keys}
use aamio_rust.Client.Answer.{Answer}
use aamio_rust.Client.World.{
  Request, Reply, World, State, Outcome, done, failed, panicked, running, Action, ◌>>=◌, NoValue,
  >>=-done, >>=-cases,
}
use aamio_rust.Client.Calls.{Client}
use aamio_rust.Client.Gates.{forget_gate}
use aamio_rust.Client.Parcel.{Sent, Parcel, Attempt, stopped_late}
use aamio_rust.Client.Send.{attempt, finish, finish_again, attempted}
use aamio_rust.Client.Send.Posts.{answer_to, NoPost, IsPost, attempt-Attempted}

module _ ⦃j : Json⦄ where
  -- The send did not end with the answer of a service.
  abbrev pub Unsent : Outcome Sent → Type 0
  Unsent (done sent) = sent.stopped ≡ true
  Unsent (failed t) = Unit
  Unsent panicked = Unit
  Unsent running = Unit

  pub NoValue-Unsent : (o : Outcome Sent) → NoValue o → Unsent o
  NoValue-Unsent (done sent) none_there = absurd none_there
  NoValue-Unsent (failed t) none_there = tt
  NoValue-Unsent panicked none_there = tt
  NoValue-Unsent running none_there = tt

  -- The inbox is not there, or has expired.
  abbrev pub is_gone : Answer → Bool
  is_gone answer = answer.status == 404 || answer.status == 410

module _ ⦃j : Json⦄ ⦃f : Floats⦄ where
  -- Nothing was exchanged, and the send did not end with an answer.
  abbrev pub Held : State → Outcome Sent × State → Type 0
  Held s r = (r.1.log ≡ s.log) × Unsent r.0

module _ ⦃j : Json⦄ ⦃f : Floats⦄ (w : Bytes) (parcel : Parcel) where
  -- The send ends with the answer to a post, and with what was posted. Where the inbox is gone, what
  -- was kept of its gate is gone too.
  abbrev pub SentBy : Request × Reply → Option Bytes → Outcome Sent × State → Type 0
  SentBy x work r =
      (sent : Sent) × (r.0 ≡ done sent)
      × (sent.stopped ≡ false)
      × (sent.answer ≡ answer_to x)
      × (sent.bytes ≡ parcel.bytes)
      × (sent.work ≡ work)
      × ((is_gone (answer_to x) ≡ false) ⊎ ((r.1.gates w ≡ none) × (r.1.gate_left w ≡ none)))

module _ ⦃j : Json⦄ ⦃f : Floats⦄ ⦃e : Encodings⦄ ⦃h : Hashing⦄ ⦃c : Crypto⦄ ⦃world : World⦄
    (client : Client) (signing : Option Keys) (w : Bytes) (parcel : Parcel) where
  pub finish-SentBy :
      (x : Request × Reply) (work : Option Bytes) (notes : List Bytes) (s : State)
      → SentBy w parcel x work (finish client w parcel (answer_to x) work notes s)
        × ((finish client w parcel (answer_to x) work notes s).1.log ≡ s.log)
  unfolding finish forget_gate
  finish-SentBy x work notes s = elim (Bool-cases (is_gone (answer_to x))) [
    | inl gone ↦ rw gone (
      (
        _,
        refl,
        refl,
        refl,
        refl,
        refl,
        inr (ground (arith, same_refl w), ground (arith, same_refl w)),
      ),
      refl,
    )
    | inr there ↦ rw there ((_, refl, refl, refl, refl, refl, inl refl), refl)
  ]

  -- An attempt and what follows it: the attempt posted nothing, and the send is stopped, or the post
  -- was answered, and its answer goes on.
  abbrev pub PostThen : Option ℕ → (Attempt → Action Sent) → State → Outcome Sent × State → Type 0
  PostThen bits k s r =
      Held s r
      ⊎ ((x : Request × Reply) × (work : Option Bytes) × (t : State) × IsPost client signing w
            parcel bits work x
          × (x.1 ≡ world.reply s.log x.0)
          × (t.log ≡ x ∷ s.log)
          × (t.gate_left ≡ s.gate_left)
          × (t ≡ (attempt client signing w parcel bits s).1)
          × (r ≡ k (answer_to x, work, none) t))

  ran_out-Held :
      (bits : Option ℕ) (k : Attempt → Action Sent) (s t : State) (a : Attempt)
      → ((answer : Answer) (work : Option Bytes) (b : ℕ) (u : State)
          → Held u (k (answer, work, some b) u))
      → NoPost (done a)
      → t.log ≡ s.log
      → PostThen bits k s (k a t)
  ran_out-Held bits k s t (answer, work, none) stops impossible quiet = absurd impossible
  ran_out-Held bits k s t (answer, work, some b) stops no_post quiet =
      let (log, unsent) = stops answer work b t in inl (log ∙ quiet, unsent)

  pub attempt-then :
      (bits : Option ℕ) (k : Attempt → Action Sent) (s : State)
      → ((answer : Answer) (work : Option Bytes) (b : ℕ) (u : State)
          → Held u (k (answer, work, some b) u))
      → world.fuel < 2 ^ 64
      → PostThen bits k s ((attempt client signing w parcel bits >>= k) s)
  attempt-then bits k s stops small =
      elim (attempt-Attempted client signing w parcel bits s small) [
        | inl (x, work, is_post, replied, ends, log, left_kept) ↦ inr (
          x,
          work,
          (attempt client signing w parcel bits s).1,
          is_post,
          replied,
          log,
          left_kept,
          refl,
          >>=-done (attempt client signing w parcel bits) k s (answer_to x, work, none) ends,
        )
        | inr (no_post, quiet) ↦ elim (>>=-cases (attempt client signing w parcel bits) k s) [
          | inl (a, ends, steps) ↦ subst (PostThen bits k s) (sym steps) (
              ran_out-Held bits k s (attempt client signing w parcel bits s).1 a stops
                (subst NoPost ends no_post) quiet)
          | inr (none_there, same_state) ↦
              inl (ap (λ (t : State). t.log) same_state ∙ quiet, NoValue-Unsent _ none_there)
        ]
      ]

  -- What one post of the parcel can come to.
  abbrev pub PostedOnce : Option ℕ → State → Outcome Sent × State → Type 0
  PostedOnce bits s r =
      (x : Request × Reply) × (work : Option Bytes) × IsPost client signing w parcel bits work x
      × (x.1 ≡ world.reply s.log x.0)
      × (r.1.log ≡ x ∷ s.log)
      × SentBy w parcel x work r

  finish_again-Held :
      (notes more : List Bytes) (answer : Answer) (work : Option Bytes) (b : ℕ) (u : State)
      → Held u (finish_again client w parcel notes more (answer, work, some b) u)
  unfolding finish_again stopped_late
  finish_again-Held notes more answer work b u = (refl, refl)

  pub attempted-Held :
      (notes : List Bytes) (answer : Answer) (work : Option Bytes) (b : ℕ) (u : State)
      → Held u (attempted client signing w parcel notes (answer, work, some b) u)
  unfolding attempted stopped_late
  attempted-Held notes answer work b u = (refl, refl)

  finish-Posted :
      (bits : Option ℕ) (x : Request × Reply) (work : Option Bytes) (notes : List Bytes)
      (s t : State)
      → IsPost client signing w parcel bits work x
      → x.1 ≡ world.reply s.log x.0
      → t.log ≡ x ∷ s.log
      → PostedOnce bits s (finish client w parcel (answer_to x) work notes t)
  finish-Posted bits x work notes s t is_post replied log =
      let (sent_by, same_log) = finish-SentBy x work notes t in
      (x, work, is_post, replied, same_log ∙ log, sent_by)

  -- The second attempt.
  pub again-Posted :
      (bits : Option ℕ) (notes more : List Bytes) (s : State)
      → world.fuel < 2 ^ 64
      → Held s
          ((attempt client signing w parcel bits >>= finish_again client w parcel notes more) s)
        ⊎ PostedOnce bits s
            ((attempt client signing w parcel bits >>= finish_again client w parcel notes more) s)
  unfolding finish_again
  again-Posted bits notes more s small =
      elim (attempt-then bits (finish_again client w parcel notes more) s
        (finish_again-Held notes more) small) [
          | inl held ↦ inl held
          | inr (x, work, t, is_post, replied, log, left_kept, _, steps) ↦ inr (
              subst (PostedOnce bits s) (sym steps)
                (finish-Posted bits x work (notes ++ more) s t is_post replied log))
        ]

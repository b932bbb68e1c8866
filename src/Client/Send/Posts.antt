-- ===== src/Client/Send/Posts.antt =====
-- What one attempt of a write in src/client.rs posts.
use aamio_rust.Base.{
  ℕ, ◌≡◌, refl, sym, ap, ◌∙◌, ◌<◌, ◌^◌, ◌⊎◌, inl, inr, true, Option, none, some, ◌∷◌, [], Bytes,
  codes,
}
use mathlib.Core.Path.{subst}
use aamio_rust.Extern.Encodings.{Encodings}
use aamio_rust.Extern.Hashing.{Hashing}
use aamio_rust.Extern.Crypto.{Crypto}
use aamio_rust.Extern.Json.{Json}
use aamio_rust.Extern.Floats.{Floats}
use aamio_rust.Codec.{sha256_hex}
use aamio_rust.Keys.{Keys}
use aamio_rust.Gate.Work.{is_nonce}
use aamio_rust.Gate.Search.Solved.{Works}
use aamio_rust.Client.Answer.{Answer}
use aamio_rust.Client.World.{
  Request, Reply, World, State, Outcome, done, failed, panicked, running, NoValue, >>=-cases,
}
use aamio_rust.Client.Calls.{Client, request_of, answer_of, call_reading, call}
use aamio_rust.Client.Parcel.{Parcel, Attempt, key_of_signer, post_headers, asked_bits}
use aamio_rust.Client.Send.{post_url, post, solve_for, post_worked, attempt_bits, attempt}
use aamio_rust.Client.Send.Worked.{NonceWorks, solve_for-Works}

module _ ⦃j : Json⦄ where
  -- The answer that a reply to a post is decoded to.
  unfoldable pub answer_to : Request × Reply → Answer
  answer_to x = (answer_of [] x.1).0

  -- An attempt that posted nothing does not end with an answer.
  abbrev pub NoPost : Outcome Attempt → Type 0
  NoPost (done (answer, work, none)) = ⊥
  NoPost (done (answer, work, some bits)) = Unit
  NoPost (failed t) = Unit
  NoPost panicked = Unit
  NoPost running = Unit

  NoValue-NoPost : (o : Outcome Attempt) → NoValue o → NoPost o
  NoValue-NoPost (done a) none_there = absurd none_there
  NoValue-NoPost (failed t) none_there = tt
  NoValue-NoPost panicked none_there = tt
  NoValue-NoPost running none_there = tt

module _ ⦃e : Encodings⦄ ⦃h : Hashing⦄ ⦃c : Crypto⦄ (signing : Option Keys) (w : Bytes)
    (parcel : Parcel) where
  -- The work that a post carries: none where none is asked, and else a nonce that does it.
  abbrev pub WorkFor : Option ℕ → Option Bytes → Type 0
  WorkFor none work = work ≡ none
  WorkFor (some bits) work =
      (nonce : Bytes) × (work ≡ some nonce)
      × Works w (key_of_signer signing) (sha256_hex parcel.bytes) bits nonce
      × (is_nonce nonce ≡ true)

module _ ⦃j : Json⦄ ⦃f : Floats⦄ ⦃e : Encodings⦄ ⦃h : Hashing⦄ ⦃c : Crypto⦄ ⦃world : World⦄
    (client : Client) (signing : Option Keys) (w : Bytes) (parcel : Parcel) where
  -- The call of a post, with its body and its headers.
  unfoldable pub post_request : Option Bytes → Request
  post_request work =
      request_of (codes "POST") (post_url client w) (some parcel.bytes)
        (post_headers signing w parcel work)

  -- A post of the parcel, with the work that so many bits ask for.
  abbrev pub IsPost : Option ℕ → Option Bytes → Request × Reply → Type 0
  IsPost bits work x = (x.0 ≡ post_request work) × WorkFor signing w parcel (asked_bits bits) work

  -- The attempt made one post and ends with its answer, or it posted nothing.
  abbrev pub Attempted : Option ℕ → State → Outcome Attempt × State → Type 0
  Attempted bits s r =
      ((x : Request × Reply) × (work : Option Bytes) × IsPost bits work x
        × (x.1 ≡ world.reply s.log x.0)
        × (r.0 ≡ done (answer_to x, work, none))
        × (r.1.log ≡ x ∷ s.log)
        × (r.1.gate_left ≡ s.gate_left))
      ⊎ (NoPost r.0 × (r.1.log ≡ s.log))

  post-Attempted :
      (bits : Option ℕ) (work : Option Bytes) (s t : State)
      → WorkFor signing w parcel (asked_bits bits) work
      → t.log ≡ s.log
      → t.gate_left ≡ s.gate_left
      → Attempted bits s (post client signing w parcel work t)
  unfolding post post_request call call_reading answer_to
  post-Attempted bits work s t works quiet left_kept = inl (
    (post_request work, world.reply t.log (post_request work)),
    work,
    (refl, works),
    ap (λ l. world.reply l (post_request work)) quiet,
    refl,
    ap (λ l. (post_request work, world.reply t.log (post_request work)) ∷ l) quiet,
    left_kept,
  )

  post_worked-Attempted :
      (bits : Option ℕ) (b : ℕ) (nonce : Option Bytes) (s t : State)
      → asked_bits bits ≡ some b
      → NonceWorks w (key_of_signer signing) parcel.bytes b (done nonce)
      → t.log ≡ s.log
      → t.gate_left ≡ s.gate_left
      → Attempted bits s (post_worked client signing w parcel b nonce t)
  unfolding post_worked
  post_worked-Attempted bits b none s t asks works quiet left_kept = inr (tt, quiet)
  post_worked-Attempted bits b (some nonce) s t asks works quiet left_kept =
      post-Attempted bits (some nonce) s t
        (subst (λ a. WorkFor signing w parcel a (some nonce)) (sym asks)
          (nonce, refl, works.0, works.1))
        quiet left_kept

  attempt_bits-Attempted :
      (bits asked : Option ℕ) (s : State)
      → asked_bits bits ≡ asked
      → world.fuel < 2 ^ 64
      → Attempted bits s (attempt_bits client signing w parcel asked s)
  unfolding attempt_bits
  attempt_bits-Attempted bits none s asks small =
      post-Attempted bits none s s (subst (λ a. WorkFor signing w parcel a none) (sym asks) refl)
        refl refl
  attempt_bits-Attempted bits (some b) s asks small =
      let (works, quiet, left_kept) = solve_for-Works client signing w parcel.bytes b s small in
      elim (>>=-cases (solve_for client signing w parcel.bytes b)
        (post_worked client signing w parcel b) s) [
          | inr (none_there, same_state) ↦
              inr (NoValue-NoPost _ none_there, ap (λ (t : State). t.log) same_state ∙ quiet)
          | inl (nonce, ends, steps) ↦ subst (Attempted bits s) (sym steps) (
              post_worked-Attempted bits b nonce s (solve_for client signing w parcel.bytes b s).1
                asks (subst (NonceWorks w (key_of_signer signing) parcel.bytes b) ends works) quiet
                left_kept)
        ]

  pub attempt-Attempted :
      (bits : Option ℕ) (s : State)
      → world.fuel < 2 ^ 64
      → Attempted bits s (attempt client signing w parcel bits s)
  unfolding attempt
  attempt-Attempted bits s small = attempt_bits-Attempted bits (asked_bits bits) s refl small

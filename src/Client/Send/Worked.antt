-- ===== src/Client/Send/Worked.antt =====
-- The nonce of a write in src/client.rs: the work that it does, and when none is found.
use aamio_rust.Base.{
  ℕ, ◌≡◌, refl, sym, ap, ◌∙◌, ◌<◌, ◌^◌, inl, inr, true, Option, none, some, arith, Result, ok,
  Bytes,
}
use mathlib.Core.Path.{subst}
use aamio_rust.Extern.Encodings.{Encodings}
use aamio_rust.Extern.Hashing.{Hashing}
use aamio_rust.Extern.Crypto.{Crypto}
use aamio_rust.Extern.Json.{Json}
use aamio_rust.Extern.Floats.{Floats}
use aamio_rust.Codec.{sha256_hex}
use aamio_rust.Keys.{Keys}
use aamio_rust.Gate.Work.{is_nonce}
use aamio_rust.Gate.Search.{Search, found, timed_out, solve_until}
use aamio_rust.Gate.Search.Solved.{Works, Answers, solve_until_lem}
use aamio_rust.Client.World.{
  World, State, Outcome, done, failed, panicked, running, Action, ◌>>=◌, gets, NoValue, >>=-done,
  >>=-cases, instant_now,
}
use aamio_rust.Client.Calls.{Client}
use aamio_rust.Client.Gates.{seconds_left}
use aamio_rust.Client.Gates.Kept.{left_in_state, seconds_left-Counted}
use aamio_rust.Client.Parcel.{key_of_signer}
use aamio_rust.Client.Send.{searched, deadline_in, solve_for}

module _ ⦃e : Encodings⦄ ⦃h : Hashing⦄ where
  -- A nonce that was found does the work; other ends of a search say nothing.
  abbrev pub NonceWorks : Bytes → Bytes → Bytes → ℕ → Outcome (Option Bytes) → Type 0
  NonceWorks w key bytes bits (done (some nonce)) =
      Works w key (sha256_hex bytes) bits nonce × (is_nonce nonce ≡ true)
  NonceWorks w key bytes bits (done none) = Unit
  NonceWorks w key bytes bits (failed t) = Unit
  NonceWorks w key bytes bits panicked = Unit
  NonceWorks w key bytes bits running = Unit

module _ ⦃j : Json⦄ ⦃f : Floats⦄ ⦃world : World⦄ where
  deadline_in-log :
      (left : Option f.F64) (s : State)
      → ((deadline_in left s).1.log ≡ s.log) × ((deadline_in left s).1.gate_left ≡ s.gate_left)
  unfolding deadline_in instant_now
  deadline_in-log none s = (refl, refl)
  deadline_in-log (some left) s = (ground arith, ground arith)

module _ ⦃j : Json⦄ ⦃f : Floats⦄ ⦃e : Encodings⦄ ⦃h : Hashing⦄ where
  searched-Answers :
      (fuel : ℕ) (w key bytes : Bytes) (bits : ℕ) (deadline : Option ℕ) (clock : ℕ → ℕ) (x : Search)
      (s : State)
      → Answers fuel w key bytes bits deadline clock x
      → NonceWorks w key bytes bits (searched (ok x) s).0 × ((searched (ok x) s).1 ≡ s)
  unfolding searched
  searched-Answers fuel w key bytes bits deadline clock (found t) s works =
      ((works.0, works.1), refl)
  searched-Answers fuel w key bytes bits deadline clock timed_out s gives_up = (tt, refl)
  searched-Answers fuel w key bytes bits deadline clock Search.panicked s impossible =
      absurd impossible
  searched-Answers fuel w key bytes bits deadline clock Search.running s none_yet = (tt, refl)

  searched-Works :
      (fuel : ℕ) (w key bytes : Bytes) (bits : ℕ) (deadline : Option ℕ) (clock : ℕ → ℕ) (s : State)
      → fuel < 2 ^ 64
      → NonceWorks w key bytes bits
          (searched (solve_until fuel w key bytes bits deadline clock) s).0
        × ((searched (solve_until fuel w key bytes bits deadline clock) s).1 ≡ s)
  searched-Works fuel w key bytes bits deadline clock s small =
      elim (solve_until_lem fuel w key bytes bits deadline clock small) [
        | inl (above, refused) ↦ subst (Fine s) (sym refused) (unfold searched in (tt, refl))
        | inr (within, x, ends, answers) ↦
            subst (Fine s) (sym ends)
              (searched-Answers fuel w key bytes bits deadline clock x s answers)
      ]
    where
      Fine : State → Result Search → Type 0
      Fine t r = NonceWorks w key bytes bits (searched r t).0 × ((searched r t).1 ≡ t)

module _ ⦃j : Json⦄ ⦃f : Floats⦄ ⦃e : Encodings⦄ ⦃h : Hashing⦄ ⦃c : Crypto⦄ ⦃world : World⦄ where
  solve_by : Option Keys → Bytes → Bytes → ℕ → Option ℕ → Action (Option Bytes)
  solve_by signing w bytes bits deadline = gets (λ s. world.searching s.readings) >>= λ clock.
      searched (solve_until world.fuel w (key_of_signer signing) bytes bits deadline clock)

  -- What is done once the time left is known.
  solve_with : Option Keys → Bytes → Bytes → ℕ → Option f.F64 → Action (Option Bytes)
  solve_with signing w bytes bits left =
      deadline_in left >>= λ deadline. solve_by signing w bytes bits deadline

  abbrev NonceFound :
      Option Keys → Bytes → Bytes → ℕ → State → Outcome (Option Bytes) × State → Type 0
  NonceFound signing w bytes bits s r =
      NonceWorks w (key_of_signer signing) bytes bits r.0
      × (r.1.log ≡ s.log)
      × (r.1.gate_left ≡ s.gate_left)

  NoValue-Works :
      (w key bytes : Bytes) (bits : ℕ) (o : Outcome (Option Bytes))
      → NoValue o
      → NonceWorks w key bytes bits o
  NoValue-Works w key bytes bits (done a) none_there = absurd none_there
  NoValue-Works w key bytes bits (failed t) none_there = tt
  NoValue-Works w key bytes bits panicked none_there = tt
  NoValue-Works w key bytes bits running none_there = tt

  solve_by-Found :
      (signing : Option Keys) (w bytes : Bytes) (bits : ℕ) (deadline : Option ℕ) (s : State)
      → world.fuel < 2 ^ 64
      → NonceFound signing w bytes bits s (solve_by signing w bytes bits deadline s)
  unfolding solve_by
  solve_by-Found signing w bytes bits deadline s small =
      let (works, same_state) =
        searched-Works world.fuel w (key_of_signer signing) bytes bits deadline
          (world.searching s.readings) s small in
      (works, ap (λ (t : State). t.log) same_state, ap (λ (t : State). t.gate_left) same_state)

  solve_with-Found :
      (signing : Option Keys) (w bytes : Bytes) (bits : ℕ) (left : Option f.F64) (s : State)
      → world.fuel < 2 ^ 64
      → NonceFound signing w bytes bits s (solve_with signing w bytes bits left s)
  unfolding solve_with
  solve_with-Found signing w bytes bits left s small =
      elim (>>=-cases (deadline_in left) (solve_by signing w bytes bits) s) [
        | inl (deadline, ends, steps) ↦
            let (works, log, left_kept) =
              solve_by-Found signing w bytes bits deadline (deadline_in left s).1 small in
            subst (NonceFound signing w bytes bits s) (sym steps)
              (works, log ∙ (deadline_in-log left s).0, left_kept ∙ (deadline_in-log left s).1)
        | inr (none_there, same_state) ↦ (
          NoValue-Works w (key_of_signer signing) bytes bits _ none_there,
          ap (λ (t : State). t.log) same_state ∙ (deadline_in-log left s).0,
          ap (λ (t : State). t.gate_left) same_state ∙ (deadline_in-log left s).1,
        )
      ]

module _ ⦃j : Json⦄ ⦃f : Floats⦄ ⦃e : Encodings⦄ ⦃h : Hashing⦄ ⦃c : Crypto⦄ ⦃world : World⦄
    (client : Client) where
  -- The search exchanges nothing, and a nonce that it ends with does the work.
  pub solve_for-Works :
      (signing : Option Keys) (w bytes : Bytes) (bits : ℕ) (s : State)
      → world.fuel < 2 ^ 64
      → NonceWorks w (key_of_signer signing) bytes bits (solve_for client signing w bytes bits s).0
        × ((solve_for client signing w bytes bits s).1.log ≡ s.log)
        × ((solve_for client signing w bytes bits s).1.gate_left ≡ s.gate_left)
  unfolding solve_for solve_with solve_by
  solve_for-Works signing w bytes bits s small =
      let (ends, gates, log, left_kept, readings) = seconds_left-Counted w s in
      let left = left_in_state w s in
      let (works, same_log, same_left) =
        solve_with-Found signing w bytes bits left (seconds_left w s).1 small in
      subst (NonceFound signing w bytes bits s)
        (sym (>>=-done (seconds_left w) (solve_with signing w bytes bits) s left ends))
        (works, same_log ∙ log, same_left ∙ left_kept)

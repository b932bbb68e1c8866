-- ===== src/Client/World.antt =====
-- src/client.rs: what a client keeps between calls, and what it meets: the service, the clock and the
-- system's generator.
use aamio_rust.Base.{
  ◌-◌, ◌^◌, ltb, unwrap_or, ℕ, ◌+◌, ◌≡◌, refl, ◌⊎◌, inl, inr, Bool, Option, none, some, List,
  if◌then◌else◌, Bytes, same, arith,
}
use aamio_rust.Base.Int.{ℤ, pos, negsuc}
use aamio_rust.Extern.Json.{Json}
use aamio_rust.Extern.Floats.{Floats}
use aamio_rust.Receipt.{Receipt}

-- A call as `ureq` is asked to make it, with the headers in the order they are set.
pub record Request : Type 0 where
  pub method : Bytes
  pub url : Bytes
  pub body : Option Bytes
  pub headers : List (Bytes × Bytes)

-- What comes of it: a response of any status, with its headers and its text where it is readable, or
-- no response for a reason.
pub data Reply : Type 0 where
  response : ℕ → (Bytes → Option Bytes) → Option Bytes → Reply
  transport : Bytes → Reply

-- What the client meets. The service answers as it likes, by all that was exchanged before.
pub record World ⦃j : Json⦄ ⦃f : Floats⦄ : Type 0 where
  pub reply : List (Request × Reply) → Request → Reply
  -- the `k`-th reading of `Instant::now`, in nanoseconds, and of `SystemTime::now`, in
  -- seconds since 1970, `none` before it
  pub instant : ℕ → ℕ
  pub unix_time : ℕ → Option ℕ
  -- an instant plus a duration, which panics where the sum is no instant
  pub instant_add : ℕ → ℕ → Option ℕ
  -- the clock after `n` candidates of the search that begins after `k` readings
  pub searching : ℕ → ℕ → ℕ
  -- the `k`-th filling of a nonce, and the draws for the `k`-th read key
  pub nonce : ℕ → Bytes
  pub draws : ℕ → ℕ → ℕ
  -- what `hash_rate` has timed
  pub rate : f.F64
  -- `serde_json::from_str::<Receipt>`
  pub receipt_from_str : Bytes → Option Receipt
  -- whether the check of a raw message panics
  pub check_panics : j.Map → Bool
  -- how many candidates of a search the model follows
  pub fuel : ℕ

-- `as i64` of a `u64`.
abbrev pub as_i64 : ℕ → ℤ
as_i64 n = if ltb n (2 ^ 63) then pos n else negsuc (2 ^ 64 - 1 - n)

-- A `HashMap` with texts for keys.
abbrev pub Table : Type 0 → Type 0
Table A = Bytes → Option A

abbrev pub insert_at : {A : Type 0} → Bytes → A → Table A → Table A
insert_at k v m q = if same k q then some v else m q

abbrev pub remove_at : {A : Type 0} → Bytes → Table A → Table A
remove_at k m q = if same k q then none else m q

-- The caches of a client, what was exchanged so far, the newest first, and how often the clock was
-- read and the generator used.
pub record State ⦃j : Json⦄ ⦃f : Floats⦄ : Type 0 where
  pub gates : Table (Option j.Value)
  pub gate_left : Table (f.F64 × ℕ)
  pub log : List (Request × Reply)
  pub readings : ℕ
  pub fills : ℕ
  -- what the board over the client keeps of the board's descriptor
  pub descriptor : Option j.Map

-- How a call of the client ends: with a value, with `Err`, with a panic, or, in the model, with a
-- search that is still running when its fuel is used up.
pub data Outcome (A : Type 0) : Type 0 where
  done : A → Outcome A
  failed : Bytes → Outcome A
  panicked running : Outcome A

-- A call that ended otherwise than with a value.
abbrev pub NoValue : {A : Type 0} → Outcome A → Type 0
NoValue (done a) = ⊥
NoValue (failed e) = Unit
NoValue panicked = Unit
NoValue running = Unit

module _ ⦃j : Json⦄ ⦃f : Floats⦄ where
  abbrev pub Action : Type 0 → Type 0
  Action A = State → Outcome A × State

  abbrev pub pure : {A : Type 0} → A → Action A
  pure a s = (done a, s)

  abbrev pub end_with : {A : Type 0} → Outcome A → Action A
  end_with o s = (o, s)

  infixl 5 ◌>>=◌ ◌>>◌
  abbrev pub ◌>>=◌ : {A B : Type 0} → Action A → (A → Action B) → Action B
  ◌>>=◌ m k s =
      let (o, s') = m s in
      elim o [
        | done a ↦ k a s'
        | failed e ↦ (failed e, s')
        | panicked ↦ (panicked, s')
        | running ↦ (running, s')
      ]

  abbrev pub ◌>>◌ : {B : Type 0} → Action (Unit {0}) → Action B → Action B
  m >> k = m >>= λ _. k

  abbrev pub gets : {A : Type 0} → (State → A) → Action A
  gets f s = (done (f s), s)

  abbrev pub modify : (State → State) → Action (Unit {0})
  modify f s = (done tt, f s)

  -- `ok_or`, `?` on an `Option` turned into an error.
  abbrev pub or_fail : {A : Type 0} → Option A → Bytes → Action A
  or_fail none e = end_with (failed e)
  or_fail (some a) e = pure a

  abbrev pub or_panic : {A : Type 0} → Option A → Action A
  or_panic none = end_with panicked
  or_panic (some a) = pure a

module _ ⦃j : Json⦄ ⦃f : Floats⦄ {A B : Type 0} where
  -- A step that ended with a value hands it on.
  pub >>=-done :
      (m : Action A) (k : A → Action B) (s : State) (a : A)
      → (m s).0 ≡ done a
      → (m >>= k) s ≡ k a (m s).1
  >>=-done m k s a ends = ground (arith, ends)

  -- A sequence either goes on from the value of its first step, or ends where that step did.
  pub >>=-cases :
      (m : Action A) (k : A → Action B) (s : State)
      → ((a : A) × ((m s).0 ≡ done a) × ((m >>= k) s ≡ k a (m s).1))
        ⊎ (NoValue ((m >>= k) s).0 × (((m >>= k) s).1 ≡ (m s).1))
  >>=-cases m k s = split (m s).0 refl
    where
      split :
          (o : Outcome A)
          → (m s).0 ≡ o
          → ((a : A) × ((m s).0 ≡ done a) × ((m >>= k) s ≡ k a (m s).1))
            ⊎ (NoValue ((m >>= k) s).0 × (((m >>= k) s).1 ≡ (m s).1))
      split (done a) e = inl (a, e, ground (arith, e))
      split (failed t) e = inr (ground (arith, e), ground (arith, e))
      split panicked e = inr (ground (arith, e), ground (arith, e))
      split running e = inr (ground (arith, e), ground (arith, e))

module _ ⦃j : Json⦄ ⦃f : Floats⦄ ⦃world : World⦄ where
  -- `Instant::now`
  unfoldable pub instant_now : Action ℕ
  instant_now s = (done (world.instant s.readings), record s { readings = s.readings + 1 })

  -- The function `now`.
  unfoldable pub now : Action ℤ
  now s = (
    done (as_i64 (unwrap_or (world.unix_time s.readings) 0)),
    record s { readings = s.readings + 1 },
  )

  -- A filling of a nonce by the system's generator.
  unfoldable pub fill_nonce : Action Bytes
  fill_nonce s = (done (world.nonce s.fills), record s { fills = s.fills + 1 })

  -- The draws of the system's generator for a read key.
  unfoldable pub draw_id : Action (ℕ → ℕ)
  draw_id s = (done (world.draws s.fills), record s { fills = s.fills + 1 })

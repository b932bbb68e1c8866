-- ===== src/Board/Posts/Inbox.antt =====
-- The end of a post of src/board.rs: the work is done that the board advises, and the post is made.
use aamio_rust.Base.{
  tests, ◌<◌, ◌^◌, ℕ, ◌≡◌, refl, sym, ap, ◌∙◌, ◌≤◌, ◌⊎◌, inl, inr, Option, none, some, ◌∷◌, ◌++◌,
  [], arith, Result, ok, err, Bool-cases, Bytes, codes, concat, ltb, true,
}
use mathlib.Core.Path.{subst}
use aamio_rust.Extern.Encodings.{Encodings}
use aamio_rust.Extern.Hashing.{Hashing}
use aamio_rust.Extern.Crypto.{Crypto}
use aamio_rust.Extern.Json.{Json}
use aamio_rust.Extern.Floats.{Floats}
use aamio_rust.Keys.{Keys, sign, board_signing_input}
use aamio_rust.Base.Decimal.{decimal}
use aamio_rust.Codec.{sha256_hex}
use aamio_rust.Gate.Work.{is_nonce}
use aamio_rust.Gate.Search.Solved.{BoardWorks}
use aamio_rust.Gate.Search.Boarded.{Boarded, solve_board-Boarded}
use aamio_rust.Gate.Search.{Search, found, timed_out, solve_board}
use aamio_rust.Client.World.{
  Request, Reply, World, State, Outcome, done, running, Action, pure, ◌>>=◌, >>=-done,
}
use aamio_rust.Client.Calls.{request_of, answer_of, call, call_reading}
use aamio_rust.Client.Threads.{Thread}
use aamio_rust.Client.Presence.{json_headers}
use aamio_rust.Client.Parcel.{work_headers}
use aamio_rust.Client.Send.{searched}
use aamio_rust.Board.Find.{Board, advised_bits}
use aamio_rust.Board.Posts.Advised.{bits_for, ReadOnce, advised_bits-Advised}
use aamio_rust.Board.Posts.{Posted, board_work, post_into}

module _ ⦃j : Json⦄ ⦃f : Floats⦄ where
  searched-state : (r : Result Search) (s : State) → (searched r s).1 ≡ s
  unfolding searched
  searched-state (err m) s = refl
  searched-state (ok (found t)) s = refl
  searched-state (ok timed_out) s = refl
  searched-state (ok Search.panicked) s = refl
  searched-state (ok Search.running) s = refl

module _ ⦃j : Json⦄ ⦃f : Floats⦄ ⦃e : Encodings⦄ ⦃h : Hashing⦄ ⦃c : Crypto⦄ ⦃world : World⦄
    (board : Board) where
  board_work-state :
      (key bytes : Bytes) (bits : ℕ) (s : State) → (board_work board key bytes bits s).1 ≡ s
  unfolding board_work
  board_work-state key bytes bits s = elim (Bool-cases (ltb 0 bits)) [
    | inl some_work ↦ rw some_work (searched-state (solve_board world.fuel key bytes bits) s)
    | inr no_work ↦ rw no_work refl
  ]

  -- The work that a post carries: none for no bits, and else a nonce that does it.
  abbrev pub WorkDone : Bytes → Bytes → ℕ → Option Bytes → Type 0
  WorkDone key bytes bits work =
      ((bits ≡ 0) × (work ≡ none))
      ⊎ ((0 < bits)
          × ((nonce : Bytes) × (work ≡ some nonce)
              × BoardWorks key (sha256_hex bytes) bits nonce
              × (is_nonce nonce ≡ true)))

  -- The search is still running: no candidate within the fuel does the work.
  abbrev pub Searching : Bytes → Bytes → ℕ → Type 0
  Searching key bytes bits =
      (0 < bits) × ((k : ℕ) → k < world.fuel → ¬ BoardWorks key (sha256_hex bytes) bits (decimal k))

  -- How the search for the work ends.
  abbrev pub Worked : Bytes → Bytes → ℕ → Outcome (Option Bytes) → Type 0
  Worked key bytes bits o =
      ((work : Option Bytes) × (o ≡ done work) × WorkDone key bytes bits work)
      ⊎ ((o ≡ running) × Searching key bytes bits)

  searched-Worked :
      (key bytes : Bytes) (bits : ℕ) (x : Search) (s : State)
      → 0 < bits
      → Boarded world.fuel key bytes bits x
      → Worked key bytes bits (searched (ok x) s).0
  unfolding searched
  searched-Worked key bytes bits (found nonce) s some_bits works =
      inl (some nonce, refl, inr (some_bits, (nonce, refl, works.0, works.1)))
  searched-Worked key bytes bits timed_out s some_bits impossible = absurd impossible
  searched-Worked key bytes bits Search.panicked s some_bits impossible = absurd impossible
  searched-Worked key bytes bits Search.running s some_bits none_works =
      inr (refl, (some_bits, none_works))

  board_work-Worked :
      (key bytes : Bytes) (bits : ℕ) (s : State)
      → world.fuel < 2 ^ 64
      → bits ≤ 32
      → Worked key bytes bits (board_work board key bytes bits s).0
  unfolding board_work
  board_work-Worked key bytes bits s small few = elim (Bool-cases (ltb 0 bits)) [
    | inr no_work ↦ rw no_work (inl (none, refl, inl (ground (arith, no_work), refl)))
    | inl some_work ↦
        let (x, ends, boarded) = solve_board-Boarded world.fuel key bytes bits small few in
        rw (some_work, ends) (searched-Worked key bytes bits x s (omega (tests, some_work)) boarded)
  ]

  -- The call that puts a post on the board.
  unfoldable pub board_request : Keys → Bytes → Option Bytes → Request
  board_request keys bytes work =
      request_of (codes "POST") (concat (board.host ∷ codes "/" ∷ [])) (some bytes) (
        (codes "Content-Type", codes "application/json")
        ∷ (codes "X-Key", keys.public)
        ∷ (codes "X-Sig", sign keys (board_signing_input keys.public bytes))
        ∷ (elim work [ none ↦ [] | some nonce ↦ (codes "X-Work", nonce) ∷ [] ]))

  -- The search for the work did not end, and nothing was posted, or the work was done and the post
  -- was made and answered.
  abbrev pub Posting : Keys → Bytes → Thread → ℕ → State → Outcome Posted × State → Type 0
  Posting keys bytes inbox bits t r =
      ((r.0 ≡ running) × Searching keys.public bytes bits × (r.1.log ≡ t.log))
      ⊎ ((work : Option Bytes) × (reply : Reply) × WorkDone keys.public bytes bits work
          × (reply ≡ world.reply t.log (board_request keys bytes work))
          × (r.0 ≡ done (record { answer = (answer_of [] reply).0; inbox = inbox }))
          × (r.1.log ≡ (board_request keys bytes work, reply) ∷ t.log))

  -- The descriptor is read first, and the work that it advises is done.
  abbrev pub PostedInto : Keys → Bytes → Thread → State → Outcome Posted × State → Type 0
  PostedInto keys bytes inbox s r =
      (fields : j.Map) × (t : State) × ReadOnce board fields s t
      × Posting keys bytes inbox (bits_for fields) t r

  -- What is posted once the work is done.
  with_work : Keys → Bytes → Thread → Option Bytes → Action Posted
  with_work keys bytes inbox work =
      call (codes "POST") (concat (board.host ∷ codes "/" ∷ [])) (some bytes) (
        json_headers keys.public (sign keys (board_signing_input keys.public bytes))
        ++ work_headers work)
      >>= λ answer. pure (record { answer = answer; inbox = inbox })

  with_work-Posting :
      (keys : Keys) (bytes : Bytes) (inbox : Thread) (bits : ℕ) (work : Option Bytes) (t : State)
      → WorkDone keys.public bytes bits work
      → Posting keys bytes inbox bits t (with_work keys bytes inbox work t)
  unfolding with_work call call_reading board_request json_headers work_headers
  with_work-Posting keys bytes inbox bits none t worked =
      inr (none, world.reply t.log (board_request keys bytes none), worked, refl, refl, refl)
  with_work-Posting keys bytes inbox bits (some nonce) t worked = inr (
    some nonce,
    world.reply t.log (board_request keys bytes (some nonce)),
    worked,
    refl,
    refl,
    refl,
  )

  -- What is done once the bits are known.
  work_then_post : Keys → Bytes → Thread → ℕ → Action Posted
  work_then_post keys bytes inbox bits =
      board_work board keys.public bytes bits >>= with_work keys bytes inbox

  work_then_post-Posting :
      (keys : Keys) (bytes : Bytes) (inbox : Thread) (bits : ℕ) (t : State)
      → world.fuel < 2 ^ 64
      → bits ≤ 32
      → Posting keys bytes inbox bits t (work_then_post keys bytes inbox bits t)
  unfolding work_then_post
  work_then_post-Posting keys bytes inbox bits t small few =
      let quiet = board_work-state keys.public bytes bits t in
      elim (board_work-Worked keys.public bytes bits t small few) [
        | inl (work, ends, worked) ↦
            subst (Posting keys bytes inbox bits t)
              (sym (
                >>=-done (board_work board keys.public bytes bits) (with_work keys bytes inbox) t
                  work ends
                ∙ ap (with_work keys bytes inbox work) quiet))
              (with_work-Posting keys bytes inbox bits work t worked)
        | inr (ends, searching) ↦
            inl (
              ground (arith, ends),
              searching,
              ground (arith, ends, ap (λ (u : State). u.log) quiet),
            )
      ]

  pub post_into-Posted :
      (keys : Keys) (bytes : Bytes) (inbox : Thread) (s : State)
      → world.fuel < 2 ^ 64
      → PostedInto keys bytes inbox s (post_into board keys bytes inbox s)
  unfolding post_into with_work work_then_post
  post_into-Posted keys bytes inbox s small =
      let (fields, ends, once) = advised_bits-Advised board s in
      let t = (advised_bits board s).1 in
      (
        fields,
        t,
        once,
        subst (Posting keys bytes inbox (bits_for fields) t)
            (sym (
              >>=-done (advised_bits board) (work_then_post keys bytes inbox) s (bits_for fields)
                ends))
            (work_then_post-Posting keys bytes inbox (bits_for fields) t small (omega arith)),
      )

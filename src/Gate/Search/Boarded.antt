-- ===== src/Gate/Search/Boarded.antt =====
-- What the search for the work of a post, in src/gate.rs, ends with.
use aamio_rust.Base.{ℕ, ◌^◌, ◌≤◌, ◌<◌, ◌≡◌, refl, sym, ◌∙◌, true, none, arith, replicate, ok, Bytes}
use mathlib.Core.Bool.{false≢true}
use aamio_rust.Base.Decimal.{decimal}
use aamio_rust.Extern.Encodings.{Encodings}
use aamio_rust.Extern.Hashing.{Hashing}
use aamio_rust.Codec.{sha256_hex}
use aamio_rust.Gate.Work.{is_nonce}
use aamio_rust.Gate.Search.{
  Search, found, timed_out, panicked, running, is_past, first_nonce, first_nonce_until,
  board_pow_prefix, solve_board, solve_board_hashed,
}
use aamio_rust.Gate.Search.Least.{Ended, search_from-Ended}
use aamio_rust.Gate.Search.Solved.{BoardWorks, board_reaches_iff, decimal-is_nonce}

module _ ⦃e : Encodings⦄ ⦃h : Hashing⦄ where
  -- A nonce that does the work of a post, or a search that is still running: no candidate within the
  -- fuel does it.
  abbrev pub Boarded : ℕ → Bytes → Bytes → ℕ → Search → Type 0
  Boarded fuel key body bits (found nonce) =
      BoardWorks key (sha256_hex body) bits nonce × (is_nonce nonce ≡ true)
  Boarded fuel key body bits running =
      (k : ℕ) → k < fuel → ¬ BoardWorks key (sha256_hex body) bits (decimal k)
  Boarded fuel key body bits timed_out = ⊥
  Boarded fuel key body bits panicked = ⊥

  -- The end of the search without a deadline, as `first_nonce` hands it on.
  handed_on : Search → Search
  handed_on s = elim s [ timed_out ↦ panicked | other ↦ other ]

  Boarded-Ended :
      (fuel : ℕ) (key body : Bytes) (bits : ℕ) (s : Search)
      → fuel < 2 ^ 64
      → Ended (board_pow_prefix key (sha256_hex body)) bits none (λ n. 0) fuel 0 s
      → Boarded fuel key body bits (handed_on s)
  unfolding is_past handed_on
  Boarded-Ended fuel key body bits (found t) small (m, text, le, lt, good, least, time) =
      rw text
        ((board_reaches_iff key (sha256_hex body) bits m).0 good, decimal-is_nonce m (omega arith))
  Boarded-Ended fuel key body bits timed_out small (m, le, lt, past, least, time) =
      absurd (false≢true past)
  Boarded-Ended fuel key body bits panicked small h = h
  Boarded-Ended fuel key body bits running small (least, time) = λ k below work. false≢true (
      sym (least k (omega arith) (omega arith))
      ∙ (board_reaches_iff key (sha256_hex body) bits k).1 work)

  -- For at most 32 bits the search for the work of a post is not refused.
  pub solve_board-Boarded :
      (fuel : ℕ) (key body : Bytes) (bits : ℕ)
      → fuel < 2 ^ 64
      → bits ≤ 32
      → (s : Search) × (solve_board fuel key body bits ≡ ok s) × Boarded fuel key body bits s
  unfolding solve_board solve_board_hashed first_nonce first_nonce_until handed_on
  solve_board-Boarded fuel key body bits small few = (
    _,
    ground (arith, few),
    Boarded-Ended fuel key body bits _ small (
        search_from-Ended (board_pow_prefix key (sha256_hex body)) bits none (λ n. 0) fuel 0
          (replicate 20 0) (omega arith) refl),
  )

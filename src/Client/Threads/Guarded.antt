-- ===== src/Client/Threads/Guarded.antt =====
-- What a thread in src/client.rs hands over of what the service answered.
use aamio_rust.Base.{
  ℕ, ◌≡◌, refl, Option, none, List, ◌∷◌, [], All, Bytes, codes, concat, any, same,
}
use aamio_rust.Base.Int.{ℤ}
use aamio_rust.Extern.Encodings.{Encodings}
use aamio_rust.Extern.Hashing.{Hashing}
use aamio_rust.Extern.Crypto.{Crypto}
use aamio_rust.Extern.Envelopes.{Envelopes}
use aamio_rust.Extern.Json.{Json}
use aamio_rust.Extern.Floats.{Floats}
use aamio_rust.Client.Answer.{Answer}
use aamio_rust.Client.Message.{Message}
use aamio_rust.Client.Allow.{KeptOut, star, normalize_allow}
use aamio_rust.Client.Allow.Handed.{Vouched, filter_messages-Vouched}
use aamio_rust.Client.World.{Request, World, State, done}
use aamio_rust.Client.Calls.{Client, request_of, answer_of, call, call_reading}
use aamio_rust.Client.Threads.{
  Thread, after_path, wait_path, read_headers, next_of, listed, checked_items, read_limited,
  read_thread_limited,
}

module _ ⦃j : Json⦄ ⦃f : Floats⦄ ⦃e : Encodings⦄ ⦃h : Hashing⦄ ⦃c : Crypto⦄ ⦃v : Envelopes⦄
    ⦃world : World⦄ (client : Client) where
  -- The call that reads a thread.
  unfoldable pub read_request : Thread → ℤ → ℕ → Option ℕ → Option ℕ → Request
  read_request thread after wait limit max_bytes =
      request_of (codes "GET")
        (concat (client.host ∷ codes "/" ∷ thread.w ∷ after_path after wait ∷ wait_path wait ∷ []))
        none (read_headers thread.id limit max_bytes)

  unfoldable pub read_answer : Thread → ℤ → ℕ → Option ℕ → Option ℕ → State → Answer
  read_answer thread after wait limit max_bytes s =
      (answer_of [] (world.reply s.log (read_request thread after wait limit max_bytes))).0

  -- A read of a thread whose list names anything is one call, and ends with its answer and the cursor
  -- for it. Whatever the service lists and whatever check panics, every message that is handed over is
  -- one of those listed, has a body, a hash and a signature for the thread's address that check out,
  -- and is signed by a sender in the list, or the list is the star.
  pub read_thread_limited-Vouched :
      (thread : Thread) (after : ℤ) (wait : ℕ) (limit max_bytes : Option ℕ) (s : State)
      (key : Bytes) (others : List Bytes)
      → normalize_allow thread.allow ≡ key ∷ others
      → (messages : List Message) × (kept : List KeptOut) × ((read_thread_limited client thread
            after wait limit max_bytes s).0
          ≡ done (
            read_answer thread after wait limit max_bytes s,
            messages,
            kept,
            next_of (read_answer thread after wait limit max_bytes s) after,
          ))
        × ((read_thread_limited client thread after wait limit max_bytes s).1.log
            ≡ (
              read_request thread after wait limit max_bytes,
              world.reply s.log (read_request thread after wait limit max_bytes),
            )
              ∷ s.log)
        × All
            (Vouched client.keys thread.w (key ∷ others) (any (same star) (key ∷ others)) (
              checked_items client
                (listed (read_answer thread after wait limit max_bytes s) (codes "messages"))))
            messages
  unfolding read_thread_limited read_limited call call_reading read_request read_answer
  read_thread_limited-Vouched thread after wait limit max_bytes s key others normal = (
    _,
    _,
    refl,
    refl,
    filter_messages-Vouched client.keys thread.w thread.allow
        (checked_items client
          (listed (read_answer thread after wait limit max_bytes s) (codes "messages")))
        key others normal,
  )

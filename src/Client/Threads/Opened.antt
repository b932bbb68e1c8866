-- ===== src/Client/Threads/Opened.antt =====
-- What opening a thread in src/client.rs does.
use aamio_rust.Base.{
  ℕ, ◌≡◌, refl, sym, inl, inr, true, Option, some, List, ◌∷◌, [], arith, ok, unwrap_or, map_option,
  Bytes, codes, concat,
}
use mathlib.Core.Path.{subst}
use aamio_rust.Extern.Encodings.{Encodings}
use aamio_rust.Extern.Hashing.{Hashing}
use aamio_rust.Extern.Crypto.{Crypto}
use aamio_rust.Extern.Json.{Json}
use aamio_rust.Extern.Floats.{Floats}
use aamio_rust.Address.{new_id, w, is_id, is_w}
use aamio_rust.Address.Shape.{new_id-is_id, w-is_w}
use aamio_rust.Client.Allow.{normalize_allow}
use aamio_rust.Client.World.{Request, Reply, World, State, Outcome, done, draw_id}
use aamio_rust.Client.Calls.{Client, request_of, answer_of, call, call_reading}
use aamio_rust.Client.Threads.{Thread, open_headers, gate_body, open_at, open_thread}

module _ ⦃j : Json⦄ ⦃f : Floats⦄ ⦃e : Encodings⦄ ⦃h : Hashing⦄ ⦃c : Crypto⦄ ⦃world : World⦄
    (client : Client) where
  -- The call that opens a thread.
  unfoldable pub open_request : Bytes → Bytes → ℕ → List Bytes → Option j.Value → Request
  open_request id address ttl allow gate =
      request_of (codes "PUT") (concat (client.host ∷ codes "/" ∷ address ∷ []))
        (map_option gate_body gate) (open_headers id ttl allow)

  -- The call was made, and the thread holds what it was made with and what was answered.
  abbrev pub Opened :
      ℕ → Option (List Bytes) → Option j.Value → Thread → State → Outcome Thread × State → Type 0
  Opened ttl allow gate thread s r =
      (r.0 ≡ done thread)
      × (is_id thread.id ≡ true)
      × (w thread.id ≡ ok thread.w)
      × (is_w thread.w ≡ true)
      × (thread.allow ≡ normalize_allow (unwrap_or allow []))
      × ((reply : Reply) × (reply
            ≡ world.reply s.log (open_request thread.id thread.w ttl thread.allow gate))
          × (thread.answer ≡ (answer_of [] reply).0)
          × (r.1.log ≡ (open_request thread.id thread.w ttl thread.allow gate, reply) ∷ s.log)
          × (r.1.descriptor ≡ s.descriptor))

  open_thread-open_at :
      (ttl : ℕ) (allow : Option (List Bytes)) (gate : Option j.Value) (s : State)
      (id address : Bytes)
      → new_id (world.draws s.fills) ≡ some id
      → w id ≡ ok address
      → open_thread client ttl allow gate s
        ≡ open_at client id address ttl (normalize_allow (unwrap_or allow [])) gate (draw_id s).1
  unfolding open_thread draw_id
  open_thread-open_at ttl allow gate s id address drawn derived = ground (arith, drawn, derived)

  -- Whatever the generator draws, a thread is opened with one call, and whatever is answered it ends
  -- with a thread: a new read key, the write address that is derived from it and that the call was
  -- made to, the list as it was normalized and sent, and the answer.
  pub open_thread-Opened :
      (ttl : ℕ) (allow : Option (List Bytes)) (gate : Option j.Value) (s : State)
      → (thread : Thread) × Opened ttl allow gate thread s (open_thread client ttl allow gate s)
  open_thread-Opened ttl allow gate s =
      let ((id, drawn, is_key), _) = new_id-is_id (world.draws s.fills) in
      elim (w-is_w id) [
        | inr (no_key, refused) ↦ absurd (ground (arith, is_key, no_key))
        | inl (good, address, derived, is_address) ↦
            let list = normalize_allow (unwrap_or allow []) in
            let request = open_request id address ttl list gate in
            let reply = world.reply s.log request in
            let thread : Thread = record {
              id = id;
              w = address;
              allow = list;
              answer = (answer_of [] reply).0;
            } in
            (
              thread,
              subst (Opened ttl allow gate thread s)
                  (sym (open_thread-open_at ttl allow gate s id address drawn derived))
                  (unfold open_at call call_reading draw_id open_request in
                    (refl, is_key, derived, is_address, refl, (reply, refl, refl, refl, refl))),
            )
      ]

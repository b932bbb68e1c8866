-- ===== src/Board/Posts/Vouched.antt =====
-- The calls that speak for a key, in src/client.rs and src/board.rs.
use aamio_rust.Base.{
  map, concat, unwrap_or, ℕ, ◌≡◌, refl, some, List, ◌∷◌, [], true, arith, Bytes, codes, same,
}
use aamio_rust.Base.Int.{pos}
use aamio_rust.Extern.Encodings.{Encodings}
use aamio_rust.Extern.Hashing.{Hashing}
use aamio_rust.Extern.Crypto.{Crypto}
use aamio_rust.Extern.Json.{Json}
use aamio_rust.Extern.Floats.{Floats}
use aamio_rust.Keys.{
  from_seed, sign, verify, presence_signing_input, presence_delete_signing_input,
  board_delete_signing_input,
}
use aamio_rust.Keys.Identity.{verify-sign, from_seed_lem}
use aamio_rust.Client.Answer.{Answer}
use aamio_rust.Client.World.{Request, Reply, World, State, Outcome, done, now, as_i64}
use aamio_rust.Client.Calls.{Client, set_headers, request_of, answer_of, call, call_reading}
use aamio_rust.Client.Presence.{
  strings, publish_body, presence_url, at_body, json_headers, presence_publish, presence_delete,
  key_of,
}
use aamio_rust.Client.Send.Carried.{header_in, public-not_empty, sign-not_empty}
use aamio_rust.Board.Find.{Board}
use aamio_rust.Board.Find.Inserted.{get-insert-here, get-insert-there}
use aamio_rust.Board.Posts.{withdraw}

module _ ⦃e : Encodings⦄ ⦃h : Hashing⦄ ⦃c : Crypto⦄ where
  -- The call names the key, and carries a signature by it over a text that is made of its body.
  abbrev pub VouchedBy : Bytes → (Bytes → Bytes) → Bytes → Request → Type 0
  VouchedBy key input body request =
      (signature : Bytes) × (request.body ≡ some body)
      × (header_in (codes "X-Key") request.headers ≡ some key)
      × (header_in (codes "X-Sig") request.headers ≡ some signature)
      × (verify key signature (input body) ≡ true)

  signed_request-VouchedBy :
      (seed method url body : Bytes) (input : Bytes → Bytes)
      → VouchedBy (from_seed seed).public input body (
          request_of method url
            (some body)
            (json_headers (from_seed seed).public (sign (from_seed seed) (input body))))
  unfolding request_of json_headers set_headers header_in codes same
  signed_request-VouchedBy seed method url body input =
      rw (public-not_empty seed, sign-not_empty seed (input body))
        (sign (from_seed seed) (input body), refl, refl, refl, verify-sign seed (input body))

module _ ⦃j : Json⦄ where
  -- The object of a presence: where its key is read, under what tags, and for how long.
  abbrev pub PresenceBody : Bytes → List Bytes → ℕ → j.Map → Type 0
  PresenceBody w tags ttl m =
      (j.get m (codes "w") ≡ some (j.string w))
      × (j.get m (codes "tags") ≡ some (j.array (map j.string tags)))
      × (j.get m (codes "ttl") ≡ some (j.number (pos ttl)))

  -- The fields of `publish_body`.
  presence_fields : Bytes → List Bytes → ℕ → j.Map
  presence_fields w tags ttl =
      j.insert (j.insert (j.insert j.empty (codes "w") (j.string w)) (codes "tags") (strings tags))
        (codes "ttl") (j.number (pos ttl))

  presence_fields-PresenceBody :
      (w : Bytes) (tags : List Bytes) (ttl : ℕ)
      → PresenceBody w tags ttl (presence_fields w tags ttl)
  unfolding presence_fields strings codes same
  presence_fields-PresenceBody w tags ttl = (
    get-insert-there _ _ _ _ _ refl (get-insert-there _ _ _ _ _ refl (get-insert-here _ _ _)),
    get-insert-there _ _ _ _ _ refl (get-insert-here _ _ _),
    get-insert-here _ _ _,
  )

module _ ⦃j : Json⦄ ⦃f : Floats⦄ ⦃world : World⦄ where
  -- The object that gives the time of the next reading of the clock, in seconds since 1970, 0 before.
  abbrev pub AtBody : State → j.Map → Type 0
  AtBody s m =
      j.get m (codes "at") ≡ some (j.number (as_i64 (unwrap_or (world.unix_time s.readings) 0)))

module _ ⦃j : Json⦄ ⦃f : Floats⦄ ⦃e : Encodings⦄ ⦃h : Hashing⦄ ⦃c : Crypto⦄ ⦃world : World⦄ where
  -- One call was made, by this method to this URL, with an object like this in its body; it is vouched
  -- for, and the outcome is its answer.
  abbrev pub OneCall :
      Bytes
      → Bytes
      → (j.Map → Type 0)
      → Bytes
      → (Bytes → Bytes)
      → State
      → Outcome Answer × State
      → Type 0
  OneCall method url IsBody key input s r =
      (m : j.Map) × (request : Request) × (reply : Reply) × IsBody m
      × (request.method ≡ method)
      × (request.url ≡ url)
      × VouchedBy key input (j.to_string (j.object m)) request
      × (reply ≡ world.reply s.log request)
      × (r.1.log ≡ (request, reply) ∷ s.log)
      × (r.0 ≡ done (answer_of [] reply).0)

  -- The presence of the identity is put where its key says.
  abbrev pub Publishes :
      Client → Bytes → Bytes → List Bytes → ℕ → State → Outcome Answer × State → Type 0
  Publishes client seed w tags ttl =
      OneCall (codes "PUT") (concat (client.host ∷ codes "/p/" ∷ (from_seed seed).public ∷ []))
        (PresenceBody w tags ttl) (from_seed seed).public
        (presence_signing_input (from_seed seed).public)

  -- The presence of the identity is deleted.
  abbrev pub Retracts : Client → Bytes → State → Outcome Answer × State → Type 0
  Retracts client seed s =
      OneCall (codes "DELETE") (concat (client.host ∷ codes "/p/" ∷ (from_seed seed).public ∷ []))
        (AtBody s) (from_seed seed).public (presence_delete_signing_input (from_seed seed).public) s

  -- A post is deleted from the board.
  abbrev pub TakesOff : Board → Bytes → Bytes → State → Outcome Answer × State → Type 0
  TakesOff board seed id s =
      OneCall (codes "DELETE") (concat (board.host ∷ codes "/" ∷ id ∷ [])) (AtBody s)
        (from_seed seed).public (board_delete_signing_input id) s

  presence_publish-Publishes :
      (client : Client) (seed w : Bytes) (tags : List Bytes) (ttl : ℕ) (s : State)
      → client.keys ≡ some (from_seed seed)
      → Publishes client seed w tags ttl s (presence_publish client w tags ttl s)
  unfolding presence_publish publish_body presence_url presence_fields request_of call call_reading
  presence_publish-Publishes client seed w tags ttl s has_keys = rw has_keys (
    presence_fields w tags ttl,
    _,
    _,
    presence_fields-PresenceBody w tags ttl,
    refl,
    refl,
    signed_request-VouchedBy seed (codes "PUT")
        (concat (client.host ∷ codes "/p/" ∷ (from_seed seed).public ∷ [])) _
        (presence_signing_input (from_seed seed).public),
    refl,
    refl,
    refl,
  )

  presence_delete-Retracts :
      (client : Client) (seed : Bytes) (s : State)
      → client.keys ≡ some (from_seed seed)
      → Retracts client seed s (presence_delete client s)
  unfolding presence_delete presence_url at_body now request_of call call_reading
  presence_delete-Retracts client seed s has_keys = rw has_keys (
    _,
    _,
    _,
    get-insert-here _ _ _,
    refl,
    refl,
    signed_request-VouchedBy seed (codes "DELETE")
        (concat (client.host ∷ codes "/p/" ∷ (from_seed seed).public ∷ [])) _
        (presence_delete_signing_input (from_seed seed).public),
    refl,
    refl,
    refl,
  )

  key_of-from_seed :
      (client : Client) (seed : Bytes)
      → client.keys ≡ some (from_seed seed)
      → key_of client ≡ some (from_seed seed)
  unfolding key_of
  key_of-from_seed client seed has_keys = ground (arith, has_keys, (from_seed_lem seed).0)

  withdraw-TakesOff :
      (board : Board) (seed id : Bytes) (s : State)
      → board.client.keys ≡ some (from_seed seed)
      → TakesOff board seed id s (withdraw board id s)
  unfolding withdraw at_body now request_of call call_reading
  withdraw-TakesOff board seed id s has_keys = rw (key_of-from_seed board.client seed has_keys) (
    _,
    _,
    _,
    get-insert-here _ _ _,
    refl,
    refl,
    signed_request-VouchedBy seed (codes "DELETE") (concat (board.host ∷ codes "/" ∷ id ∷ [])) _
        (board_delete_signing_input id),
    refl,
    refl,
    refl,
  )

  -- A client with an identity publishes its presence, deletes it and takes a post off the board with
  -- one call each, whose answer is the outcome: a PUT of an object with the address, the tags and the
  -- lifetime to the path of the key, a DELETE of that path, and a DELETE of the path of the post, both
  -- with the time of the clock as "at". Each names the identity's key and carries a signature that
  -- verifies under it, over the text for that purpose and for the body of the call.
  pub signed_calls_lem :
      (board : Board) (seed w id : Bytes) (tags : List Bytes) (ttl : ℕ) (s : State)
      → board.client.keys ≡ some (from_seed seed)
      → Publishes board.client seed w tags ttl s (presence_publish board.client w tags ttl s)
        × Retracts board.client seed s (presence_delete board.client s)
        × TakesOff board seed id s (withdraw board id s)
  signed_calls_lem board seed w id tags ttl s has_keys = (
    presence_publish-Publishes board.client seed w tags ttl s has_keys,
    presence_delete-Retracts board.client seed s has_keys,
    withdraw-TakesOff board seed id s has_keys,
  )

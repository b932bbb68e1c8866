-- ===== src/Client/Presence.antt =====
-- src/client.rs: the record of where a key can be reached.
use aamio_rust.Base.{
  ℕ, ◌∷◌, ltb, if◌then◌else◌, Option, none, some, List, [], map, Bytes, codes, concat,
}
use Prim.Native.Nat.{min}
use aamio_rust.Base.Int.{pos}
use aamio_rust.Extern.Encodings.{Encodings}
use aamio_rust.Extern.Hashing.{Hashing}
use aamio_rust.Extern.Crypto.{Crypto}
use aamio_rust.Extern.Json.{Json}
use aamio_rust.Extern.Floats.{Floats}
use aamio_rust.Codec.{is_key}
use aamio_rust.Keys.{Keys, sign, presence_signing_input, presence_delete_signing_input}
use aamio_rust.Client.Answer.{Answer}
use aamio_rust.Client.World.{World, Action, pure, ◌>>=◌, or_fail, now}
use aamio_rust.Client.Calls.{Client, call}

module _ ⦃j : Json⦄ where
  -- The texts of a list as a JSON array.
  unfoldable pub strings : List Bytes → j.Value
  strings texts = j.array (map j.string texts)

  unfoldable pub publish_body : Bytes → List Bytes → ℕ → Bytes
  publish_body w tags ttl = j.to_string (
      j.object (
        j.insert
          (j.insert (j.insert j.empty (codes "w") (j.string w)) (codes "tags") (strings tags))
          (codes "ttl") (j.number (pos ttl))))

  unfoldable pub lookup_body : List Bytes → ℕ → Bytes
  lookup_body prefixes wait =
      let body = j.insert j.empty (codes "prefixes") (strings prefixes) in
      j.to_string (
        j.object (
          if ltb 0 wait then j.insert body (codes "wait") (j.number (pos (min wait 25))) else body))

  -- `json!({ "at": now() })`, written, for the time of the clock.
  unfoldable pub at_body : ⦃f : Floats⦄ → ⦃world : World⦄ → Action Bytes
  at_body = do at ← now; pure (j.to_string (j.object (j.insert j.empty (codes "at") (j.number at))))

-- The headers of a signed request that carries JSON.
unfoldable pub json_headers : Bytes → Bytes → List (Bytes × Bytes)
json_headers key sig =
    (codes "Content-Type", codes "application/json")
    ∷ (codes "X-Key", key)
    ∷ (codes "X-Sig", sig)
    ∷ []

module _ ⦃c : Crypto⦄ (client : Client) where
  unfoldable pub presence_url : Bytes → Bytes
  presence_url key = concat (client.host ∷ codes "/p/" ∷ key ∷ [])

  -- `filter(|k| is_key(&k.public))`
  unfoldable pub key_of : Option Keys
  key_of = elim client.keys [
    | none ↦ none
    | some keys ↦ if is_key keys.public then some keys else none
  ]

module _ ⦃j : Json⦄ ⦃f : Floats⦄ ⦃c : Crypto⦄ ⦃world : World⦄ (client : Client) where
  unfoldable pub presence_get : Bytes → Action Answer
  presence_get key = call (codes "GET") (presence_url client key) none []

  unfoldable pub presence_lookup : List Bytes → ℕ → Action Answer
  presence_lookup prefixes wait =
      call (codes "POST")
        (concat (client.host ∷ (if ltb 0 wait then codes "/p/watch" else codes "/p/lookup") ∷ []))
        (some (lookup_body prefixes wait)) ((codes "Content-Type", codes "application/json") ∷ [])

module _ ⦃j : Json⦄ ⦃f : Floats⦄ ⦃e : Encodings⦄ ⦃h : Hashing⦄ ⦃c : Crypto⦄ ⦃world : World⦄
    (client : Client) where
  unfoldable pub presence_publish : Bytes → List Bytes → ℕ → Action Answer
  presence_publish w tags ttl = do
    keys ← or_fail client.keys (codes "this call needs keys")
    let body = publish_body w tags ttl
    call (codes "PUT") (presence_url client keys.public) (some body)
        (json_headers keys.public (sign keys (presence_signing_input keys.public body)))

  unfoldable pub presence_delete : Action Answer
  presence_delete = do
    keys ← or_fail client.keys (codes "this call needs keys")
    body ← at_body
    call (codes "DELETE") (presence_url client keys.public) (some body)
        (json_headers keys.public (sign keys (presence_delete_signing_input keys.public body)))

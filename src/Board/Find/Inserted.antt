-- ===== src/Board/Find/Inserted.antt =====
-- What a JSON object of src/board.rs and src/client.rs holds under a name, by how it was built.
use aamio_rust.Base.{◌≡◌, false, Option, none, some, arith, Bytes, same, same_refl}
use aamio_rust.Extern.Json.{Json}
use aamio_rust.Board.Find.{set_text}

module _ ⦃j : Json⦄ where
  pub get-insert-here : (m : j.Map) (k : Bytes) (v : j.Value) → j.get (j.insert m k v) k ≡ some v
  get-insert-here m k v = ground (arith, j.get-insert m k v k, same_refl k)

  pub get-insert-there :
      (m : j.Map) (k : Bytes) (v : j.Value) (name : Bytes) (x : Option j.Value)
      → same k name ≡ false
      → j.get m name ≡ x
      → j.get (j.insert m k v) name ≡ x
  get-insert-there m k v name x other held = ground (arith, j.get-insert m k v name, other, held)

  pub get-set_text-there :
      (m : j.Map) (k : Bytes) (text : Option Bytes) (name : Bytes) (x : Option j.Value)
      → same k name ≡ false
      → j.get m name ≡ x
      → j.get (set_text k text m) name ≡ x
  unfolding set_text
  get-set_text-there m k none name x other held = held
  get-set_text-there m k (some text) name x other held =
      get-insert-there m k (j.string text) name x other held

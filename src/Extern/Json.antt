-- ===== src/Extern/Json.antt =====
-- The package `serde_json`: values, and objects as maps in the order of their keys' bytes.
use aamio_rust.Base.{ℕ, Bool, true, List, Option, none, some, ◌≡◌, ◌↔◌, Bytes, same, if◌then◌else◌}
use aamio_rust.Base.Int.{ℤ}

pub record Json : Type 1 where
  pub Value : Type 0
  pub Map : Type 0
  -- `Value::Null`, `Value::Bool`, a number that is an integer, `Value::String`, `Value::Array` and
  -- `Value::Object`
  pub null : Value
  pub boolean : Bool → Value
  pub number : ℤ → Value
  pub string : Bytes → Value
  pub array : List Value → Value
  pub object : Map → Value
  pub as_bool : Value → Option Bool
  pub as_str : Value → Option Bytes
  pub as_i64 : Value → Option ℤ
  pub as_u64 : Value → Option ℕ
  pub as_array : Value → Option (List Value)
  -- `as_object`, and a match on `Value::Object`
  pub as_object : Value → Option Map
  -- `Map::new`
  pub empty : Map
  pub get : Map → Bytes → Option Value
  pub insert : Map → Bytes → Value → Map
  pub remove : Map → Bytes → Map
  pub is_empty : Map → Bool
  -- the pairs that a loop over the map meets
  pub entries : Map → List (Bytes × Value)
  -- `serde_json::to_string`, which does not fail on a value, and `serde_json::from_str::<Value>`
  pub to_string : Value → Bytes
  pub from_str : Bytes → Option Value
  pub as_bool-boolean : (b : Bool) → as_bool (boolean b) ≡ some b
  pub as_str-string : (s : Bytes) → as_str (string s) ≡ some s
  pub as_str-null : as_str null ≡ none
  pub as_object-object : (m : Map) → as_object (object m) ≡ some m
  pub get-empty : (k : Bytes) → get empty k ≡ none
  pub get-insert :
      (m : Map) (k : Bytes) (v : Value) (j : Bytes)
      → get (insert m k v) j ≡ (if same k j then some v else get m j)
  pub get-remove :
      (m : Map) (k j : Bytes) → get (remove m k) j ≡ (if same k j then none else get m j)
  pub is_empty_iff : (m : Map) → (is_empty m ≡ true) ↔ (m ≡ empty)
  pub remove-insert : (m : Map) (k : Bytes) (v : Value) → remove (insert m k v) k ≡ remove m k
  pub remove_absent : (m : Map) (k : Bytes) → get m k ≡ none → remove m k ≡ m
  pub remove_comm : (m : Map) (k j : Bytes) → remove (remove m k) j ≡ remove (remove m j) k

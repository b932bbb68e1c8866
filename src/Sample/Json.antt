-- ===== src/Sample/Json.antt =====
-- JSON values with objects as lists of fields.
use aamio_rust.Base.{
  ℕ, ◌≡◌, refl, ◌↔◌, Bool, true, false, Option, none, some, List, [], ◌∷◌, ◌++◌, arith,
  if◌then◌else◌, Bytes, same_iff, same_refl, same,
}
use aamio_rust.Base.Int.{ℤ, pos}
use aamio_rust.Base.Decimal.{decimal_ℤ}
use aamio_rust.Extern.Json.{Json}

mutual
  pub data Value : Type 0 where
    null : Value
    boolean : Bool → Value
    number : ℤ → Value
    string : Bytes → Value
    array : Items → Value
    object : Fields → Value

  pub data Items : Type 0 where
    nil : Items
    cons : Value → Items → Items

  pub data Fields : Type 0 where
    end : Fields
    field : Bytes → Value → Fields → Fields

unfoldable pub get : Fields → Bytes → Option Value
get end k = none
get (field j v m) k = if same j k then some v else get m k

unfoldable pub remove : Fields → Bytes → Fields
remove end k = end
remove (field j v m) k = let rest = remove m k in if same j k then rest else field j v rest

unfoldable pub insert : Fields → Bytes → Value → Fields
unfolding remove
insert m k v = field k v (remove m k)

unfoldable pub is_empty : Fields → Bool
is_empty end = true
is_empty (field k v m) = false

unfoldable pub entries : Fields → List (Bytes × Value)
entries end = []
entries (field k v m) = (k, v) ∷ entries m

unfoldable pub items : Items → List Value
items nil = []
items (cons v vs) = v ∷ items vs

unfoldable pub items_of : List Value → Items
items_of [] = nil
items_of (v ∷ vs) = cons v (items_of vs)

abbrev pub as_bool : Value → Option Bool
as_bool (boolean b) = some b
as_bool _ = none

abbrev pub as_str : Value → Option Bytes
as_str (string s) = some s
as_str _ = none

abbrev pub as_i64 : Value → Option ℤ
as_i64 (number n) = some n
as_i64 _ = none

abbrev pub as_u64 : Value → Option ℕ
as_u64 (number (pos n)) = some n
as_u64 _ = none

abbrev pub as_array : Value → Option (List Value)
as_array (array vs) = some (items vs)
as_array _ = none

abbrev pub as_object : Value → Option Fields
as_object (object m) = some m
as_object _ = none

unfoldable mutual
  pub to_string : Value → Bytes
  to_string null = b'n' ∷ []
  to_string (boolean true) = b't' ∷ []
  to_string (boolean false) = b'f' ∷ []
  to_string (number n) = decimal_ℤ n
  to_string (string s) = 34 ∷ s ++ 34 ∷ []
  to_string (array vs) = 91 ∷ items_to_string vs
  to_string (object m) = 123 ∷ fields_to_string m

  pub items_to_string : Items → Bytes
  items_to_string nil = 93 ∷ []
  items_to_string (cons v vs) = to_string v ++ 44 ∷ items_to_string vs

  pub fields_to_string : Fields → Bytes
  fields_to_string end = 125 ∷ []
  fields_to_string (field k v m) = 34 ∷ (k ++ 34 ∷ 58 ∷ (to_string v ++ 44 ∷ fields_to_string m))

-- The texts that this reader knows: an empty object, and nothing else.
unfoldable pub from_str : Bytes → Option Value
from_str s = if same s (123 ∷ 125 ∷ []) then some (object end) else none

pub get-end : (k : Bytes) → get end k ≡ none
unfolding get
get-end k = refl

pub get-remove :
    (m : Fields) (k j : Bytes) → get (remove m k) j ≡ (if same k j then none else get m j)
unfolding get remove
get-remove end k j = ground arith
get-remove (field i v m) k j =
    ground (arith, get-remove m k j, same_iff i k, same_iff i j, same_iff k j)

pub get-insert :
    (m : Fields) (k : Bytes) (v : Value) (j : Bytes)
    → get (insert m k v) j ≡ (if same k j then some v else get m j)
unfolding get insert
get-insert m k v j = ground (arith, get-remove m k j)

pub is_empty_iff : (m : Fields) → (is_empty m ≡ true) ↔ (m ≡ end)
unfolding is_empty
is_empty_iff end = (λ _. refl, λ _. refl)
is_empty_iff (field k v m) = (λ h. cc, λ h. cc)

remove-remove_self : (m : Fields) (k : Bytes) → remove (remove m k) k ≡ remove m k
unfolding remove
remove-remove_self end k = refl
remove-remove_self (field i v m) k = ground (arith, remove-remove_self m k)

pub remove-insert : (m : Fields) (k : Bytes) (v : Value) → remove (insert m k v) k ≡ remove m k
unfolding remove insert
remove-insert m k v = ground (arith, same_refl k, remove-remove_self m k)

pub remove_absent : (m : Fields) (k : Bytes) → get m k ≡ none → remove m k ≡ m
unfolding get remove
remove_absent end k h = refl
remove_absent (field i v m) k h = ground (arith, remove_absent m k)

pub remove_comm : (m : Fields) (k j : Bytes) → remove (remove m k) j ≡ remove (remove m j) k
unfolding remove
remove_comm end k j = refl
remove_comm (field i v m) k j = ground (arith, remove_comm m k j)

instance abbrev pub sample_json : Json
sample_json = record {
  Value = Value;
  Map = Fields;
  null = null;
  boolean = boolean;
  number = number;
  string = string;
  array = λ vs. array (items_of vs);
  object = object;
  as_bool = as_bool;
  as_str = as_str;
  as_i64 = as_i64;
  as_u64 = as_u64;
  as_array = as_array;
  as_object = as_object;
  empty = end;
  get = get;
  insert = insert;
  remove = remove;
  is_empty = is_empty;
  entries = entries;
  to_string = to_string;
  from_str = from_str;
  as_bool-boolean = λ b. refl;
  as_str-string = λ s. refl;
  as_str-null = refl;
  as_object-object = λ m. refl;
  get-empty = get-end;
  get-insert = get-insert;
  get-remove = get-remove;
  is_empty_iff = is_empty_iff;
  remove-insert = remove-insert;
  remove_absent = remove_absent;
  remove_comm = remove_comm;
}

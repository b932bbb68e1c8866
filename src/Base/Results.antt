-- ===== src/Base/Results.antt =====
-- Rust's `Result<T, String>`: a value, or the text of an error.
use mathlib.Core.Option.{Option, none, some}
use aamio_rust.Base.Text.{Bytes}

pub data Result {ℓ} (A : Type ℓ) : Type ℓ where
  ok : A → Result A
  err : Bytes → Result A

-- The operator `?`.
infixl 5 ◌>>=◌
abbrev pub ◌>>=◌ {κ ℓ} :
    {T : Type κ} {U : Type ℓ} (r : Result T) (then_do : T → Result U) → Result U
err message >>= then_do = err message
ok value >>= then_do = then_do value

-- `ok_or`.
abbrev pub ok_or {ℓ} : {A : Type ℓ} → Option A → Bytes → Result A
ok_or none e = err e
ok_or (some a) e = ok a

-- `unwrap_or`.
abbrev pub unwrap_or {ℓ} : {A : Type ℓ} → Option A → A → A
unwrap_or none d = d
unwrap_or (some a) d = a

-- `Option::and_then`, and `Option::map`.
abbrev pub and_then {ℓ κ} : {A : Type ℓ} {B : Type κ} → Option A → (A → Option B) → Option B
and_then none f = none
and_then (some a) f = f a

abbrev pub map_option {ℓ κ} : {A : Type ℓ} {B : Type κ} → (A → B) → Option A → Option B
map_option f none = none
map_option f (some a) = some (f a)

-- ===== src/Base/Ascii.antt =====
-- The tests of the Rust library on single ASCII bytes, and what it does to texts byte by byte.
use Prim.Native.Nat.{ℕ, ◌+◌}
use mathlib.Core.Path.{◌≡◌, refl}
use mathlib.Core.Logic.{◌≢◌}
use mathlib.Core.Bool.{Bool, false, ◌&&◌, ◌||◌}
use mathlib.Core.List.{[], ◌∷◌, ◌++◌, map}
use native.Mathlib.Omega.{arith}
use aamio_rust.Base.Tests.{leb, ◌==◌, if◌then◌else◌}
use aamio_rust.Base.Lists.{length, All}
use aamio_rust.Base.Text.{Bytes}

unfoldable pub is_ascii_lowercase : ℕ → Bool
is_ascii_lowercase b = leb b'a' b && leb b b'z'

unfoldable pub is_ascii_uppercase : ℕ → Bool
is_ascii_uppercase b = leb b'A' b && leb b b'Z'

unfoldable pub is_ascii_digit : ℕ → Bool
is_ascii_digit b = leb b'0' b && leb b b'9'

unfoldable pub is_ascii_alphanumeric : ℕ → Bool
unfolding is_ascii_lowercase is_ascii_uppercase is_ascii_digit
is_ascii_alphanumeric b = is_ascii_lowercase b || is_ascii_uppercase b || is_ascii_digit b

-- `to_lowercase`, on ASCII text.
unfoldable pub lower : ℕ → ℕ
unfolding is_ascii_uppercase
lower b = if is_ascii_uppercase b then b + 32 else b

unfoldable pub to_lowercase : Bytes → Bytes
to_lowercase = map lower

-- One byte in front of what `trim_end_matches` leaves of the rest.
trim_front : ℕ → ℕ → Bytes → Bytes
trim_front c x [] = if x == c then [] else x ∷ []
trim_front c x (y ∷ ys) = x ∷ y ∷ ys

-- `trim_end_matches` of one ASCII character.
unfoldable pub trim_end_matches : ℕ → Bytes → Bytes
unfolding trim_front
trim_end_matches c [] = []
trim_end_matches c (x ∷ xs) = trim_front c x (trim_end_matches c xs)

-- `contains` of one ASCII character.
unfoldable pub contains_byte : ℕ → Bytes → Bool
contains_byte c [] = false
contains_byte c (x ∷ xs) = (x == c) || contains_byte c xs

abbrev pub Lacks : ℕ → Bytes → Type 0
Lacks c = All (λ b. b ≢ c)

pub contains_byte-Lacks : (c : ℕ) (s : Bytes) → Lacks c s → contains_byte c s ≡ false
unfolding contains_byte
contains_byte-Lacks c [] h = refl
contains_byte-Lacks c (x ∷ xs) h = ground (arith, contains_byte-Lacks c xs h.1)

pub length-to_lowercase : (s : Bytes) → length (to_lowercase s) ≡ length s
unfolding to_lowercase
length-to_lowercase [] = refl
length-to_lowercase (x ∷ xs) = ground (arith, length-to_lowercase xs)

pub trim_end_matches-Lacks : (c : ℕ) (s : Bytes) → Lacks c s → trim_end_matches c s ≡ s
unfolding trim_end_matches
trim_end_matches-Lacks c [] h = refl
trim_end_matches-Lacks c (x ∷ []) h = ground arith
trim_end_matches-Lacks c (x ∷ y ∷ ys) h = rw (trim_end_matches-Lacks c (y ∷ ys) h.1)

-- A field that lacks the separator behind it is read back.
pub field_inj :
    (c : ℕ) (a b r s : Bytes) → Lacks c a → Lacks c b → a ++ c ∷ r ≡ b ++ c ∷ s → (a ≡ b) × (r ≡ s)
field_inj c [] [] r s ha hb e = (refl, cc)
field_inj c [] (y ∷ b) r s ha hb e = absurd (hb.0 (cc))
field_inj c (x ∷ a) [] r s ha hb e = absurd (ha.0 (cc))
field_inj c (x ∷ a) (y ∷ b) r s ha hb e =
    let rest = field_inj c a b r s ha.1 hb.1 (cc) in (cc, rest.1)

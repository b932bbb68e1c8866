-- ===== src/Base/Decimal.antt =====
-- Rust's `Display` of integers: the decimal digits, with a sign where the number is negative.
use Prim.Native.Nat.{ℕ, zero, suc, ◌+◌, ◌-◌, ◌*◌, ◌/◌, ◌%◌, ◌<◌, ◌≤◌}
use mathlib.Core.Path.{◌≡◌, refl, sym, ap, ◌∙◌}
use mathlib.Core.Logic.{◌≢◌, inl, inr}
use mathlib.Core.List.{[], ◌∷◌, ◌++◌}
use native.Mathlib.Omega.{arith}
use aamio_rust.Base.Tests.{ltb, if◌then◌else◌, Bool-cases, tests}
use aamio_rust.Base.Lists.{All, All-append, All-map}
use aamio_rust.Base.Text.{Bytes}
use aamio_rust.Base.Ascii.{Lacks}
use aamio_rust.Base.Int.{ℤ, pos, negsuc}

-- A number has fewer digits than its value plus one, which the fuel counts.
digits : ℕ → ℕ → Bytes
digits zero n = []
digits (suc fuel) n =
    let front = digits fuel (n / 10) in
    if ltb n 10 then (b'0' + n) ∷ [] else front ++ (b'0' + n % 10) ∷ []

unfoldable pub decimal : ℕ → Bytes
unfolding digits
decimal n = digits (suc n) n

unfoldable pub decimal_ℤ : ℤ → Bytes
decimal_ℤ (pos n) = decimal n
decimal_ℤ (negsuc n) = b'-' ∷ decimal (suc n)

digits_fuel : (f g n : ℕ) → n < f → n < g → digits f n ≡ digits g n
unfolding digits
digits_fuel zero g n p q = absurd (omega arith)
digits_fuel (suc f) zero n p q = absurd (omega arith)
digits_fuel (suc f) (suc g) n p q = ground (arith, digits_fuel f g (n / 10))

-- The last digit stands behind the digits of the rest.
pub decimal_step :
    (n : ℕ)
    → decimal n ≡ (if ltb n 10 then (b'0' + n) ∷ [] else decimal (n / 10) ++ (b'0' + n % 10) ∷ [])
unfolding decimal
decimal_step n = ground (arith, digits_fuel n (suc (n / 10)) (n / 10))

abbrev pub IsDigit : ℕ → Type 0
IsDigit b = (b'0' ≤ b) × (b ≤ b'9')

digits-IsDigit : (f n : ℕ) → All IsDigit (digits f n)
unfolding digits
digits-IsDigit zero n = tt
digits-IsDigit (suc f) n = elim (Bool-cases (ltb n 10)) [
  | inl small ↦ rw small (omega (tests, small))
  | inr large ↦
      rw large (All-append IsDigit (digits f (n / 10)) _ (digits-IsDigit f (n / 10)) (omega arith))
]

pub decimal-IsDigit : (n : ℕ) → All IsDigit (decimal n)
unfolding decimal
decimal-IsDigit n = digits-IsDigit (suc n) n

-- The number that digits spell behind `n`.
abbrev pub value : ℕ → Bytes → ℕ
value n [] = n
value n (b ∷ s) = value (n * 10 + (b - b'0')) s

value-append : (n : ℕ) (s t : Bytes) → value n (s ++ t) ≡ value (value n s) t
value-append n [] t = refl
value-append n (b ∷ s) t = value-append (n * 10 + (b - b'0')) s t

value-digits : (f n : ℕ) → n < f → value 0 (digits f n) ≡ n
unfolding digits
value-digits zero n h = absurd (omega arith)
value-digits (suc f) n h = elim (Bool-cases (ltb n 10)) [
  | inl small ↦ rw small (omega arith)
  | inr large ↦ rw large (
      rw (value-append 0 (digits f (n / 10)) ((b'0' + n % 10) ∷ []))
        (omega (tests, value-digits f (n / 10) (omega tests))))
]

-- The digits of a number spell it.
pub value-decimal : (n : ℕ) → value 0 (decimal n) ≡ n
unfolding decimal
value-decimal n = value-digits (suc n) n (omega arith)

pub decimal_injective : (m n : ℕ) → decimal m ≡ decimal n → m ≡ n
decimal_injective m n e = sym (value-decimal m) ∙ ap (value 0) e ∙ value-decimal n

minus-ne-decimal : (n : ℕ) (s : Bytes) → decimal n ≢ b'-' ∷ s
minus-ne-decimal n s e =
    let digit : All IsDigit (b'-' ∷ s) = rw e at (decimal-IsDigit n) in absurd (omega arith)

pub decimal_ℤ_injective : (a b : ℤ) → decimal_ℤ a ≡ decimal_ℤ b → a ≡ b
unfolding decimal_ℤ
decimal_ℤ_injective (pos m) (pos n) e = ap pos (decimal_injective m n e)
decimal_ℤ_injective (pos m) (negsuc n) e = absurd (minus-ne-decimal m _ e)
decimal_ℤ_injective (negsuc m) (pos n) e = absurd (minus-ne-decimal n _ (sym e))
decimal_ℤ_injective (negsuc m) (negsuc n) e =
    let same_digits : decimal (suc m) ≡ decimal (suc n) = cc in
    let same_number : suc m ≡ suc n = decimal_injective (suc m) (suc n) same_digits in
    ap negsuc (omega arith)

-- A printed integer holds only digits and the sign, and no smaller byte.
pub decimal_ℤ-Lacks : (c : ℕ) (a : ℤ) → c < b'-' → Lacks c (decimal_ℤ a)
unfolding decimal_ℤ
decimal_ℤ-Lacks c (pos n) h =
    All-map (λ (b : ℕ) (d : IsDigit b). let ne : b ≢ c = omega arith in ne) _ (decimal-IsDigit n)
decimal_ℤ-Lacks c (negsuc n) h = (
  omega arith,
  All-map (λ (b : ℕ) (d : IsDigit b). let ne : b ≢ c = omega arith in ne) _
      (decimal-IsDigit (suc n)),
)

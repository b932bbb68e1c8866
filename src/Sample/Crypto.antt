-- ===== src/Sample/Crypto.antt =====
-- Keys that show their seed, signatures that are a digest, and boxes that hide nothing: what is
-- asked of the interfaces, for the tests.
use aamio_rust.Base.{
  ℕ, suc, ◌+◌, ◌%◌, ◌≡◌, refl, ap, Bool, true, Option, some, [], ◌∷◌, ◌++◌, map, arith, length,
  take, drop, replicate, length-append, All, All-append, Result, ok, unwrap_or, Bytes, same_refl,
  same,
}
use mathlib.Core.Path.{subst}
use aamio_rust.Extern.Encodings.{IsByte}
use aamio_rust.Extern.Crypto.{Crypto}
use aamio_rust.Extern.Envelopes.{Envelopes, Envelope}
use aamio_rust.Sample.Digest.{digest, length-digest, digest-IsByte}

unfoldable pub signature : Bytes → Bytes → Bytes
signature key input = digest (key ++ input) ++ digest input

pub length-signature : (key input : Bytes) → length (signature key input) ≡ 64
unfolding signature
length-signature key input = omega (
  arith,
  length-append (digest (key ++ input)) (digest input),
  length-digest (key ++ input),
  length-digest input,
)

pub signature-IsByte : (key input : Bytes) → All IsByte (signature key input)
unfolding signature
signature-IsByte key input =
    All-append IsByte (digest (key ++ input)) (digest input) (digest-IsByte _) (digest-IsByte _)

-- Sixteen bytes for the tag, and the text.
unfoldable pub pack : Bytes → Bytes
pack plain = replicate 16 0 ++ map (λ b. b % 256) plain

pub pack-IsByte : (plain : Bytes) → All IsByte (pack plain)
unfolding pack
pack-IsByte plain = All-append IsByte (replicate 16 0) _ (omega arith) (bytes plain)
  where
    bytes : (s : Bytes) → All IsByte (map (λ b. b % 256) s)
    bytes [] = tt
    bytes (b ∷ s) = (omega arith, bytes s)

pub length-pack : (plain : Bytes) → length (pack plain) ≡ length plain + 16
unfolding pack
length-pack plain = omega (arith, size plain)
  where
    size : (s : Bytes) → length (map (λ (b : ℕ). b % 256) s) ≡ length s
    size [] = refl
    size (b ∷ s) = ap suc (size s)

pub drop-pack : (plain : Bytes) → All IsByte plain → drop 16 (pack plain) ≡ plain
unfolding pack
drop-pack plain h = same_bytes plain h
  where
    same_bytes : (s : Bytes) → All IsByte s → map (λ b. b % 256) s ≡ s
    same_bytes [] h = refl
    same_bytes (b ∷ s) h = let small : b % 256 ≡ b = omega arith in rw (small, same_bytes s h.1)

unfoldable pub check : Bytes → Bytes → Bytes → Bool
unfolding signature
check v input s = same s (signature v input)

unfoldable pub box : Bytes → Option Bytes
unfolding pack
box plain = some (pack plain)

unfoldable pub unbox : Bytes → Option Bytes
unbox ct = some (drop 16 ct)

same_some : (a b : Bytes) → ◌≡◌ {A = Option Bytes} (some a) (some b) → a ≡ b
same_some a b e = ap (λ o. unwrap_or o a) e

pub check-signature :
    (k v input : Bytes)
    → ◌≡◌ {A = Option Bytes} (some (digest k)) (some v)
    → check v input (signature (digest k) input) ≡ true
unfolding check
check-signature k v input e =
    rw (← same_some (digest k) v e) (same_refl (signature (digest k) input))

pub box-IsByte : (plain ct : Bytes) → box plain ≡ some ct → All IsByte ct
unfolding box
box-IsByte plain ct e = subst (λ s. All IsByte s) (same_some (pack plain) ct e) (pack-IsByte plain)

pub length-box : (plain ct : Bytes) → box plain ≡ some ct → length ct ≡ length plain + 16
unfolding box
length-box plain ct e =
    subst (λ s. length s ≡ length plain + 16) (same_some (pack plain) ct e) (length-pack plain)

pub unbox-box : (plain ct : Bytes) → All IsByte plain → box plain ≡ some ct → unbox ct ≡ some plain
unfolding box unbox
unbox-box plain ct h e = rw (← same_some (pack plain) ct e, drop-pack plain h) refl

instance abbrev pub sample_crypto : Crypto
sample_crypto = record {
  SigningKey = Bytes;
  VerifyingKey = Bytes;
  signing_key = digest;
  public_bytes = digest;
  to_scalar_bytes = λ k. k;
  sign = λ k input. signature (digest k) input;
  verifying_key = λ s. some s;
  verify = check;
  to_montgomery = λ v. v;
  encrypt = λ peer secret nonce plain. box plain;
  decrypt = λ peer secret nonce ct. unbox ct;
  length-public_bytes = length-digest;
  public_bytes-IsByte = digest-IsByte;
  length-sign = λ k input. length-signature (digest k) input;
  sign-IsByte = λ k input. signature-IsByte (digest k) input;
  verifying_key-public_bytes = λ k. (digest k, refl);
  verify-sign = λ k v input p. check-signature k v input p;
  encrypt-IsByte = λ peer secret nonce plain ct p. box-IsByte plain ct p;
  length-encrypt = λ peer secret nonce plain ct p. length-box plain ct p;
  decrypt-encrypt = λ a b va vb nonce plain ct h pa pb p. unbox-box plain ct h p;
}

-- The fields of an envelope, each after its length.
unfoldable pub chunk : Bytes → Bytes → Bytes
chunk s rest = length s ∷ s ++ rest

unfoldable pub unchunk : Bytes → Bytes × Bytes
unchunk [] = ([], [])
unchunk (n ∷ s) = (take n s, drop n s)

take-append : (a b : Bytes) → take (length a) (a ++ b) ≡ a
take-append [] b = refl
take-append (x ∷ a) b = ap (λ (s : Bytes). x ∷ s) (take-append a b)

drop-append : (a b : Bytes) → drop (length a) (a ++ b) ≡ b
drop-append [] b = refl
drop-append (x ∷ a) b = drop-append a b

unchunk-chunk : (s rest : Bytes) → unchunk (chunk s rest) ≡ (s, rest)
unfolding chunk unchunk
unchunk-chunk s rest = rw (take-append s rest, drop-append s rest) refl

unfoldable pub written : Envelope → Bytes
written e = chunk e.e2ee (chunk e.to (chunk e.nonce (chunk e.ct [])))

unfoldable pub to_string : Envelope → Result Bytes
unfolding written
to_string e = ok (written e)

unfoldable pub from_str : Bytes → Option Envelope
from_str s =
    let a = unchunk s in
    let b = unchunk a.1 in
    let c = unchunk b.1 in
    let d = unchunk c.1 in some (record { e2ee = a.0; to = b.0; nonce = c.0; ct = d.0 })

from_str-written : (e : Envelope) → from_str (written e) ≡ some e
unfolding written from_str
from_str-written e =
    rw
      (
        unchunk-chunk e.e2ee (chunk e.to (chunk e.nonce (chunk e.ct []))),
        unchunk-chunk e.to (chunk e.nonce (chunk e.ct [])),
        unchunk-chunk e.nonce (chunk e.ct []),
        unchunk-chunk e.ct [],
      )
      refl

pub from_str-to_string : (e : Envelope) (s : Bytes) → to_string e ≡ ok s → from_str s ≡ some e
unfolding to_string
from_str-to_string e s e_to_s = subst (λ t. from_str t ≡ some e) same_text (from_str-written e)
  where
    same_text : written e ≡ s
    same_text = ground (arith, e_to_s)

instance abbrev pub sample_envelopes : Envelopes
sample_envelopes = record {
  to_string = to_string;
  from_str = from_str;
  from_str-to_string = from_str-to_string;
}

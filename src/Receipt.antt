-- ===== src/Receipt.antt =====
-- src/receipt.rs: the receipt of a thread, its root, and what a client checks of it.
pub mod Sort
pub mod Order
pub mod Root
pub mod Verify
use aamio_rust.Base.{
  ◌+◌, ◌-◌, Bool, true, false, ◌&&◌, Option, none, some, List, [], ◌∷◌, ◌++◌, ltb, ◌==◌,
  if◌then◌else◌, length, Bytes, concat, codes, same,
}
use aamio_rust.Base.Int.{ℤ}
use aamio_rust.Base.Decimal.{decimal_ℤ}
use aamio_rust.Extern.Encodings.{Encodings}
use aamio_rust.Extern.Hashing.{Hashing}
use aamio_rust.Codec.{sha256_hex}
use Sort.{sort_by_key}

pub record ReceiptMessage : Type 0 where
  pub seq : ℤ
  pub at : ℤ
  pub sha256 : Bytes
  pub from : Option Bytes

pub record Receipt : Type 0 where
  pub schema : Bytes
  pub w : Bytes
  pub created_at : ℤ
  pub expire_at : ℤ
  pub count : ℤ
  pub bytes : ℤ
  pub allow : List Bytes
  pub gate_hash : Option Bytes
  pub messages : List ReceiptMessage
  pub keys : List Bytes
  pub root : Bytes
  pub commitment : Bytes
  pub issued_at : ℤ
  pub how : Bytes

-- `filter(|f| !f.is_empty()).unwrap_or("-")`
unfoldable pub from_or_dash : Option Bytes → Bytes
from_or_dash none = codes "-"
from_or_dash (some []) = codes "-"
from_or_dash (some (b ∷ s)) = b ∷ s

-- One line of the text that the root is taken over.
unfoldable pub line : ReceiptMessage → Bytes
unfolding from_or_dash
line m = concat (
    decimal_ℤ m.seq
    ∷ codes "\t"
    ∷ decimal_ℤ m.at
    ∷ codes "\t"
    ∷ m.sha256
    ∷ codes "\t"
    ∷ from_or_dash m.from
    ∷ codes "\n"
    ∷ [])

-- The loop that pushes a line for each message, in the order given.
unfoldable pub push_lines : List ReceiptMessage → Bytes → Bytes
push_lines [] lines = lines
push_lines (m ∷ ms) lines = push_lines ms (lines ++ line m)

unfoldable pub sorted : List ReceiptMessage → List ReceiptMessage
sorted = sort_by_key (λ (m : ReceiptMessage). m.seq)

module _ ⦃e : Encodings⦄ ⦃h : Hashing⦄ where
  unfoldable pub root : List ReceiptMessage → Bytes
  root messages = sha256_hex (push_lines (sorted messages) [])

pub record Check : Type 0 where
  pub root_adds_up : Bool
  pub commitment_matches : Bool
  pub local_hashes_match : Option Bool

-- `sorted.iter().zip(local).all(|(m, h)| &m.sha256 == h)`
unfoldable pub hashes_match : List ReceiptMessage → List Bytes → Bool
hashes_match [] local = true
hashes_match (m ∷ ms) [] = true
hashes_match (m ∷ ms) (hash ∷ local) = same m.sha256 hash && hashes_match ms local

unfoldable pub match_local : List ReceiptMessage → Option (List Bytes) → Option Bool
unfolding hashes_match
match_local messages none = none
match_local messages (some local) =
    if ltb (length messages) (length local)
    then some false
    else if length messages == length local
    then some (hashes_match (sorted messages) local)
    else none

module _ ⦃e : Encodings⦄ ⦃h : Hashing⦄ where
  unfoldable pub verify_receipt : Receipt → Option (List Bytes) → Check
  verify_receipt receipt local_hashes = record {
    root_adds_up = same (root receipt.messages) receipt.root;
    commitment_matches = same receipt.commitment (codes "sha256:" ++ receipt.root);
    local_hashes_match = match_local receipt.messages local_hashes;
  }

-- ===== src/Tests/Receipt.antt =====
-- src/receipt.rs at concrete inputs.
use aamio_rust.Base.{
  ◌<◌, ◌≡◌, refl, ◌≢◌, ◌↔◌, ◌⊎◌, true, none, some, [], ◌∷◌, ◌++◌, map, arith, All, codes,
}
use mathlib.Core.List.Perm
use aamio_rust.Base.Int.{pos, negsuc}
use aamio_rust.Base.Decimal.{decimal, decimal_ℤ}
use aamio_rust.Sample.Digest.{sample_encodings, sample_hashing}
use aamio_rust.Codec.{sha256_hex}
use aamio_rust.Receipt.{
  ReceiptMessage, Receipt, from_or_dash, line, push_lines, sorted, root, match_local,
  verify_receipt,
}
use aamio_rust.Receipt.Sort.{sort_by_key, insert_by_key}
use aamio_rust.Receipt.Order.{root-perm}
use aamio_rust.Receipt.Root.{content, IsClean, root_text, root_binds}
use aamio_rust.Receipt.Verify.{match_local_cases, verify_receipt_passes}

abbrev first : ReceiptMessage
unfolding codes
first = record { seq = pos 1; at = pos 100; sha256 = codes "aa"; from = none }

abbrev second : ReceiptMessage
unfolding codes
second = record { seq = pos 2; at = negsuc 4; sha256 = codes "bb"; from = some (codes "k") }

-- The line of a message, its sender or a dash, in order of sequence number.
lines_of_two : push_lines (sorted (second ∷ first ∷ [])) [] ≡ codes "1\t100\taa\t-\n2\t-5\tbb\tk\n"
unfolding first second push_lines sorted sort_by_key insert_by_key line codes decimal_ℤ decimal
lines_of_two = refl

first-ne-second : first.seq ≢ second.seq
unfolding first second codes
first-ne-second p = ground arith

root-perm_example : root (first ∷ second ∷ []) ≡ root (second ∷ first ∷ [])
root-perm_example =
    root-perm (first ∷ second ∷ []) (second ∷ first ∷ []) ((first-ne-second, tt), (tt, tt))
      (Perm.swap second first [])

both-IsClean : All IsClean (first ∷ second ∷ [])
unfolding first second codes from_or_dash
both-IsClean = omega arith

root_binds_example :
    (map content (sorted (first ∷ second ∷ [])) ≡ map content (sorted (second ∷ first ∷ [])))
    ⊎ ((root_text (first ∷ second ∷ []) ≢ root_text (second ∷ first ∷ []))
        × (sha256_hex (root_text (first ∷ second ∷ []))
            ≡ sha256_hex (root_text (second ∷ first ∷ []))))
root_binds_example =
    root_binds (first ∷ second ∷ []) (second ∷ first ∷ []) both-IsClean
      (both-IsClean.1.0, (both-IsClean.0, tt)) root-perm_example

match_local_cases_example :
    ((match_local (second ∷ first ∷ []) (some (first.sha256 ∷ second.sha256 ∷ [])) ≡ some true) ↔ (
      map (λ (m : ReceiptMessage). m.sha256) (sorted (second ∷ first ∷ []))
      ≡ first.sha256 ∷ second.sha256 ∷ []))
    × ((match_local (second ∷ first ∷ []) (some (first.sha256 ∷ second.sha256 ∷ [])) ≡ none)
        ↔ (2 < 2))
match_local_cases_example =
    match_local_cases (second ∷ first ∷ []) (first.sha256 ∷ second.sha256 ∷ [])

abbrev receipt_of_two : Receipt
receipt_of_two = record {
  schema = [];
  w = [];
  created_at = pos 0;
  expire_at = pos 600;
  count = pos 2;
  bytes = pos 4;
  allow = [];
  gate_hash = none;
  messages = second ∷ first ∷ [];
  keys = [];
  root = root (second ∷ first ∷ []);
  commitment = codes "sha256:" ++ root (second ∷ first ∷ []);
  issued_at = pos 0;
  how = [];
}

verify_receipt_passes_example :
    ((verify_receipt receipt_of_two (some [])).root_adds_up ≡ true)
      × ((verify_receipt receipt_of_two (some [])).commitment_matches ≡ true)
      × ((verify_receipt receipt_of_two (some [])).local_hashes_match ≡ some true)
    ↔ (receipt_of_two.root ≡ root receipt_of_two.messages)
      × (receipt_of_two.commitment ≡ codes "sha256:" ++ root receipt_of_two.messages)
      × (map (λ (m : ReceiptMessage). m.sha256) (sorted receipt_of_two.messages) ≡ [])
verify_receipt_passes_example = verify_receipt_passes receipt_of_two []

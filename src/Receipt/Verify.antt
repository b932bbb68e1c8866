-- ===== src/Receipt/Verify.antt =====
-- What `verify_receipt` of src/receipt.rs says.
use aamio_rust.Base.{
  suc, ◌<◌, ◌≡◌, refl, sym, ap, ◌∙◌, ◌↔◌, true, none, some, List, [], ◌∷◌, ◌++◌, map, arith, length,
  Bytes, same_iff, codes,
}
use aamio_rust.Extern.Encodings.{Encodings}
use aamio_rust.Extern.Hashing.{Hashing}
use aamio_rust.Receipt.{
  ReceiptMessage, Receipt, sorted, root, hashes_match, match_local, verify_receipt,
}
use aamio_rust.Receipt.Sort.{length-sort}

hashes_match_iff :
    (ms : List ReceiptMessage) (local : List Bytes)
    → length ms ≡ length local
    → (hashes_match ms local ≡ true) ↔ (map (λ (m : ReceiptMessage). m.sha256) ms ≡ local)
unfolding hashes_match
hashes_match_iff [] [] h = (λ _. refl, λ _. refl)
hashes_match_iff [] (x ∷ xs) h = absurd (omega arith)
hashes_match_iff (m ∷ ms) [] h = absurd (omega arith)
hashes_match_iff (m ∷ ms) (x ∷ xs) h =
    ground (arith, same_iff m.sha256 x, hashes_match_iff ms xs (omega arith))

length-map : (f : ReceiptMessage → Bytes) (ms : List ReceiptMessage) → length (map f ms) ≡ length ms
length-map f [] = refl
length-map f (m ∷ ms) = ap suc (length-map f ms)

length-eq_of_map :
    (messages : List ReceiptMessage) (local : List Bytes)
    → map (λ (m : ReceiptMessage). m.sha256) (sorted messages) ≡ local
    → length messages ≡ length local
unfolding sorted
length-eq_of_map messages local p =
    sym (length-sort (λ m. m.seq) messages) ∙ sym (length-map (λ m. m.sha256) _) ∙ ap length p

-- The hashes that the client holds match exactly when they are those of the messages in order
-- of sequence number, and they are left uncompared exactly when the receipt has more messages
-- than there are hashes.
pub match_local_cases :
    (messages : List ReceiptMessage) (local : List Bytes)
    → ((match_local messages (some local) ≡ some true)
        ↔ (map (λ (m : ReceiptMessage). m.sha256) (sorted messages) ≡ local))
      × ((match_local messages (some local) ≡ none) ↔ (length local < length messages))
unfolding match_local sorted
match_local_cases messages local = ground (
  arith,
  length-sort (λ (m : ReceiptMessage). m.seq) messages,
  hashes_match_iff (sorted messages) local,
  length-eq_of_map messages local,
)

module _ ⦃e : Encodings⦄ ⦃h : Hashing⦄ where
  -- All three checks of a receipt against hashes that the client holds pass exactly when its
  -- root is the root of its messages, its commitment is that root behind `sha256:`, and the
  -- hashes are those of the messages in order of sequence number.
  pub verify_receipt_passes :
      (r : Receipt) (local : List Bytes)
      → ((verify_receipt r (some local)).root_adds_up ≡ true)
          × ((verify_receipt r (some local)).commitment_matches ≡ true)
          × ((verify_receipt r (some local)).local_hashes_match ≡ some true)
        ↔ (r.root ≡ root r.messages)
          × (r.commitment ≡ codes "sha256:" ++ root r.messages)
          × (map (λ (m : ReceiptMessage). m.sha256) (sorted r.messages) ≡ local)
  unfolding verify_receipt
  verify_receipt_passes r local = ground (
    arith,
    same_iff (root r.messages) r.root,
    same_iff r.commitment (codes "sha256:" ++ r.root),
    (match_local_cases r.messages local).0,
  )

-- ===== src/Receipt/Root.antt =====
-- The text that a root is taken over says what it was made from.
use aamio_rust.Base.{
  ◌≡◌, refl, sym, ◌∙◌, ◌≢◌, ◌⊎◌, inl, inr, List, [], ◌∷◌, ◌++◌, map, append_assoc, append-nil,
  arith, Bool-cases, All, Bytes, same_iff, codes, same,
}
use aamio_rust.Base.Ascii.{Lacks, field_inj}
use aamio_rust.Base.Int.{ℤ}
use aamio_rust.Base.Decimal.{decimal_ℤ, decimal_ℤ_injective, decimal_ℤ-Lacks}
use aamio_rust.Extern.Encodings.{Encodings}
use aamio_rust.Extern.Hashing.{Hashing}
use aamio_rust.Codec.{sha256_hex}
use aamio_rust.Receipt.Sort.{All-sort}
use aamio_rust.Receipt.{ReceiptMessage, from_or_dash, line, push_lines, sorted, root}

-- What a receipt says of a message; an absent and an empty signer read alike.
pub record Content : Type 0 where
  pub seq : ℤ
  pub at : ℤ
  pub sha256 : Bytes
  pub from : Bytes

unfoldable pub content : ReceiptMessage → Content
content m = record { seq = m.seq; at = m.at; sha256 = m.sha256; from = from_or_dash m.from }

-- A hash holds no tab and a key no line break.
pub record IsClean (m : ReceiptMessage) : Type 0 where
  pub sha256_clean : Lacks 9 m.sha256
  pub from_clean : Lacks 10 (from_or_dash m.from)

-- The line with its fields and separators bracketed to the right, in front of what follows.
line-append :
    (m : ReceiptMessage) (rest : Bytes)
    → line m ++ rest
      ≡ decimal_ℤ m.seq
        ++ 9 ∷ (decimal_ℤ m.at ++ 9 ∷ (m.sha256 ++ 9 ∷ (from_or_dash m.from ++ 10 ∷ rest)))
unfolding line codes
line-append m rest = simp append_assoc

decimal_ℤ-Lacks_tab : (a : ℤ) → Lacks 9 (decimal_ℤ a)
decimal_ℤ-Lacks_tab a = decimal_ℤ-Lacks 9 a (omega arith)

line_inj :
    (m n : ReceiptMessage) (r s : Bytes)
    → IsClean m
    → IsClean n
    → line m ++ r ≡ line n ++ s
    → (content m ≡ content n) × (r ≡ s)
unfolding content
line_inj m n r s hm hn e =
    let e' = sym (line-append m r) ∙ e ∙ line-append n s in
    let (seq_eq, at_rest) =
      field_inj 9 _ _ _ _ (decimal_ℤ-Lacks_tab m.seq) (decimal_ℤ-Lacks_tab n.seq) e' in
    let (at_eq, hash_rest) =
      field_inj 9 _ _ _ _ (decimal_ℤ-Lacks_tab m.at) (decimal_ℤ-Lacks_tab n.at) at_rest in
    let (hash_eq, from_rest) = field_inj 9 _ _ _ _ hm.sha256_clean hn.sha256_clean hash_rest in
    let (from_eq, rest_eq) = field_inj 10 _ _ _ _ hm.from_clean hn.from_clean from_rest in
    (
      λ i. record {
        seq = decimal_ℤ_injective m.seq n.seq seq_eq i;
        at = decimal_ℤ_injective m.at n.at at_eq i;
        sha256 = hash_eq i;
        from = from_eq i;
      },
      rest_eq,
    )

-- The lines of the messages, one after another.
lines : List ReceiptMessage → Bytes
lines [] = []
lines (m ∷ ms) = line m ++ lines ms

push_lines_lem : (ms : List ReceiptMessage) (t : Bytes) → push_lines ms t ≡ t ++ lines ms
unfolding push_lines lines
push_lines_lem [] t = sym (append-nil t)
push_lines_lem (m ∷ ms) t = simp (push_lines_lem ms, append_assoc)

line-ne-nil : (m : ReceiptMessage) (r : Bytes) → line m ++ r ≢ []
line-ne-nil m r e = let e' : line m ++ r ≡ [] = e in ne _ _ (sym (line-append m r) ∙ e')
  where
    ne : (a b : Bytes) → a ++ 9 ∷ b ≢ []
    ne [] b p = cc
    ne (x ∷ a) b p = cc

lines_inj :
    (ms ns : List ReceiptMessage)
    → All IsClean ms
    → All IsClean ns
    → lines ms ≡ lines ns
    → map content ms ≡ map content ns
unfolding lines
lines_inj [] [] hm hn e = refl
lines_inj [] (n ∷ ns) hm hn e = absurd (line-ne-nil n (lines ns) (sym e))
lines_inj (m ∷ ms) [] hm hn e = absurd (line-ne-nil m (lines ms) e)
lines_inj (m ∷ ms) (n ∷ ns) hm hn e =
    let (same_line, rest) = line_inj m n (lines ms) (lines ns) hm.0 hn.0 e in
    let same_rest = lines_inj ms ns hm.1 hn.1 rest in λ i. same_line i ∷ same_rest i

-- The text that the root of the messages is taken over.
unfoldable pub root_text : List ReceiptMessage → Bytes
root_text messages = push_lines (sorted messages) []

module _ ⦃e : Encodings⦄ ⦃h : Hashing⦄ where
  -- For two lists of messages whose hashes hold no tab and whose senders hold no line break: with one
  -- root, they have the same sequence numbers, times, hashes and senders (none, empty and a dash being
  -- one) in order of sequence number, or else their texts differ and are a collision of sha256.
  pub root_binds :
      (ms ns : List ReceiptMessage)
      → All IsClean ms
      → All IsClean ns
      → root ms ≡ root ns
      → (map content (sorted ms) ≡ map content (sorted ns))
        ⊎ ((root_text ms ≢ root_text ns) × (sha256_hex (root_text ms) ≡ sha256_hex (root_text ns)))
  unfolding root sorted root_text
  root_binds ms ns hm hn same_root =
      elim (Bool-cases (same (push_lines (sorted ms) []) (push_lines (sorted ns) []))) [
        | inl eq ↦ inl (
            lines_inj (sorted ms) (sorted ns) (All-sort IsClean (λ m. m.seq) ms hm)
              (All-sort IsClean (λ m. m.seq) ns hn)
              (sym (push_lines_lem (sorted ms) [])
                ∙ (same_iff _ _).0 eq
                ∙ push_lines_lem (sorted ns) []))
        | inr ne ↦ inr ((λ p. cc ((same_iff _ _).1 p)), same_root)
      ]

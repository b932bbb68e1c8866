-- ===== src/Client/Allow/Handed.antt =====
-- Which messages src/client.rs hands over under an allowlist, and which it keeps out.
use aamio_rust.Base.{
  ◌+◌, ◌≡◌, refl, sym, ◌⊎◌, inl, inr, Bool, true, false, Option, some, List, [], ◌∷◌, arith,
  Bool-cases, Option-cases, length, All, All-map, Bytes, codes, same, any,
}
use mathlib.Core.Path.{subst}
use mathlib.Core.List.{Memᴰ}
use aamio_rust.Extern.Encodings.{Encodings}
use aamio_rust.Extern.Hashing.{Hashing}
use aamio_rust.Extern.Crypto.{Crypto}
use aamio_rust.Extern.Envelopes.{Envelopes}
use aamio_rust.Extern.Json.{Json}
use aamio_rust.Keys.{Keys}
use aamio_rust.Client.Fields.{str_field}
use aamio_rust.Client.Check.{Signed}
use aamio_rust.Client.Message.{Message, decode_at, raw_of, decode_all}
use aamio_rust.Client.Message.Decoded.{decode_at-Signed}
use aamio_rust.Client.Allow.{
  contains, star, normalize_allow, KeptOut, keep_reason, is_allowed, hand_over, filter_messages,
}

module _ ⦃j : Json⦄ where
  -- A list that names anything is what the messages are held against.
  filter_messages-eq-hand_over :
      (thread_allow : List Bytes) (messages : List Message) (key : Bytes) (others : List Bytes)
      → normalize_allow thread_allow ≡ key ∷ others
      → filter_messages thread_allow messages
        ≡ hand_over (key ∷ others) (any (same star) (key ∷ others)) messages
  unfolding filter_messages
  filter_messages-eq-hand_over thread_allow messages key others normal =
      rw (filter_messages, normal) refl

module _ ⦃j : Json⦄ ⦃e : Encodings⦄ ⦃h : Hashing⦄ ⦃c : Crypto⦄ ⦃v : Envelopes⦄ (keys : Option Keys)
    (w : Bytes) where
  -- A message that was signed at this address, by a sender in the list or under the star.
  abbrev pub Vouched : List Bytes → Bool → List (Bool × j.Value) → Message → Type 0
  Vouched allow any_signed raws m =
      (r : Bool × j.Value) × Memᴰ r raws
      × (m ≡ decode_at r.0 keys w (raw_of r.1))
      × Signed w (raw_of r.1)
      × ((any_signed ≡ true)
          ⊎ ((from : Bytes) × (str_field (raw_of r.1) (codes "from") ≡ some from)
              × (contains allow from ≡ true)))

  allowed-Vouched :
      (allow : List Bytes) (any_signed : Bool) (r : Bool × j.Value) (raws : List (Bool × j.Value))
      → Memᴰ r raws
      → is_allowed allow any_signed (decode_at r.0 keys w (raw_of r.1)) ≡ true
      → Vouched allow any_signed raws (decode_at r.0 keys w (raw_of r.1))
  unfolding is_allowed
  allowed-Vouched allow any_signed r raws mem allowed =
      elim (decode_at-Signed r.0 keys w (raw_of r.1)) [
        | inr unsigned ↦ absurd (ground (arith, unsigned, allowed))
        | inl signed ↦ (
          r,
          mem,
          refl,
          signed.1,
          elim (Option-cases (str_field (raw_of r.1) (codes "from"))) [
            | inl nobody ↦ inl (ground (arith, signed.0, signed.2, nobody, allowed))
            | inr (from, named) ↦ elim (Bool-cases any_signed) [
              | inl everyone ↦ inl everyone
              | inr listed ↦
                  inr (from, named, ground (arith, signed.0, signed.2, named, allowed, listed))
            ]
          ],
        )
      ]

  Vouched-cons :
      (allow : List Bytes) (any_signed : Bool) (r : Bool × j.Value) (raws : List (Bool × j.Value))
      (m : Message)
      → Vouched allow any_signed raws m
      → Vouched allow any_signed (r ∷ raws) m
  Vouched-cons allow any_signed r raws m (s, mem, decoded, signed, sender) =
      (s, Memᴰ.tail mem, decoded, signed, sender)

  Vouched-All :
      (allow : List Bytes) (any_signed : Bool) (r : Bool × j.Value) (raws : List (Bool × j.Value))
      (ms : List Message)
      → All (Vouched allow any_signed raws) ms
      → All (Vouched allow any_signed (r ∷ raws)) ms
  Vouched-All allow any_signed r raws [] all_old = tt
  Vouched-All allow any_signed r raws (m ∷ ms) all_old = (
    Vouched-cons allow any_signed r raws m all_old.0,
    Vouched-All allow any_signed r raws ms all_old.1,
  )

  pub hand_over-Vouched :
      (allow : List Bytes) (any_signed : Bool) (raws : List (Bool × j.Value))
      → All (Vouched allow any_signed raws) (hand_over allow any_signed (decode_all keys w raws)).0
  unfolding hand_over decode_all
  hand_over-Vouched allow any_signed [] = tt
  hand_over-Vouched allow any_signed (r ∷ raws) =
      let m = decode_at r.0 keys w (raw_of r.1) in
      let rest = Vouched-All allow any_signed r raws _ (hand_over-Vouched allow any_signed raws) in
      elim (Bool-cases (is_allowed allow any_signed m)) [
        | inl allowed ↦
            rw allowed
              (allowed-Vouched allow any_signed r (r ∷ raws) (Memᴰ.head refl) allowed, rest)
        | inr refused ↦ rw refused rest
      ]

  -- For a thread with an allowlist that names anything, whatever the service returned and whatever
  -- check panicked: every message that is handed over is one of those returned, has a body, a hash
  -- and a signature for this address that check out, and is signed by a sender in the list, or the
  -- list is the star.
  pub filter_messages-Vouched :
      (thread_allow : List Bytes) (raws : List (Bool × j.Value)) (key : Bytes) (others : List Bytes)
      → normalize_allow thread_allow ≡ key ∷ others
      → All
          (Vouched (key ∷ others) (any (same star) (key ∷ others)) raws)
          (filter_messages thread_allow (decode_all keys w raws)).0
  filter_messages-Vouched thread_allow raws key others normal =
      rw (filter_messages-eq-hand_over thread_allow (decode_all keys w raws) key others normal)
        (hand_over-Vouched (key ∷ others) (any (same star) (key ∷ others)) raws)

module _ ⦃j : Json⦄ (allow : List Bytes) (any_signed : Bool) where
  -- The line of a message that is kept out.
  abbrev pub kept_out : Message → KeptOut
  kept_out m = record {
    seq = m.seq;
    why = keep_reason any_signed;
    unverified_because = m.unverified_because;
  }

  -- Where a message ends up.
  abbrev pub Placed : List Message × List KeptOut → Message → Type 0
  Placed out m =
      ((is_allowed allow any_signed m ≡ true) × Memᴰ m out.0)
      ⊎ ((is_allowed allow any_signed m ≡ false) × Memᴰ (kept_out m) out.1)

  Placed-handed :
      (out : List Message × List KeptOut) (m n : Message)
      → Placed out n
      → Placed (m ∷ out.0, out.1) n
  Placed-handed out m n (inl (yes_, mem)) = inl (yes_, Memᴰ.tail mem)
  Placed-handed out m n (inr kept) = inr kept

  Placed-kept :
      (out : List Message × List KeptOut) (k : KeptOut) (n : Message)
      → Placed out n
      → Placed (out.0, k ∷ out.1) n
  Placed-kept out k n (inl handed) = inl handed
  Placed-kept out k n (inr (no_, mem)) = inr (no_, Memᴰ.tail mem)

  hand_over-allowed :
      (m : Message) (messages : List Message)
      → is_allowed allow any_signed m ≡ true
      → hand_over allow any_signed (m ∷ messages)
        ≡ (m ∷ (hand_over allow any_signed messages).0, (hand_over allow any_signed messages).1)
  unfolding hand_over
  hand_over-allowed m messages allowed = rw allowed refl

  hand_over-refused :
      (m : Message) (messages : List Message)
      → is_allowed allow any_signed m ≡ false
      → hand_over allow any_signed (m ∷ messages) ≡ (
        (hand_over allow any_signed messages).0,
        kept_out m ∷ (hand_over allow any_signed messages).1,
      )
  unfolding hand_over
  hand_over-refused m messages refused = rw refused refl

  -- Every message is in its place, and the places are as many as the messages.
  abbrev pub AllPlaced : List Message → List Message × List KeptOut → Type 0
  AllPlaced messages out =
      All (Placed out) messages × (length out.0 + length out.1 ≡ length messages)

  -- Nothing is dropped: of the messages read, each that is allowed is handed over, each other has a
  -- line among those kept out, and there are as many as were read.
  pub hand_over-Placed :
      (messages : List Message) → AllPlaced messages (hand_over allow any_signed messages)
  hand_over-Placed [] = (tt, unfold hand_over in refl)
  hand_over-Placed (m ∷ messages) =
      let (rest, total) = hand_over-Placed messages in
      let out = hand_over allow any_signed messages in
      elim (Bool-cases (is_allowed allow any_signed m)) [
        | inl allowed ↦
            subst (AllPlaced (m ∷ messages)) (sym (hand_over-allowed m messages allowed)) (
              (inl (allowed, Memᴰ.head refl), All-map (λ n. Placed-handed out m n) messages rest),
              omega (arith, total),
            )
        | inr refused ↦
            subst (AllPlaced (m ∷ messages)) (sym (hand_over-refused m messages refused)) (
              (
                inr (refused, Memᴰ.head refl),
                All-map (λ n. Placed-kept out (kept_out m) n) messages rest,
              ),
              omega (arith, total),
            )
      ]

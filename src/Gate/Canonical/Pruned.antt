-- ===== src/Gate/Canonical/Pruned.antt =====
-- Which gates of src/gate.rs have one canonical text.
use aamio_rust.Base.{
  ◌≡◌, refl, sym, ap, ◌∙◌, ◌⊎◌, inl, inr, true, false, ◌&&◌, ◌||◌, none, some, arith, if◌then◌else◌,
  Bool-cases, unwrap_or, Bytes, same_iff, same_refl, codes, same,
}
use mathlib.Core.Path.{◌≡⟨◌⟩◌, ◌∎}
use aamio_rust.Extern.Encodings.{Encodings}
use aamio_rust.Extern.Hashing.{Hashing}
use aamio_rust.Extern.Json.{Json}
use aamio_rust.Codec.{sha256_hex}
use aamio_rust.Gate.Canonical.{is_empty_object, prune, pruned_gate, canonical, gate_hash}

advise-ne-require : same (codes "advise") (codes "require") ≡ false
unfolding same codes
advise-ne-require = refl

require-ne-advise : same (codes "require") (codes "advise") ≡ false
unfolding same codes
require-ne-advise = refl

module _ ⦃j : Json⦄ where
  get-prune :
      (m : j.Map) (bucket k : Bytes)
      → j.get (prune m bucket) k
        ≡ (if same bucket k && is_empty_object (j.get m k) then none else j.get m k)
  unfolding prune
  get-prune m bucket k = ground (arith, j.get-remove m bucket k, same_iff bucket k)

  -- The pruned gate has every field of the gate, a gate that is no object having none,
  -- except that `require` and `advise` are absent where they are empty objects.
  pub get-pruned_gate :
      (gate : j.Value) (k : Bytes)
      → j.get (pruned_gate gate) k ≡ (
          if (same (codes "require") k || same (codes "advise") k)
            && is_empty_object (j.get (unwrap_or (j.as_object gate) j.empty) k)
          then none
          else j.get (unwrap_or (j.as_object gate) j.empty) k)
  unfolding pruned_gate
  get-pruned_gate gate k =
      let m = unwrap_or (j.as_object gate) j.empty in
      ground (
        arith,
        get-prune (prune m (codes "require")) (codes "advise") k,
        get-prune m (codes "require") k,
      )

  prune-insert_empty :
      (m : j.Map) (bucket : Bytes)
      → prune (j.insert m bucket (j.object j.empty)) bucket ≡ j.remove m bucket
  unfolding prune is_empty_object
  prune-insert_empty m bucket = ground (
    arith,
    j.get-insert m bucket (j.object j.empty) bucket,
    same_refl bucket,
    j.as_object-object j.empty,
    j.is_empty_iff j.empty,
    j.remove-insert m bucket (j.object j.empty),
  )

  prune_absent : (m : j.Map) (bucket : Bytes) → j.get m bucket ≡ none → prune m bucket ≡ m
  unfolding prune is_empty_object
  prune_absent m bucket absent = rw absent refl

  pruned_gate-insert_require :
      (m : j.Map)
      → j.get m (codes "require") ≡ none
      → pruned_gate (j.object (j.insert m (codes "require") (j.object j.empty)))
        ≡ pruned_gate (j.object m)
  unfolding pruned_gate
  pruned_gate-insert_require m absent = cc (
    j.as_object-object m,
    j.as_object-object (j.insert m (codes "require") (j.object j.empty)),
    prune-insert_empty m (codes "require"),
    j.remove_absent m (codes "require") absent,
    prune_absent m (codes "require") absent,
  )

  prune_skip :
      (m : j.Map) (bucket : Bytes) → is_empty_object (j.get m bucket) ≡ false → prune m bucket ≡ m
  unfolding prune
  prune_skip m bucket kept = ground arith

  prune_take :
      (m : j.Map) (bucket : Bytes)
      → is_empty_object (j.get m bucket) ≡ true
      → prune m bucket ≡ j.remove m bucket
  unfolding prune
  prune_take m bucket dropped = ground arith

  is_empty_object-empty : is_empty_object (some (j.object j.empty)) ≡ true
  unfolding is_empty_object
  is_empty_object-empty = ground (arith, j.as_object-object j.empty, j.is_empty_iff j.empty)

  module _ (m : j.Map) (absent : j.get m (codes "advise") ≡ none) where
    with_empty : j.Map
    with_empty = j.insert m (codes "advise") (j.object j.empty)

    get-with_empty : j.get with_empty (codes "require") ≡ j.get m (codes "require")
    unfolding with_empty
    get-with_empty =
        j.get-insert m (codes "advise") (j.object j.empty) (codes "require")
        ∙ rw advise-ne-require refl

    prune_kept :
        is_empty_object (j.get m (codes "require")) ≡ false
        → prune (prune with_empty (codes "require")) (codes "advise")
          ≡ prune (prune m (codes "require")) (codes "advise")
    unfolding with_empty
    prune_kept kept = cc (
      prune_skip with_empty (codes "require") (rw get-with_empty kept),
      prune_skip m (codes "require") kept,
      prune-insert_empty m (codes "advise"),
      j.remove_absent m (codes "advise") absent,
      prune_absent m (codes "advise") absent,
    )

    get-removed :
        j.get (j.remove with_empty (codes "require")) (codes "advise") ≡ some (j.object j.empty)
    unfolding with_empty
    get-removed = ground (
      arith,
      j.get-remove with_empty (codes "require") (codes "advise"),
      require-ne-advise,
      j.get-insert m (codes "advise") (j.object j.empty) (codes "advise"),
      same_refl (codes "advise"),
    )

    remove-with_empty : j.remove with_empty (codes "advise") ≡ m
    unfolding with_empty
    remove-with_empty =
        j.remove-insert m (codes "advise") (j.object j.empty)
        ∙ j.remove_absent m (codes "advise") absent

    still_absent : j.get (j.remove m (codes "require")) (codes "advise") ≡ none
    still_absent =
        ground (arith, j.get-remove m (codes "require") (codes "advise"), require-ne-advise, absent)

    prune_dropped :
        is_empty_object (j.get m (codes "require")) ≡ true
        → prune (prune with_empty (codes "require")) (codes "advise")
          ≡ prune (prune m (codes "require")) (codes "advise")
    prune_dropped dropped =
        prune (prune with_empty (codes "require")) (codes "advise")
        ≡⟨ ap (λ (n : j.Map). prune n (codes "advise"))
            (prune_take with_empty (codes "require") (rw get-with_empty dropped)) ⟩
          prune (j.remove with_empty (codes "require")) (codes "advise")
        ≡⟨ prune_take (j.remove with_empty (codes "require")) (codes "advise")
            (rw get-removed is_empty_object-empty) ⟩
          j.remove (j.remove with_empty (codes "require")) (codes "advise")
        ≡⟨ j.remove_comm with_empty (codes "require") (codes "advise") ⟩
          j.remove (j.remove with_empty (codes "advise")) (codes "require")
        ≡⟨ ap (λ (n : j.Map). j.remove n (codes "require")) remove-with_empty ⟩
          j.remove m (codes "require")
        ≡⟨ sym (prune_absent (j.remove m (codes "require")) (codes "advise") still_absent) ⟩
          prune (j.remove m (codes "require")) (codes "advise")
        ≡⟨ ap (λ (n : j.Map). prune n (codes "advise"))
            (sym (prune_take m (codes "require") dropped)) ⟩
          prune (prune m (codes "require")) (codes "advise") ∎

    pruned_gate-insert_advise : pruned_gate (j.object with_empty) ≡ pruned_gate (j.object m)
    unfolding pruned_gate
    pruned_gate-insert_advise =
        rw (j.as_object-object m, j.as_object-object with_empty)
          (elim (Bool-cases (is_empty_object (j.get m (codes "require")))) [
            | inl dropped ↦ prune_dropped dropped
            | inr kept ↦ prune_kept kept
          ])

module _ ⦃j : Json⦄ where
  pruned_gate-insert :
      (m : j.Map) (bucket : Bytes)
      → (bucket ≡ codes "require") ⊎ (bucket ≡ codes "advise")
      → j.get m bucket ≡ none
      → pruned_gate (j.object (j.insert m bucket (j.object j.empty))) ≡ pruned_gate (j.object m)
  unfolding with_empty
  pruned_gate-insert m bucket (inl require) absent =
      rw require (pruned_gate-insert_require m (rw (← require) absent))
  pruned_gate-insert m bucket (inr advise) absent =
      rw advise (pruned_gate-insert_advise m (rw (← advise) absent))

module _ ⦃j : Json⦄ ⦃e : Encodings⦄ ⦃h : Hashing⦄ where
  -- An empty bucket, `require` or `advise`, makes no difference to the gate hash: a gate that lacks
  -- the bucket and the same gate with an empty one have the same hash.
  pub gate_hash-empty_bucket :
      (m : j.Map) (bucket : Bytes)
      → (bucket ≡ codes "require") ⊎ (bucket ≡ codes "advise")
      → j.get m bucket ≡ none
      → gate_hash (j.object (j.insert m bucket (j.object j.empty))) ≡ gate_hash (j.object m)
  unfolding gate_hash canonical
  gate_hash-empty_bucket m bucket which absent =
      ap (λ (g : j.Map). sha256_hex (j.to_string (j.object g)))
        (pruned_gate-insert m bucket which absent)

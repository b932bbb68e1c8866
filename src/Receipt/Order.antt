-- ===== src/Receipt/Order.antt =====
-- The root of src/receipt.rs does not depend on the order in which the service lists the messages.
use aamio_rust.Base.{◌≡◌, refl, sym, ap, ◌∙◌, ◌≢◌, List, [], ◌∷◌, arith, Bytes}
use mathlib.Core.Path.{subst}
use mathlib.Core.Logic.{∥∥₁_elim}
use mathlib.Core.List.{Perm, Permᴰ}
use aamio_rust.Base.Int.{ℤ, ≤ℤ_antisymm}
use aamio_rust.Extern.Encodings.{Encodings}
use aamio_rust.Extern.Hashing.{Hashing}
use aamio_rust.Codec.{sha256_hex}
use aamio_rust.Receipt.{ReceiptMessage, push_lines, sorted, root}
use aamio_rust.Receipt.Sort.{insert_by_key, sort_by_key}

module _ {A : Type 0} (key : A → ℤ) where
  insert_insert :
      (x y : A) (l : List A)
      → key x ≢ key y
      → insert_by_key key x (insert_by_key key y l) ≡ insert_by_key key y (insert_by_key key x l)
  unfolding insert_by_key
  insert_insert x y [] ne = ground (arith, ≤ℤ_antisymm (key x) (key y))
  insert_insert x y (z ∷ l) ne = ground (arith, ≤ℤ_antisymm (key x) (key y), insert_insert x y l ne)

  -- No element of the list has the key `k`; all keys of the list differ.
  abbrev pub Fresh : ℤ → List A → Type 0
  Fresh k [] = Unit
  Fresh k (x ∷ xs) = (k ≢ key x) × Fresh k xs

  abbrev pub Distinct : List A → Type 0
  Distinct [] = Unit
  Distinct (x ∷ xs) = Fresh (key x) xs × Distinct xs

  Fresh-perm : (k : ℤ) {xs ys : List A} → Permᴰ xs ys → Fresh k xs → Fresh k ys
  Fresh-perm k Permᴰ.nil h = tt
  Fresh-perm k (Permᴰ.cons e d) h = (rw (← e) h.0, Fresh-perm k d h.1)
  Fresh-perm k (Permᴰ.swap e f) h = (rw (← f) h.1.0, (rw (← e) h.0, h.1.1))
  Fresh-perm k (Permᴰ.trans d d') h = Fresh-perm k d' (Fresh-perm k d h)

  Distinct-perm : {xs ys : List A} → Permᴰ xs ys → Distinct xs → Distinct ys
  Distinct-perm Permᴰ.nil h = tt
  Distinct-perm (Permᴰ.cons e d) h = (rw (← e) (Fresh-perm _ d h.0), Distinct-perm d h.1)
  Distinct-perm (Permᴰ.swap {l = l} e f) h = (
    (rw (← e, ← f) (λ p. h.0.0 (sym p)), subst (λ (x : A). Fresh (key x) l) f h.1.0),
    (subst (λ (x : A). Fresh (key x) l) e h.0.1, h.1.1),
  )
  Distinct-perm (Permᴰ.trans d d') h = Distinct-perm d' (Distinct-perm d h)

  sort_by_key-permᴰ :
      {xs ys : List A} → Permᴰ xs ys → Distinct xs → sort_by_key key xs ≡ sort_by_key key ys
  unfolding sort_by_key
  sort_by_key-permᴰ Permᴰ.nil h = refl
  sort_by_key-permᴰ (Permᴰ.cons e d) h = rw (sort_by_key-permᴰ d h.1, e)
  sort_by_key-permᴰ (Permᴰ.swap e f) h = rw (← e, ← f) (insert_insert _ _ _ h.0.0)
  sort_by_key-permᴰ (Permᴰ.trans d d') h =
      sort_by_key-permᴰ d h ∙ sort_by_key-permᴰ d' (Distinct-perm d h)

Bytes-set : IsSet Bytes
Bytes-set = hlevel

module _ ⦃e : Encodings⦄ ⦃h : Hashing⦄ where
  -- Messages with different sequence numbers have one root in whatever order they are
  -- listed.
  pub root-perm :
      (ms ns : List ReceiptMessage)
      → Distinct (λ (m : ReceiptMessage). m.seq) ms
      → Perm ms ns
      → root ms ≡ root ns
  unfolding root sorted
  root-perm ms ns distinct p = ∥∥₁_elim p (Bytes-set _ _) (λ d.
      ap (λ (l : List ReceiptMessage). sha256_hex (push_lines l []))
        (sort_by_key-permᴰ (λ (m : ReceiptMessage). m.seq) d distinct))

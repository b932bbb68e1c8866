-- ===== src/Receipt/Sort.antt =====
-- `sort_by_key` of the Rust library: the stable sort by a signed key.
use aamio_rust.Base.{
  suc, ◌≡◌, refl, ap, ◌∙◌, inl, inr, List, [], ◌∷◌, arith, if◌then◌else◌, tests, Bool-cases, length,
  All,
}
use mathlib.Core.List.{Perm}
use mathlib.Core.List.Perm
use aamio_rust.Base.Int.{ℤ, leb_ℤ, ◌≤ℤ◌}

module _ {ℓ} {A : Type ℓ} (key : A → ℤ) where
  -- An element goes in front of the first one whose key is not below its own.
  unfoldable pub insert_by_key : A → List A → List A
  insert_by_key x [] = x ∷ []
  insert_by_key x (y ∷ ys) = if leb_ℤ (key x) (key y) then x ∷ y ∷ ys else y ∷ insert_by_key x ys

  unfoldable pub sort_by_key : List A → List A
  unfolding insert_by_key
  sort_by_key [] = []
  sort_by_key (x ∷ xs) = insert_by_key x (sort_by_key xs)

  pub insert_by_key-perm : (x : A) (ys : List A) → Perm (insert_by_key x ys) (x ∷ ys)
  unfolding insert_by_key
  insert_by_key-perm x [] = Perm.refl (x ∷ [])
  insert_by_key-perm x (y ∷ ys) = elim (Bool-cases (leb_ℤ (key x) (key y))) [
    | inl low ↦ rw low (Perm.refl (x ∷ y ∷ ys))
    | inr high ↦ rw high (Perm.trans (Perm.cons y (insert_by_key-perm x ys)) (Perm.swap x y ys))
  ]

  -- Sorting keeps the messages, each as often as it was there.
  pub sort_by_key-perm : (xs : List A) → Perm (sort_by_key xs) xs
  unfolding sort_by_key
  sort_by_key-perm [] = Perm.refl []
  sort_by_key-perm (x ∷ xs) =
      Perm.trans (insert_by_key-perm x (sort_by_key xs)) (Perm.cons x (sort_by_key-perm xs))

  -- The key of every element of the list is at least `k`.
  abbrev pub Above : ℤ → List A → Type 0
  Above k [] = Unit
  Above k (x ∷ xs) = (k ≤ℤ key x) × Above k xs

  abbrev pub IsSorted : List A → Type 0
  IsSorted [] = Unit
  IsSorted (x ∷ xs) = Above (key x) xs × IsSorted xs

  Above-le : (j k : ℤ) (xs : List A) → j ≤ℤ k → Above k xs → Above j xs
  Above-le j k [] le h = tt
  Above-le j k (x ∷ xs) le h = (omega arith, Above-le j k xs le h.1)

  Above-insert :
      (k : ℤ) (x : A) (ys : List A) → k ≤ℤ key x → Above k ys → Above k (insert_by_key x ys)
  unfolding insert_by_key
  Above-insert k x [] le h = (le, tt)
  Above-insert k x (y ∷ ys) le h = elim (Bool-cases (leb_ℤ (key x) (key y))) [
    | inl low ↦ rw low (le, h)
    | inr high ↦ rw high (h.0, Above-insert k x ys le h.1)
  ]

  insert_by_key-IsSorted : (x : A) (ys : List A) → IsSorted ys → IsSorted (insert_by_key x ys)
  unfolding insert_by_key
  insert_by_key-IsSorted x [] h = (tt, tt)
  insert_by_key-IsSorted x (y ∷ ys) h = elim (Bool-cases (leb_ℤ (key x) (key y))) [
    | inl low ↦
        let le : key x ≤ℤ key y = omega (tests, low) in
        rw low ((le, Above-le (key x) (key y) ys le h.0), h)
    | inr high ↦
        rw high
          (Above-insert (key y) x ys (omega (tests, high)) h.0, insert_by_key-IsSorted x ys h.1)
  ]

  pub sort_by_key-IsSorted : (xs : List A) → IsSorted (sort_by_key xs)
  unfolding sort_by_key
  sort_by_key-IsSorted [] = tt
  sort_by_key-IsSorted (x ∷ xs) = insert_by_key-IsSorted x _ (sort_by_key-IsSorted xs)

  -- A list that is sorted already is left as it is.
  pub sort_by_key_idem : (xs : List A) → IsSorted xs → sort_by_key xs ≡ xs
  unfolding sort_by_key insert_by_key
  sort_by_key_idem [] h = refl
  sort_by_key_idem (x ∷ []) h = refl
  sort_by_key_idem (x ∷ y ∷ ys) h = rw (sort_by_key_idem (y ∷ ys) h.1) (ground arith)

module _ {ℓ κ} {A : Type ℓ} (P : A → Type κ) (key : A → ℤ) where
  All-insert : (x : A) (ys : List A) → P x → All P ys → All P (insert_by_key key x ys)
  unfolding insert_by_key
  All-insert x [] hx h = (hx, tt)
  All-insert x (y ∷ ys) hx h = elim (Bool-cases (leb_ℤ (key x) (key y))) [
    | inl low ↦ rw low (hx, h)
    | inr high ↦ rw high (h.0, All-insert x ys hx h.1)
  ]

  pub All-sort : (xs : List A) → All P xs → All P (sort_by_key key xs)
  unfolding sort_by_key
  All-sort [] h = tt
  All-sort (x ∷ xs) h = All-insert x _ h.0 (All-sort xs h.1)

module _ {ℓ} {A : Type ℓ} (key : A → ℤ) where
  length-insert : (x : A) (ys : List A) → length (insert_by_key key x ys) ≡ suc (length ys)
  unfolding insert_by_key
  length-insert x [] = refl
  length-insert x (y ∷ ys) = elim (Bool-cases (leb_ℤ (key x) (key y))) [
    | inl low ↦ rw low
    | inr high ↦ rw high (ap suc (length-insert x ys))
  ]

  pub length-sort : (xs : List A) → length (sort_by_key key xs) ≡ length xs
  unfolding sort_by_key
  length-sort [] = refl
  length-sort (x ∷ xs) = length-insert x (sort_by_key key xs) ∙ ap suc (length-sort xs)

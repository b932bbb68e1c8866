-- ===== src/Board/Replies/Renamed.antt =====
-- One renaming of src/board.rs: what is read under a name afterwards, and what is noted of it.
use aamio_rust.Base.{
  ◌≡◌, refl, sym, inl, inr, true, not, ◌∷◌, ◌++◌, Option, none, some, List, [], arith, append-nil,
  Option-cases, Bytes, same, same_iff, all, if◌then◌else◌,
}
use aamio_rust.Extern.Json.{Json}
use aamio_rust.Board.Replies.{rename_first, rename}

module _ ⦃j : Json⦄ where
  -- The value of the first of some names that is there.
  unfoldable pub first_present : j.Map → List Bytes → Option j.Value
  first_present m [] = none
  first_present m (name ∷ names) = elim (j.get m name) [
    | some v ↦ some v
    | none ↦ first_present m names
  ]

  -- The name that is read for another, which is the first that is there.
  unfoldable pub first_alias : j.Map → Bytes → List Bytes → List (Bytes × Bytes)
  first_alias m canonical [] = []
  first_alias m canonical (alias ∷ names) = elim (j.get m alias) [
    | some v ↦ (alias, canonical) ∷ []
    | none ↦ first_alias m canonical names
  ]

  unfoldable pub alias_of : j.Map → Bytes → List Bytes → List (Bytes × Bytes)
  alias_of m canonical names = elim (j.get m canonical) [
    | some v ↦ []
    | none ↦ first_alias m canonical names
  ]

  rename_first-get :
      (canonical : Bytes) (names : List Bytes) (m : j.Map) (renamed : List (Bytes × Bytes))
      (k : Bytes)
      → j.get m canonical ≡ none
      → j.get (rename_first canonical names (m, renamed)).0 k
        ≡ (if same canonical k then first_present m names else j.get m k)
  unfolding rename_first first_present
  rename_first-get canonical [] m renamed k absent = ground (arith, same_iff canonical k, absent)
  rename_first-get canonical (alias ∷ names) m renamed k absent =
      elim (Option-cases (j.get m alias)) [
        | inl missing ↦ ground (arith, missing, rename_first-get canonical names m renamed k absent)
        | inr (v, there) ↦ ground (arith, there, j.get-insert m canonical v k)
      ]

  rename_first-renamed :
      (canonical : Bytes) (names : List Bytes) (m : j.Map) (renamed : List (Bytes × Bytes))
      → (rename_first canonical names (m, renamed)).1 ≡ renamed ++ first_alias m canonical names
  unfolding rename_first first_alias
  rename_first-renamed canonical [] m renamed = sym (append-nil renamed)
  rename_first-renamed canonical (alias ∷ names) m renamed = elim (Option-cases (j.get m alias)) [
    | inl missing ↦ ground (arith, missing, rename_first-renamed canonical names m renamed)
    | inr (v, there) ↦ ground (arith, there)
  ]

  -- A name that was renamed is read as the first that is there, and no other name changes.
  pub rename-get :
      (canonical : Bytes) (names : List Bytes) (m : j.Map) (renamed : List (Bytes × Bytes))
      (k : Bytes)
      → j.get (rename canonical names (m, renamed)).0 k
        ≡ (if same canonical k then first_present m (canonical ∷ names) else j.get m k)
  unfolding rename first_present
  rename-get canonical names m renamed k = elim (Option-cases (j.get m canonical)) [
    | inl missing ↦ ground (arith, missing, rename_first-get canonical names m renamed k missing)
    | inr (v, there) ↦ ground (arith, there, same_iff canonical k)
  ]

  pub rename-renamed :
      (canonical : Bytes) (names : List Bytes) (m : j.Map) (renamed : List (Bytes × Bytes))
      → (rename canonical names (m, renamed)).1 ≡ renamed ++ alias_of m canonical names
  unfolding rename alias_of
  rename-renamed canonical names m renamed = elim (Option-cases (j.get m canonical)) [
    | inl missing ↦ ground (arith, missing, rename_first-renamed canonical names m renamed)
    | inr (v, there) ↦ ground (arith, there, append-nil renamed)
  ]

  -- Two maps that agree on some names.
  abbrev pub Agree : j.Map → j.Map → List Bytes → Type 0
  Agree m n [] = Unit
  Agree m n (name ∷ names) = (j.get m name ≡ j.get n name) × Agree m n names

  pub first_present-Agree :
      (m n : j.Map) (names : List Bytes)
      → Agree m n names
      → first_present m names ≡ first_present n names
  unfolding first_present
  first_present-Agree m n [] tt = refl
  first_present-Agree m n (name ∷ names) (here, rest) =
      ground (arith, here, first_present-Agree m n names rest)

  pub first_alias-Agree :
      (m n : j.Map) (canonical : Bytes) (names : List Bytes)
      → Agree m n names
      → first_alias m canonical names ≡ first_alias n canonical names
  unfolding first_alias
  first_alias-Agree m n canonical [] tt = refl
  first_alias-Agree m n canonical (name ∷ names) (here, rest) =
      ground (arith, here, first_alias-Agree m n canonical names rest)

  pub alias_of-Agree :
      (m n : j.Map) (canonical : Bytes) (names : List Bytes)
      → Agree m n (canonical ∷ names)
      → alias_of m canonical names ≡ alias_of n canonical names
  unfolding alias_of
  alias_of-Agree m n canonical names (here, rest) =
      ground (arith, here, first_alias-Agree m n canonical names rest)

  -- A renaming changes nothing of other names.
  pub rename-Agree :
      (canonical : Bytes) (names : List Bytes) (m : j.Map) (renamed : List (Bytes × Bytes))
      (others : List Bytes)
      → all (λ k. not (same canonical k)) others ≡ true
      → Agree (rename canonical names (m, renamed)).0 m others
  unfolding all
  rename-Agree canonical names m renamed [] apart = tt
  rename-Agree canonical names m renamed (k ∷ others) apart = (
    ground (arith, rename-get canonical names m renamed k, apart),
    rename-Agree canonical names m renamed others (ground (arith, apart)),
  )

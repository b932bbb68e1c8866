-- ===== src/Client/Allow/Normal.antt =====
-- What a normalised allowlist of src/client.rs looks like.
use aamio_rust.Base.{
  ◌≡◌, refl, sym, ◌∙◌, ◌⊎◌, inl, inr, Bool, false, not, ◌&&◌, ◌||◌, List, [], ◌∷◌, ◌++◌, map, true,
  arith, Bool-cases, All, All-append, Bytes, same_iff, same, any,
}
use aamio_rust.Keys.{is_empty_text}
use aamio_rust.Base.Pieces.{split, trim}
use aamio_rust.Client.Allow.{contains, push_part, push_parts, push_entries, star, normalize_allow}

-- No text of the list stands in it again.
abbrev pub Distinct : List Bytes → Type 0
Distinct [] = Unit
Distinct (x ∷ xs) = (contains xs x ≡ false) × Distinct xs

-- The list has no empty text and no text twice.
abbrev pub Normal : List Bytes → Type 0
Normal out = All (λ k. is_empty_text k ≡ false) out × Distinct out

any-append :
    (p : Bytes → Bool) (xs : List Bytes) (k : Bytes) → any p (xs ++ k ∷ []) ≡ (any p xs || p k)
unfolding any
any-append p [] k = ground arith
any-append p (x ∷ xs) k = ground (arith, any-append p xs k)

same_sym : (a b : Bytes) → same a b ≡ false → same b a ≡ false
same_sym a b h = ground (arith, same_iff a b, same_iff b a, h)

Distinct-append :
    (xs : List Bytes) (k : Bytes) → Distinct xs → contains xs k ≡ false → Distinct (xs ++ k ∷ [])
unfolding contains any
Distinct-append [] k d new = (refl, tt)
Distinct-append (x ∷ xs) k d new = (
  any-append (same x) xs k ∙ ground (arith, d.0, same_sym k x, new),
  Distinct-append xs k d.1 (ground (arith, new)),
)

push_part-Normal : (out : List Bytes) (part : Bytes) → Normal out → Normal (push_part out part)
unfolding push_part
push_part-Normal out part n =
    elim (Bool-cases (not (is_empty_text (trim part)) && not (contains out (trim part)))) [
      | inl fresh ↦ rw fresh (
        All-append _ out (trim part ∷ []) n.0 (ground (arith, fresh), tt),
        Distinct-append out (trim part) n.1 (ground (arith, fresh)),
      )
      | inr stale ↦ rw stale n
    ]

push_parts-Normal : (out parts : List Bytes) → Normal out → Normal (push_parts out parts)
unfolding push_parts
push_parts-Normal out [] n = n
push_parts-Normal out (part ∷ parts) n =
    push_parts-Normal (push_part out part) parts (push_part-Normal out part n)

push_entries-Normal : (out entries : List Bytes) → Normal out → Normal (push_entries out entries)
unfolding push_entries
push_entries-Normal out [] n = n
push_entries-Normal out (entry ∷ entries) n =
    push_entries-Normal (push_parts out (split b',' entry)) entries
      (push_parts-Normal out (split b',' entry) n)

-- An empty text is not in a list of texts that are not empty.
empty-absent :
    (out : List Bytes) (k : Bytes)
    → All (λ t. is_empty_text t ≡ false) out
    → is_empty_text k ≡ true
    → contains out k ≡ false
unfolding contains any
empty-absent [] k full empty = refl
empty-absent (x ∷ xs) k full empty =
    ground (arith, empty-absent xs k full.1 empty, same_iff k x, full.0, empty)

-- Every text between the commas of the entries, without the white space around it.
unfoldable pub parts_of : List Bytes → List Bytes
parts_of [] = []
parts_of (entry ∷ entries) = map trim (split b',' entry) ++ parts_of entries

contains-append :
    (xs ys : List Bytes) (k : Bytes) → contains (xs ++ ys) k ≡ (contains xs k || contains ys k)
unfolding contains any
contains-append [] ys k = refl
contains-append (x ∷ xs) ys k = ground (arith, contains-append xs ys k)

push_part-contains :
    (out : List Bytes) (part k : Bytes)
    → is_empty_text k ≡ false
    → contains (push_part out part) k ≡ (contains out k || same k (trim part))
unfolding push_part contains any
push_part-contains out part k full =
    elim (Bool-cases (not (is_empty_text (trim part)) && not (contains out (trim part)))) [
      | inl fresh ↦ rw fresh (ground (arith, contains-append out (trim part ∷ []) k))
      | inr stale ↦ rw stale (ground (arith, stale, full, same_iff k (trim part)))
    ]

push_parts-contains :
    (out parts : List Bytes) (k : Bytes)
    → is_empty_text k ≡ false
    → contains (push_parts out parts) k ≡ (contains out k || contains (map trim parts) k)
unfolding push_parts contains any
push_parts-contains out [] k full = ground arith
push_parts-contains out (part ∷ parts) k full = ground (
  arith,
  push_parts-contains (push_part out part) parts k full,
  push_part-contains out part k full,
)

push_entries-contains :
    (out entries : List Bytes) (k : Bytes)
    → is_empty_text k ≡ false
    → contains (push_entries out entries) k ≡ (contains out k || contains (parts_of entries) k)
unfolding push_entries parts_of
push_entries-contains out [] k full = unfold contains any in ground arith
push_entries-contains out (entry ∷ entries) k full = ground (
  arith,
  push_entries-contains (push_parts out (split b',' entry)) entries k full,
  push_parts-contains out (split b',' entry) k full,
  contains-append (map trim (split b',' entry)) (parts_of entries) k,
)

star_listed :
    (allow : List Bytes) → any (same star) (push_entries [] allow) ≡ contains (parts_of allow) star
unfolding contains any
star_listed allow = push_entries-contains [] allow star refl

-- The texts of an allowlist are what stands between the commas of its entries, without the white
-- space around it. Where the star is one of them, the list is normalised to the star alone. Otherwise
-- it is normalised to a list that holds exactly those of the texts that are not empty, each once.
pub normalize_allow-Normal :
    (allow : List Bytes)
    → ((contains (parts_of allow) star ≡ true) × (normalize_allow allow ≡ star ∷ []))
      ⊎ ((contains (parts_of allow) star ≡ false)
          × Normal (normalize_allow allow)
          × ((k : Bytes)
              → contains (normalize_allow allow) k
                ≡ (not (is_empty_text k) && contains (parts_of allow) k)))
unfolding normalize_allow
normalize_allow-Normal allow = elim (Bool-cases (any (same star) (push_entries [] allow))) [
  | inl open_to_all ↦ inl (sym (star_listed allow) ∙ open_to_all, rw open_to_all refl)
  | inr named ↦ inr (
    sym (star_listed allow) ∙ named,
    rw named (push_entries-Normal [] allow (tt, tt)),
    rw named held,
  )
]
  where
    held :
        (k : Bytes)
        → contains (push_entries [] allow) k
          ≡ (not (is_empty_text k) && contains (parts_of allow) k)
    held k = elim (Bool-cases (is_empty_text k)) [
      | inr full ↦ rw full (push_entries-contains [] allow k full ∙ unfold contains any in refl)
      | inl empty ↦
          rw empty
            (empty-absent (push_entries [] allow) k (push_entries-Normal [] allow (tt, tt)).0 empty)
    ]

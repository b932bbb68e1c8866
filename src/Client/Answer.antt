-- ===== src/Client/Answer.antt =====
-- src/client.rs: what the service said, and what it says of a cursor.
use aamio_rust.Base.{
  ℕ, ◌≡◌, refl, Bool, true, false, Option, none, some, [], ◌∷◌, ◌++◌, arith, ◌==◌, unwrap_or,
  and_then, map_option, Bytes, concat, same_refl, codes, same,
}
use aamio_rust.Base.Int.{ℤ}
use aamio_rust.Base.Pieces.{trim}
use aamio_rust.Extern.Json.{Json}
use aamio_rust.Client.Fields.{str_field, i64_field}

pub record Reset : Type 0 where
  pub after : ℤ
  pub newest : ℤ
  pub what : Bytes

abbrev pub advice : Bytes
advice =
    codes
      "The request may have landed. Keep the bytes, mark the send unknown, and retry only when somebody has decided it is safe to."

module _ ⦃j : Json⦄ where
  pub record Answer : Type 0 where
    pub status : ℕ
    pub body : Option j.Map
    pub text : Bytes

  unfoldable pub error : Answer → Bytes
  error answer = elim answer.body [
    | none ↦ answer.text
    | some b ↦ trim (
        concat (
          unwrap_or (str_field b (codes "error")) []
          ∷ codes ". "
          ∷ unwrap_or (str_field b (codes "fix")) []
          ∷ []))
  ]

  unfoldable pub unknown : Answer → Bool
  unknown answer = answer.status == 0

  unfoldable pub get : Answer → Bytes → Option j.Value
  get answer field = and_then answer.body (λ b. j.get b field)

  unfoldable pub reset : Answer → Option Reset
  reset answer =
      map_option
        (λ raw. record {
          after = i64_field raw (codes "after");
          newest = i64_field raw (codes "newest");
          what = unwrap_or (str_field raw (codes "what")) [];
        })
        (and_then (get answer (codes "reset")) j.as_object)

  unfoldable pub no_answer : Bytes → Answer
  no_answer reason = record {
    status = 0;
    body = some (
        j.insert (j.insert j.empty (codes "error") (j.string (codes "no answer: " ++ reason)))
          (codes "fix") (j.string advice));
    text = reason;
  }

  fix-ne-error : same (codes "fix") (codes "error") ≡ false
  unfolding codes same
  fix-ne-error = refl

  error-ne-reset : same (codes "error") (codes "reset") ≡ false
  unfolding codes same
  error-ne-reset = refl

  fix-ne-reset : same (codes "fix") (codes "reset") ≡ false
  unfolding codes same
  fix-ne-reset = refl

  -- Where no answer came, whatever the reason: the outcome is unknown, no reset of the cursor is
  -- claimed, and the error is told as the reason and the advice to keep the bytes.
  pub no_answer-unknown :
      (reason : Bytes)
      → (unknown (no_answer reason) ≡ true)
        × (reset (no_answer reason) ≡ none)
        × (error (no_answer reason)
            ≡ trim (concat ((codes "no answer: " ++ reason) ∷ codes ". " ∷ advice ∷ [])))
  unfolding unknown no_answer reset get error str_field
  no_answer-unknown reason =
      let e = j.string (codes "no answer: " ++ reason) in
      let first = j.insert j.empty (codes "error") e in
      let f = j.string advice in
      (
        refl,
        ground (
          arith,
          j.get-insert first (codes "fix") f (codes "reset"),
          fix-ne-reset,
          j.get-insert j.empty (codes "error") e (codes "reset"),
          error-ne-reset,
          j.get-empty (codes "reset"),
        ),
        ground (
          arith,
          j.get-insert first (codes "fix") f (codes "error"),
          fix-ne-error,
          j.get-insert j.empty (codes "error") e (codes "error"),
          same_refl (codes "error"),
          j.get-insert first (codes "fix") f (codes "fix"),
          same_refl (codes "fix"),
          j.as_str-string (codes "no answer: " ++ reason),
          j.as_str-string advice,
        ),
      )

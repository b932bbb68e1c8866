-- ===== src/Board/Posts/Advised.antt =====
-- How many bits of work a post of src/board.rs is given: by the board's descriptor, which is read once.
use aamio_rust.Base.{
  ◌%◌, ◌^◌, ◌==◌, unwrap_or, if◌then◌else◌, ℕ, ◌≡◌, refl, sym, ap, ◌⊎◌, inl, inr, none, some, ◌∷◌,
  [], arith, Option-cases, codes, concat,
}
use mathlib.Core.Path.{subst}
use aamio_rust.Extern.Crypto.{Crypto}
use aamio_rust.Extern.Json.{Json}
use aamio_rust.Extern.Floats.{Floats}
use aamio_rust.Client.Answer.{Answer}
use Prim.Native.Nat.{min}
use aamio_rust.Client.World.{Request, World, State, Outcome, done}
use aamio_rust.Client.Calls.{request_of, answer_of, call, call_reading}
use aamio_rust.Board.Find.{
  Board, advised, read_descriptor, descriptor_from, descriptor, advised_bits,
}

module _ ⦃j : Json⦄ where
  -- The number that a descriptor gives as `work.advise_bits`, 0 where it gives none.
  unfoldable pub advice_in : j.Map → ℕ
  advice_in fields = elim (j.get fields (codes "work")) [
    | none ↦ 0
    | some work ↦ elim (j.as_object work) [
      | none ↦ 0
      | some inner ↦ elim (j.get inner (codes "advise_bits")) [
        | none ↦ 0
        | some number ↦ unwrap_or (j.as_u64 number) 0
      ]
    ]
  ]

  -- The bits of work for it: its low 32 bits, and 18 at most.
  abbrev pub bits_for : j.Map → ℕ
  bits_for fields = min (advice_in fields % 2 ^ 32) 18

  advised-bits_for : (fields : j.Map) → advised fields ≡ bits_for fields
  unfolding advised advice_in
  advised-bits_for fields = ground arith

  -- The descriptor in an answer.
  abbrev pub described : Answer → j.Map
  described answer = if answer.status == 200 then unwrap_or answer.body j.empty else j.empty

module _ ⦃j : Json⦄ ⦃f : Floats⦄ ⦃c : Crypto⦄ ⦃world : World⦄ (board : Board) where
  -- The call that reads the board's descriptor.
  unfoldable pub descriptor_request : Request
  descriptor_request =
      request_of (codes "GET") (concat (board.host ∷ codes "/.well-known/aamio-board.json" ∷ []))
        none []

  -- The descriptor is kept afterwards: the one that was kept before, or what was answered to the one
  -- call that reads it.
  abbrev pub ReadOnce : j.Map → State → State → Type 0
  ReadOnce fields s t =
      (t.descriptor ≡ some fields)
      × (((s.descriptor ≡ some fields) × (t ≡ s))
          ⊎ ((s.descriptor ≡ none)
              × (fields ≡ described (answer_of [] (world.reply s.log descriptor_request)).0)
              × (t.log ≡ (descriptor_request, world.reply s.log descriptor_request) ∷ s.log)))

  -- The bits for the descriptor that is kept afterwards.
  abbrev pub Advised : State → Outcome ℕ × State → Type 0
  Advised s r = (fields : j.Map) × (r.0 ≡ done (bits_for fields)) × ReadOnce fields s r.1

  advised_bits-kept :
      (s : State) (fields : j.Map)
      → s.descriptor ≡ some fields
      → advised_bits board s ≡ (done (advised fields), s)
  unfolding advised_bits descriptor descriptor_from
  advised_bits-kept s fields kept = ground (arith, kept)

  after_read : State → State
  after_read s = (read_descriptor board s).1

  read_lem :
      (s : State)
      → (fields : j.Map) × ((read_descriptor board s).0 ≡ done fields)
        × ((after_read s).descriptor ≡ some fields)
        × (fields ≡ described (answer_of [] (world.reply s.log descriptor_request)).0)
        × ((after_read s).log ≡ (descriptor_request, world.reply s.log descriptor_request) ∷ s.log)
  unfolding after_read read_descriptor call call_reading descriptor_request
  read_lem s = (_, refl, refl, refl, refl)

  advised_bits-read :
      (s : State) (fields : j.Map)
      → s.descriptor ≡ none
      → (read_descriptor board s).0 ≡ done fields
      → advised_bits board s ≡ (done (advised fields), after_read s)
  unfolding advised_bits descriptor descriptor_from after_read
  advised_bits-read s fields absent ends = ground (arith, absent, ends)

  pub advised_bits-Advised : (s : State) → Advised s (advised_bits board s)
  advised_bits-Advised s = elim (Option-cases s.descriptor) [
    | inr (fields, kept) ↦
        subst (Advised s) (sym (advised_bits-kept s fields kept))
          (fields, ap done (advised-bits_for fields), (kept, inl (kept, refl)))
    | inl absent ↦
        let (fields, ends, kept, answered, log) = read_lem s in
        subst (Advised s) (sym (advised_bits-read s fields absent ends))
          (fields, ap done (advised-bits_for fields), (kept, inr (absent, answered, log)))
  ]

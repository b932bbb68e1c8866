-- ===== src/Gate/Work/Binding.antt =====
-- The text that work is computed over says what the work is for.
use aamio_rust.Base.{◌≡◌, sym, ap, ◌∙◌, ◌≢◌, ◌∷◌, ◌++◌, get_or, append-nil, arith, Bytes, codes}
use aamio_rust.Base.Ascii.{Lacks, field_inj}
use aamio_rust.Gate.Work.{pow_input, board_pow_input}

pow_input_fields :
    (w key body_sha256 nonce : Bytes)
    → pow_input w key body_sha256 nonce
      ≡ codes "aamio-pow-v1\n" ++ (w ++ 10 ∷ (key ++ 10 ∷ (body_sha256 ++ 10 ∷ nonce)))
unfolding pow_input codes
pow_input_fields w key body_sha256 nonce = simp append-nil

board_pow_input_fields :
    (key body_sha256 nonce : Bytes)
    → board_pow_input key body_sha256 nonce
      ≡ codes "aamio-board-pow-v1\n" ++ (key ++ 10 ∷ (body_sha256 ++ 10 ∷ nonce))
unfolding board_pow_input codes
board_pow_input_fields key body_sha256 nonce = simp append-nil

-- Where addresses, keys and body hashes hold no line break, two equal texts of thread work
-- have the same address, key, body hash and nonce.
pub pow_input_inj :
    (w w' key key' body_sha256 body_sha256' nonce nonce' : Bytes)
    → Lacks 10 w × Lacks 10 w'
    → Lacks 10 key × Lacks 10 key'
    → Lacks 10 body_sha256 × Lacks 10 body_sha256'
    → pow_input w key body_sha256 nonce ≡ pow_input w' key' body_sha256' nonce'
    → (w ≡ w') × (key ≡ key') × (body_sha256 ≡ body_sha256') × (nonce ≡ nonce')
unfolding codes
pow_input_inj w w' key key' hash hash' nonce nonce' hw hk hb e =
    let text =
      sym (pow_input_fields w key hash nonce) ∙ e ∙ pow_input_fields w' key' hash' nonce' in
    let (w_eq, behind_w) = field_inj 10 w w' _ _ hw.0 hw.1 (cc) in
    let (key_eq, behind_key) = field_inj 10 key key' _ _ hk.0 hk.1 behind_w in
    let (hash_eq, nonce_eq) = field_inj 10 hash hash' _ _ hb.0 hb.1 behind_key in
    (w_eq, key_eq, hash_eq, nonce_eq)

-- The text of thread work never equals the text of board work, whatever their parts.
pub pow_input-ne-board_pow_input :
    (w key body_sha256 nonce key' body_sha256' nonce' : Bytes)
    → pow_input w key body_sha256 nonce ≢ board_pow_input key' body_sha256' nonce'
unfolding pow_input board_pow_input codes
pow_input-ne-board_pow_input w key hash nonce key' hash' nonce' e =
    let seventh = ap (λ (s : Bytes). get_or s 6 0) e in absurd (omega (arith, seventh))

-- ===== src/Base/Utf8.antt =====
-- `String::from_utf8_lossy` of the Rust library: each longest piece that begins a character and is
-- none is replaced by U+FFFD.
pub mod Valid
use aamio_rust.Base.{ℕ, zero, suc, [], ◌∷◌, ◌++◌, ltb, leb, ◌==◌, ◌&&◌, if◌then◌else◌, Bytes}

-- What has been read of a character: how many bytes it still lacks, the range of the next one, and
-- the bytes held.
pub record Partial : Type 0 where
  pub lacking : ℕ
  pub low : ℕ
  pub high : ℕ
  pub held : Bytes

abbrev pub replacement : Bytes
replacement = 239 ∷ 191 ∷ 189 ∷ []

abbrev pub nothing_held : Partial
nothing_held = record { lacking = 0; low = 0; high = 0; held = [] }

-- What the first byte of a character writes, and what it waits for.
unfoldable pub start : ℕ → Bytes × Partial
start b =
    if ltb b 128
    then (b ∷ [], nothing_held)
    else if ltb b 194
    then (replacement, nothing_held)
    else if ltb b 224
    then ([], record { lacking = 1; low = 128; high = 191; held = b ∷ [] })
    else if b == 224
    then ([], record { lacking = 2; low = 160; high = 191; held = b ∷ [] })
    else if b == 237
    then ([], record { lacking = 2; low = 128; high = 159; held = b ∷ [] })
    else if ltb b 240
    then ([], record { lacking = 2; low = 128; high = 191; held = b ∷ [] })
    else if b == 240
    then ([], record { lacking = 3; low = 144; high = 191; held = b ∷ [] })
    else if ltb b 244
    then ([], record { lacking = 3; low = 128; high = 191; held = b ∷ [] })
    else if b == 244
    then ([], record { lacking = 3; low = 128; high = 143; held = b ∷ [] })
    else (replacement, nothing_held)

-- The next byte of a character that lacks `suc n` bytes, else the start of another.
unfoldable pub next : ℕ → Partial → ℕ → Bytes × Partial
unfolding start
next n p b =
    if leb p.low b && leb b p.high
    then (if n == 0
        then (p.held ++ b ∷ [], nothing_held)
        else ([], record { lacking = n; low = 128; high = 191; held = p.held ++ b ∷ [] }))
    else (replacement ++ (start b).0, (start b).1)

unfoldable pub step : Partial → ℕ → Bytes × Partial
unfolding next start
step p b = elim p.lacking [ zero ↦ start b | suc n ↦ next n p b ]

unfoldable pub lossy_from : Partial → Bytes → Bytes
unfolding step
lossy_from p [] = if p.lacking == 0 then [] else replacement
lossy_from p (b ∷ s) = (step p b).0 ++ lossy_from (step p b).1 s

unfoldable pub from_utf8_lossy : Bytes → Bytes
unfolding lossy_from
from_utf8_lossy s = lossy_from nothing_held s

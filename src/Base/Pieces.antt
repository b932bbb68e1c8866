-- ===== src/Base/Pieces.antt =====
-- `split` and `trim` of the Rust library on UTF-8 text.
use aamio_rust.Base.{ℕ, Bool, List, [], ◌∷◌, leb, ◌==◌, ◌&&◌, ◌||◌, if◌then◌else◌, Bytes}
use mathlib.Core.List.{reverse}

-- A byte in front of the first piece.
unfoldable pub onto_first : ℕ → List Bytes → List Bytes
onto_first b [] = (b ∷ []) ∷ []
onto_first b (p ∷ ps) = (b ∷ p) ∷ ps

-- `split` at one ASCII character.
unfoldable pub split : ℕ → Bytes → List Bytes
unfolding onto_first
split c [] = [] ∷ []
split c (b ∷ s) = let rest = split c s in if b == c then [] ∷ rest else onto_first b rest

-- The white space of Unicode: one byte, two bytes and three.
unfoldable pub is_space_1 : ℕ → Bool
is_space_1 a = (leb 9 a && leb a 13) || a == 32

unfoldable pub is_space_2 : ℕ → ℕ → Bool
is_space_2 a b = (a == 194) && (b == 133 || b == 160)

unfoldable pub is_space_3 : ℕ → ℕ → ℕ → Bool
is_space_3 a b c =
    ((a == 225) && (b == 154) && (c == 128))
    || ((a == 226) && (b == 128) && ((leb 128 c && leb c 138) || c == 168 || c == 169 || c == 175))
    || ((a == 226) && (b == 129) && (c == 159))
    || ((a == 227) && (b == 128) && (c == 128))

-- `trim_start`.
unfoldable pub trim_start : Bytes → Bytes
unfolding is_space_1 is_space_2 is_space_3
trim_start [] = []
trim_start (a ∷ []) = if is_space_1 a then [] else a ∷ []
trim_start (a ∷ b ∷ []) =
    let rest = trim_start (b ∷ []) in
    if is_space_1 a then rest else if is_space_2 a b then [] else a ∷ b ∷ []
trim_start (a ∷ b ∷ c ∷ s) =
    let rest_1 = trim_start (b ∷ c ∷ s) in
    let rest_2 = trim_start (c ∷ s) in
    let rest_3 = trim_start s in
    if is_space_1 a
    then rest_1
    else if is_space_2 a b
    then rest_2
    else if is_space_3 a b c
    then rest_3
    else a ∷ b ∷ c ∷ s

-- `trim_end` on the text read from its end.
unfoldable pub trim_back : Bytes → Bytes
unfolding is_space_1 is_space_2 is_space_3
trim_back [] = []
trim_back (a ∷ []) = if is_space_1 a then [] else a ∷ []
trim_back (a ∷ b ∷ []) =
    let rest = trim_back (b ∷ []) in
    if is_space_1 a then rest else if is_space_2 b a then [] else a ∷ b ∷ []
trim_back (a ∷ b ∷ c ∷ s) =
    let rest_1 = trim_back (b ∷ c ∷ s) in
    let rest_2 = trim_back (c ∷ s) in
    let rest_3 = trim_back s in
    if is_space_1 a
    then rest_1
    else if is_space_2 b a
    then rest_2
    else if is_space_3 c b a
    then rest_3
    else a ∷ b ∷ c ∷ s

unfoldable pub trim : Bytes → Bytes
unfolding trim_start trim_back
trim s = reverse (trim_back (reverse (trim_start s)))

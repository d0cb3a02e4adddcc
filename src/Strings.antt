-- ===== src/Strings.antt =====
-- What the command line (crates/node/src/main.rs) uses of Rust's standard library on text:
-- `str::split` at a character of one byte, and `str::trim`.
use self_healing_distributed.Prelude.{
  ℕ, Bool, ◌&&◌, ◌||◌, ◌≡◌, refl, List, [], ◌∷◌, ◌==◌, leb, if◌then◌else◌,
}
use self_healing_distributed.Types.{Bytes, codes}

-- A text in front of the first of the parts.
abbrev push_front : ℕ → List Bytes → List Bytes
push_front b [] = (b ∷ []) ∷ []
push_front b (part ∷ parts) = (b ∷ part) ∷ parts

-- There is always a part, which may be empty.
unfoldable pub split : ℕ → Bytes → List Bytes
split sep [] = [] ∷ []
split sep (b ∷ bs) = let parts = split sep bs in if b == sep then [] ∷ parts else push_front b parts

-- The characters of the property White_Space, of one byte, two and three.
abbrev white1 : ℕ → Bool
white1 a = (leb 9 a && leb a 13) || (a == 32)

abbrev white2 : ℕ → ℕ → Bool
white2 a b = (a == 194) && ((b == 133) || (b == 160))

abbrev white3 : ℕ → ℕ → ℕ → Bool
white3 a b c =
    ((a == 225) && (b == 154) && (c == 128))
    || ((a == 226)
        && (b == 128)
        && ((leb 128 c && leb c 138) || (c == 168) || (c == 169) || (c == 175)))
    || ((a == 226) && (b == 129) && (c == 159))
    || ((a == 227) && (b == 128) && (c == 128))

-- `trim_start`.
unfoldable pub trim_start : Bytes → Bytes
trim_start [] = []
trim_start (a ∷ []) = if white1 a then [] else a ∷ []
trim_start (a ∷ b ∷ []) =
    let one = trim_start (b ∷ []) in if white1 a then one else if white2 a b then [] else a ∷ b ∷ []
trim_start (a ∷ b ∷ c ∷ bs) =
    let one = trim_start (b ∷ c ∷ bs) in
    let two = trim_start (c ∷ bs) in
    let three = trim_start bs in
    if white1 a
    then one
    else if white2 a b
    then two
    else if white3 a b c
    then three
    else a ∷ b ∷ c ∷ bs

-- `trim_end`, on the bytes from the last to the first.
unfoldable pub trim_back : Bytes → Bytes
trim_back [] = []
trim_back (a ∷ []) = if white1 a then [] else a ∷ []
trim_back (a ∷ b ∷ []) =
    let one = trim_back (b ∷ []) in if white1 a then one else if white2 b a then [] else a ∷ b ∷ []
trim_back (a ∷ b ∷ c ∷ bs) =
    let one = trim_back (b ∷ c ∷ bs) in
    let two = trim_back (c ∷ bs) in
    let three = trim_back bs in
    if white1 a
    then one
    else if white2 b a
    then two
    else if white3 c b a
    then three
    else a ∷ b ∷ c ∷ bs

abbrev reverse_onto : Bytes → Bytes → Bytes
reverse_onto [] out = out
reverse_onto (b ∷ bs) out = reverse_onto bs (b ∷ out)

unfoldable pub trim : Bytes → Bytes
unfolding trim_start trim_back
trim s = reverse_onto (trim_back (reverse_onto (trim_start s) [])) []

trim-spaces : trim (codes " 127.0.0.1:5001 ") ≡ codes "127.0.0.1:5001"
unfolding trim
trim-spaces = refl

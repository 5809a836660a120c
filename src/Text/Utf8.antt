-- ===== src/Text/Utf8.antt =====
-- `String::from_utf8`: `none` is its error.
use mathlib.Core.Option
use telco_vecchio.Prelude.{
  ℕ, zero, suc, ◌+◌, ◌-◌, ◌*◌, ◌≡◌, refl, Bool, not, ◌&&◌, Option, none, some, [], ◌∷◌, ltb, leb,
  if◌then◌else◌,
}
use telco_vecchio.Text.{Text, Bytes, text}

-- a code point that UTF-8 may spell with the bytes it took: long enough, no surrogate, in range
is_scalar : ℕ → ℕ → Bool
is_scalar low c = leb low c && leb c 0x10FFFF && not (leb 0xD800 c && leb c 0xDFFF)

-- `need` bytes are missing to the code point begun in `c`, which must be `low` or more.
decode : (need low c : ℕ) → Bytes → Option Text
decode zero low c [] = some []
decode (suc need) low c [] = none
decode zero low c (b ∷ bs) =
    let one = Option.map (◌∷◌ b) (decode 0 0 0 bs) in
    let two = decode 1 0x80 (b - 0xC0) bs in
    let three = decode 2 0x800 (b - 0xE0) bs in
    let four = decode 3 0x10000 (b - 0xF0) bs in
    if ltb b 0x80
    then one
    else if ltb b 0xC0
    then none
    else if ltb b 0xE0
    then two
    else if ltb b 0xF0
    then three
    else if ltb b 0xF8
    then four
    else none
decode (suc zero) low c (b ∷ bs) =
    let d = c * 64 + (b - 0x80) in
    let rest = Option.map (◌∷◌ d) (decode 0 0 0 bs) in
    if (leb 0x80 b && ltb b 0xC0) && is_scalar low d then rest else none
decode (suc (suc need)) low c (b ∷ bs) =
    let rest = decode (suc need) low (c * 64 + (b - 0x80)) bs in
    if leb 0x80 b && ltb b 0xC0 then rest else none

unfoldable pub from_utf8 : Bytes → Option Text
unfolding decode is_scalar
from_utf8 = decode 0 0 0

-- Two and three bytes; an overlong or cut sequence is refused.
accents : from_utf8 (0xC3 ∷ 0xA9 ∷ 0xE2 ∷ 0x82 ∷ 0xAC ∷ []) ≡ some (text "é€")
unfolding from_utf8
accents = refl

overlong : from_utf8 (0xC0 ∷ 0x80 ∷ []) ≡ none
unfolding from_utf8
overlong = refl

cut : from_utf8 (b'a' ∷ 0xE2 ∷ 0x82 ∷ []) ≡ none
unfolding from_utf8
cut = refl

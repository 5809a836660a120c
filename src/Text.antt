-- ===== src/Text.antt =====
-- `str` and `String`: texts as lists of Unicode code points, and the methods of the standard
-- library that the daemon calls. Lengths and positions count the bytes of UTF-8, as in Rust.
pub mod Decimal
pub mod Utf8
pub mod Words
use Prim.Native.Char.{code}
use Prim.Native.String.{String}
use mathlib.Core.Option
use telco_vecchio.Prelude.{
  ℕ, zero, suc, ◌+◌, ◌-◌, ◌*◌, ◌/◌, ◌%◌, ◌^◌, ◌≤◌, ◌<◌, ◌≡◌, refl, Bool, true, false, not, ◌&&◌,
  ◌||◌, Option, none, some, List, [], ◌∷◌, ◌++◌, arith, ltb, leb, if◌then◌else◌, ◌==◌, Eq, eqb,
  nat_eq, list_eq, length,
}

abbrev pub Text : Type 0
Text = List ℕ

abbrev pub Bytes : Type 0
Bytes = List ℕ

-- a literal of the source
abbrev pub text : String → Text
text String.[] = []
text (String.◌∷◌ c s) = code c ∷ text s

-- The bytes that UTF-8 takes for a code point.
unfoldable pub width : ℕ → ℕ
width c = if ltb c 0x80 then 1 else if ltb c 0x800 then 2 else if ltb c 0x10000 then 3 else 4

-- `str::len`
unfoldable pub len : Text → ℕ
unfolding width
len [] = 0
len (c ∷ s) = width c + len s

-- `&s[n..]`, where `none` is the panic off a character boundary or past the end.
unfoldable pub slice_from : ℕ → Text → Option Text
unfolding width
slice_from n [] = if n == 0 then some [] else none
slice_from n (c ∷ s) =
    if n == 0 then some (c ∷ s) else if leb (width c) n then slice_from (n - width c) s else none

-- `&s[..n]`
unfoldable pub slice_to : ℕ → Text → Option Text
unfolding width
slice_to n [] = if n == 0 then some [] else none
slice_to n (c ∷ s) =
    if n == 0
    then some []
    else if leb (width c) n
    then Option.map (◌∷◌ c) (slice_to (n - width c) s)
    else none

-- `&s[a..b]`, for `a` up to `b`
unfoldable pub slice : ℕ → ℕ → Text → Option Text
unfolding slice_from slice_to Option.bind
slice a b s = Option.bind (slice_from a s) (slice_to (b - a))

-- `String::truncate`: no effect from the length on, and a panic off a boundary below it.
unfoldable pub truncate : ℕ → Text → Option Text
unfolding len slice_to
truncate n s = if leb (len s) n then some s else slice_to n s

unfoldable pub starts_with : Text → Text → Bool
starts_with [] s = true
starts_with (c ∷ p) [] = false
starts_with (c ∷ p) (d ∷ s) = c == d && starts_with p s

-- `s.contains(p)`, the pattern first
unfoldable pub contains : Text → Text → Bool
unfolding starts_with
contains p [] = starts_with p []
contains p (d ∷ s) = starts_with p (d ∷ s) || contains p s

-- `s.replace(c, "")` for a pattern of one character
unfoldable pub remove_char : ℕ → Text → Text
remove_char c [] = []
remove_char c (d ∷ s) = if d == c then remove_char c s else d ∷ remove_char c s

-- `to_lowercase` and `to_uppercase`, on the ASCII letters
unfoldable pub lower : ℕ → ℕ
lower c = if leb b'A' c && leb c b'Z' then c + 32 else c

unfoldable pub upper : ℕ → ℕ
upper c = if leb b'a' c && leb c b'z' then c - 32 else c

-- `{:02X?}` of a `u8`
unfoldable pub hex_digit : ℕ → ℕ
hex_digit d = if ltb d 10 then b'0' + d else b'A' + (d - 10)

unfoldable pub hex_byte : ℕ → Text
unfolding hex_digit
hex_byte n = hex_digit (n / 16) ∷ hex_digit (n % 16) ∷ []

-- the least hexadecimal digits of an ASCII code
lower_hex : ℕ → Text
unfolding hex_digit lower
lower_hex c =
    if ltb c 16
    then lower (hex_digit c) ∷ []
    else lower (hex_digit (c / 16)) ∷ lower (hex_digit (c % 16)) ∷ []

-- `{:?}` of a text: quoted, with the escapes of the ASCII characters.
unfoldable pub escape_char : ℕ → Text
unfolding lower_hex
escape_char c =
    if c == b'"'
    then b'\\' ∷ b'"' ∷ []
    else if c == b'\\'
    then b'\\' ∷ b'\\' ∷ []
    else if c == 10
    then b'\\' ∷ b'n' ∷ []
    else if c == 13
    then b'\\' ∷ b'r' ∷ []
    else if c == 9
    then b'\\' ∷ b't' ∷ []
    else if c == 0
    then b'\\' ∷ b'0' ∷ []
    else if ltb c 32 || c == 127
    then b'\\' ∷ b'u' ∷ b'{' ∷ (lower_hex c ++ b'}' ∷ [])
    else c ∷ []

escape_all : Text → Text
unfolding escape_char
escape_all [] = []
escape_all (c ∷ s) = escape_char c ++ escape_all s

unfoldable pub quoted : Text → Text
unfolding escape_all
quoted s = b'"' ∷ (escape_all s ++ b'"' ∷ [])

-- `join` of the items by a separator
unfoldable pub join : Text → List Text → Text
join sep [] = []
join sep (s ∷ []) = s
join sep (s ∷ t ∷ r) = s ++ (sep ++ join sep (t ∷ r))

pub len-append : (s t : Text) → len (s ++ t) ≡ len s + len t
unfolding len
len-append [] t = omega arith
len-append (c ∷ s) t = omega (arith, len-append s t)

pub length-le-len : (s : Text) → length s ≤ len s
unfolding len
length-le-len [] = omega arith
length-le-len (c ∷ s) = ground (arith, length-le-len s)

-- A text of ASCII characters is as long as its bytes.
abbrev pub IsAscii : Text → Type 0
IsAscii [] = Unit
IsAscii (c ∷ s) = (c < 0x80) × IsAscii s

pub len-ascii : (s : Text) → IsAscii s → len s ≡ length s
unfolding len
len-ascii [] h = refl
len-ascii (c ∷ s) h = ground (arith, len-ascii s h.1)

pub IsAscii-append : (s t : Text) → IsAscii s → IsAscii t → IsAscii (s ++ t)
IsAscii-append [] t hs ht = ht
IsAscii-append (c ∷ s) t hs ht = (hs.0, IsAscii-append s t hs.1 ht)

add-sub_left : (a b : ℕ) → a + b - a ≡ b
add-sub_left a b = omega arith

pub width_pos : (c : ℕ) → 0 < width c
unfolding width
width_pos c = ground arith

-- What stands behind a text is cut off again at the text's length.
pub slice_to-append : (s t : Text) → slice_to (len s) (s ++ t) ≡ some s
unfolding slice_to len
slice_to-append [] [] = refl
slice_to-append [] (c ∷ t) = refl
slice_to-append (c ∷ s) t =
    ground (arith, width_pos c, add-sub_left (width c) (len s), slice_to-append s t)

pub slice_from-append : (s t : Text) → slice_from (len s) (s ++ t) ≡ some t
unfolding slice_from len
slice_from-append [] [] = refl
slice_from-append [] (c ∷ t) = refl
slice_from-append (c ∷ s) t =
    ground (arith, width_pos c, add-sub_left (width c) (len s), slice_from-append s t)

-- ===== src/Text/Decimal.antt =====
-- `Display` of the unsigned integers and of `i32`, and `str::parse::<u32>`.
pub mod RoundTrip
use mathlib.Core.List.{foldl}
use telco_vecchio.Prelude.{
  ℕ, zero, suc, ◌+◌, ◌-◌, ◌*◌, ◌/◌, ◌%◌, ◌^◌, ◌≤◌, ◌<◌, ◌≡◌, ◌≢◌, refl, Bool, true, false, ◌&&◌,
  ◌||◌, Option, none, some, List, [], ◌∷◌, ◌++◌, arith, ltb, leb, if◌then◌else◌, ◌==◌, nat_eq,
}
use telco_vecchio.Text.{Text, text}

abbrev pub u32_mod : ℕ
u32_mod = 2 ^ 32

-- The digits of a number before `out`; the fuel bounds their number.
unfoldable pub digits : ℕ → ℕ → Text → Text
digits zero n out = out
digits (suc f) n out =
    let rest = digits f (n / 10) ((b'0' + n % 10) ∷ out) in
    if n / 10 == 0 then (b'0' + n % 10) ∷ out else rest

-- A number is below two to the power of itself plus one, so it has at most that many digits.
unfoldable pub show : ℕ → Text
unfolding digits
show n = digits (suc n) n []

pub data ℤ : Type 0 where
  pos : ℕ → ℤ
  negsuc : ℕ → ℤ

unfoldable pub show_ℤ : ℤ → Text
unfolding show
show_ℤ (pos n) = show n
show_ℤ (negsuc n) = b'-' ∷ show (suc n)

-- one digit after another, with the overflow checks of `checked_mul` and `checked_add`
unfoldable pub parse_digits : ℕ → Text → Option ℕ
parse_digits acc [] = some acc
parse_digits acc (c ∷ s) =
    if (leb b'0' c && leb c b'9') && ltb (acc * 10 + (c - b'0')) u32_mod
    then parse_digits (acc * 10 + (c - b'0')) s
    else none

-- one or more digits
unfoldable pub parse_number : Text → Option ℕ
unfolding parse_digits
parse_number [] = none
parse_number (c ∷ s) = parse_digits 0 (c ∷ s)

-- A sign `+` may stand before the digits; a `-` is refused like any other character.
unfoldable pub parse_u32 : Text → Option ℕ
unfolding parse_number
parse_u32 [] = none
parse_u32 (c ∷ s) = if c == b'+' then parse_number s else parse_number (c ∷ s)

show_u32_max : show 4294967295 ≡ text "4294967295"
unfolding show
show_u32_max = refl

overflow : parse_u32 (text "4294967296") ≡ none
unfolding parse_u32
overflow = refl

signs : (parse_u32 (text "+12") ≡ some 12) × (parse_u32 (text "-0") ≡ none)
unfolding parse_u32
signs = (refl, refl)

abbrev pub IsDigit : ℕ → Type 0
IsDigit c = (b'0' ≤ c) × (c ≤ b'9')

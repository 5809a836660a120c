-- ===== src/Text/Decimal/RoundTrip.antt =====
-- A printed number is parsed back.
use telco_vecchio.Prelude.{
  ℕ, zero, suc, ◌+◌, ◌/◌, ◌%◌, ◌<◌, ◌≡◌, ◌≢◌, refl, some, [], ◌∷◌, arith, nat_eq, All,
}
use telco_vecchio.Text.{Text}
use telco_vecchio.Text.Decimal.{
  u32_mod, digits, show, parse_digits, parse_number, parse_u32, IsDigit,
}

parse_last :
    (n : ℕ) (out : Text)
    → n < u32_mod
    → parse_digits (n / 10) ((b'0' + n % 10) ∷ out) ≡ parse_digits n out
unfolding parse_digits
parse_last n out fits = ground arith

parse_digits-digits :
    (f n : ℕ) (out : Text)
    → n < f
    → n < u32_mod
    → parse_digits 0 (digits f n out) ≡ parse_digits n out
unfolding digits
parse_digits-digits zero n out h fits = elim h [ ]
parse_digits-digits (suc f) n out h fits =
    ground (arith, parse_digits-digits f (n / 10) ((b'0' + n % 10) ∷ out), parse_last n out fits)

digits-All : (f n : ℕ) (out : Text) → All IsDigit out → All IsDigit (digits f n out)
unfolding digits
digits-All zero n out h = h
digits-All (suc f) n out h = ground (arith, digits-All f (n / 10) ((b'0' + n % 10) ∷ out))

digits-ne-nil : (f n : ℕ) (out : Text) → out ≢ [] → digits f n out ≢ []
unfolding digits
digits-ne-nil zero n out h = h
digits-ne-nil (suc f) n out h = ground (arith, digits-ne-nil f (n / 10) ((b'0' + n % 10) ∷ out))

pub show-All : (n : ℕ) → All IsDigit (show n)
unfolding show
show-All n = digits-All (suc n) n [] tt

pub show-ne-nil : (n : ℕ) → show n ≢ []
unfolding show digits
show-ne-nil n = ground (arith, digits-ne-nil n (n / 10) ((b'0' + n % 10) ∷ []))

parse_u32-digits : (s : Text) → s ≢ [] → All IsDigit s → parse_u32 s ≡ parse_digits 0 s
unfolding parse_u32 parse_number
parse_u32-digits [] ne h = absurd (ne refl)
parse_u32-digits (c ∷ s) ne h = ground arith

-- The decimal print of a `u32` is parsed back to it.
pub parse_u32-show : (n : ℕ) → n < u32_mod → parse_u32 (show n) ≡ some n
unfolding show parse_digits
parse_u32-show n h =
    rw (parse_u32-digits (show n) (show-ne-nil n) (show-All n))
      (parse_digits-digits (suc n) n [] (omega arith) h)

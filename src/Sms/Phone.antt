-- ===== src/Sms/Phone.antt =====
-- Phone numbers in a PDU: semi-octets, whose digits stand swapped two by two.
pub mod RoundTrip
use mathlib.Core.Option
use telco_vecchio.Prelude.{ℕ, ◌-◌, ◌≡◌, refl, Option, none, some, [], ◌∷◌, ◌++◌, replicate, length}
use telco_vecchio.Text.{Text, text, remove_char}

-- The loop over `chunks(2)`; `none` is the panic of `chunk[1]` on a last chunk of one character.
unfoldable pub swap_pairs : Text → Option Text
swap_pairs [] = some []
swap_pairs (c ∷ []) = none
swap_pairs (c ∷ d ∷ s) = Option.map (λ r. d ∷ c ∷ r) (swap_pairs s)

-- `{:F<12}`
unfoldable pub pad : Text → Text
pad s = s ++ replicate (12 - length s) b'F'

unfoldable pub encode_phone_number : Text → Option Text
unfolding swap_pairs pad remove_char
encode_phone_number number = swap_pairs (pad (remove_char b'+' number))

unfoldable pub decode_phone_number : Text → Option Text
unfolding swap_pairs remove_char
decode_phone_number encoded =
    Option.map (λ padded. b'+' ∷ remove_char b'F' padded) (swap_pairs encoded)

eleven_digits : encode_phone_number (text "+33612345678") ≡ some (text "3316325476F8")
unfolding encode_phone_number
eleven_digits = refl

thirteen_digits : encode_phone_number (text "+4915112345678") ≡ none
unfolding encode_phone_number
thirteen_digits = refl

-- ===== src/Sms/Phone/RoundTrip.antt =====
-- A phone number is read back from its semi-octets, and when the encoder panics.
use mathlib.Core.Option
use telco_vecchio.Prelude.{
  ℕ, zero, suc, ◌+◌, ◌-◌, ◌%◌, ◌<◌, ◌≡◌, ◌≢◌, refl, inl, inr, Option, none, some, Option-cases, ◌↔◌,
  [], ◌∷◌, ◌++◌, replicate, length, arith, All, length-append, length-replicate,
}
use telco_vecchio.Text.{Text, remove_char}
use telco_vecchio.Sms.Phone.{swap_pairs, pad, encode_phone_number, decode_phone_number}

-- Swapping twice gives the text back, whenever the first swap does not panic.
swap_pairs-swap_pairs : (s : Text) {t : Text} → swap_pairs s ≡ some t → swap_pairs t ≡ some s
unfolding swap_pairs
swap_pairs-swap_pairs [] h = ground arith
swap_pairs-swap_pairs (c ∷ []) h = cc
swap_pairs-swap_pairs (c ∷ d ∷ s) {t} h = elim (Option-cases (swap_pairs s)) [
  | inl e ↦ ground arith
  | inr (r, e) ↦ ground (arith, swap_pairs-swap_pairs s e)
]

map-ne-none {ℓ κ} :
    {A : Type ℓ} {B : Type κ} (f : A → B) (o : Option A) → o ≢ none → Option.map f o ≢ none
map-ne-none f none h = absurd (h refl)
map-ne-none f (some a) h = λ e. cc

-- The swap panics exactly on an odd number of characters.
swap_pairs-even : (s : Text) → length s % 2 ≡ 0 → swap_pairs s ≢ none
unfolding swap_pairs
swap_pairs-even [] h = cc
swap_pairs-even (c ∷ []) h = absurd (omega arith)
swap_pairs-even (c ∷ d ∷ s) h = map-ne-none _ (swap_pairs s) (swap_pairs-even s (omega arith))

swap_pairs-odd : (s : Text) → length s % 2 ≡ 1 → swap_pairs s ≡ none
unfolding swap_pairs
swap_pairs-odd [] h = absurd (omega arith)
swap_pairs-odd (c ∷ []) h = refl
swap_pairs-odd (c ∷ d ∷ s) h = rw (swap_pairs-odd s (omega arith))

length-pad : (s : Text) → length (pad s) ≡ length s + (12 - length s)
unfolding pad
length-pad s = omega (
  arith,
  length-append {0} s (replicate (12 - length s) b'F'),
  length-replicate {0} {A = ℕ} (12 - length s) b'F',
)

-- The encoder panics exactly on a number that has, without its signs, more than twelve characters
-- and an odd number of them.
pub encode_phone_number-panics :
    (number : Text)
    → let n = length (remove_char b'+' number) in
      (encode_phone_number number ≡ none) ↔ ((12 < n) × (n % 2 ≡ 1))
unfolding encode_phone_number
encode_phone_number-panics number =
    let s = remove_char b'+' number in
    (
      λ e. ground (arith, swap_pairs-even (pad s), length-pad s),
      λ h. swap_pairs-odd (pad s) (omega (arith, length-pad s)),
    )

-- Digits, and what else is neither the sign nor the filler.
abbrev pub IsPlain : Text → Type 0
IsPlain = All (λ c. (c ≢ b'+') × (c ≢ b'F'))

remove_char-plain : (s : Text) → IsPlain s → remove_char b'+' s ≡ s
unfolding remove_char
remove_char-plain [] h = refl
remove_char-plain (c ∷ s) h = ground (arith, remove_char-plain s h.1)

remove_char-filler : (n : ℕ) → remove_char b'F' (replicate n b'F') ≡ []
unfolding remove_char
remove_char-filler zero = refl
remove_char-filler (suc n) = remove_char-filler n

remove_char-padded : (s : Text) (n : ℕ) → IsPlain s → remove_char b'F' (s ++ replicate n b'F') ≡ s
unfolding remove_char
remove_char-padded [] n h = remove_char-filler n
remove_char-padded (c ∷ s) n h = ground (arith, remove_char-padded s n h.1)

remove_char-sign : (s : Text) → IsPlain s → remove_char b'+' (b'+' ∷ s) ≡ s
unfolding remove_char
remove_char-sign s h = remove_char-plain s h

-- A number of plain characters, with its sign, is read back from its semi-octets, unless the
-- encoder panics.
pub decode-encode_phone_number :
    (s : Text) {encoded : Text}
    → IsPlain s
    → encode_phone_number (b'+' ∷ s) ≡ some encoded
    → decode_phone_number encoded ≡ some (b'+' ∷ s)
unfolding encode_phone_number decode_phone_number pad
decode-encode_phone_number s {encoded} plain h =
    let swapped : swap_pairs (pad s) ≡ some encoded = rw (← remove_char-sign s plain) h in
    rw (swap_pairs-swap_pairs (pad s) swapped) (rw (remove_char-padded s (12 - length s) plain))

-- ===== src/Sms/Short.antt =====
-- A PDU that is too short.
use mathlib.Core.Option
use telco_vecchio.Prelude.{
  ℕ, ◌+◌, ◌-◌, ◌≤◌, ◌<◌, ◌≡◌, refl, none, some, Option-cases, inl, inr, [], ◌∷◌, arith,
}
use telco_vecchio.Text.{Text, len, width, width_pos, slice_from, slice_to, slice}
use telco_vecchio.Effects.{panic}
use telco_vecchio.Effects.World.{World, Crates}
use telco_vecchio.Sms.Receive.{parse_pdu}

slice_to-short : (n : ℕ) (s : Text) → len s < n → slice_to n s ≡ none
unfolding slice_to len
slice_to-short n [] h = ground arith
slice_to-short n (c ∷ s) h = ground (arith, slice_to-short (n - width c) s)

slice_from-len : (n : ℕ) (s : Text) {t : Text} → slice_from n s ≡ some t → len t + n ≡ len s
unfolding slice_from len
slice_from-len n [] h = ground arith
slice_from-len n (c ∷ s) {t} h = ground (arith, width_pos c, slice_from-len (n - width c) s {t = t})

slice-short : (i j : ℕ) (s : Text) → i ≤ j → len s < j → slice i j s ≡ none
unfolding slice Option.bind
slice-short i j s le h = elim (Option-cases (slice_from i s)) [
  | inl e ↦ rw e refl
  | inr (t, e) ↦ rw e (slice_to-short (j - i) t (omega (arith, slice_from-len i s e)))
]

-- A PDU of less than 54 bytes panics, whatever it holds.
pub parse_pdu-short :
    (crates : Crates) (pdu : Text) (w : World) → len pdu < 54 → (parse_pdu crates pdu w).0 ≡ panic
unfolding parse_pdu
parse_pdu-short crates pdu w h = elim (Option-cases (slice 22 34 pdu)) [
  | inl e ↦ rw e refl
  | inr (number, e) ↦ rw e (rw (slice-short 52 54 pdu (omega arith) h) refl)
]

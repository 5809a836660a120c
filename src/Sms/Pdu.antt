-- ===== src/Sms/Pdu.antt =====
-- The PDUs: the length that announces one, and the fields that are read from one.
use mathlib.Core.Option
use mathlib.Core.Path.{subst}
use telco_vecchio.Prelude.{
  ℕ, ◌+◌, ◌-◌, ◌*◌, ◌/◌, ◌%◌, ◌^◌, ◌<◌, ◌≡◌, refl, ap, ◌∙◌, some, [], ◌∷◌, ◌++◌, arith,
  append_assoc,
}
use telco_vecchio.Text.{
  Text, text, len, hex_byte, hex_digit, slice, slice_from, slice_to-append, slice_from-append,
  len-ascii,
}
use telco_vecchio.Effects.{Error, map_err, ok, Exec}
use telco_vecchio.Effects.World.{World, Crates}
use telco_vecchio.Sms.Phone.{encode_phone_number}
use telco_vecchio.Sms.Phone.RoundTrip.{IsPlain, decode-encode_phone_number}
use telco_vecchio.Sms.Message.{decode_message}
use telco_vecchio.Sms.Send.{submit_pdu, cmgs_length, sms_validity_period}
use telco_vecchio.Sms.Receive.{one_byte, parse_pdu}

hex_digit-ascii : (n : ℕ) → n < 16 → hex_digit n < 0x80
unfolding hex_digit
hex_digit-ascii n h = ground arith

len-append : (s t : Text) → len (s ++ t) ≡ len s + len t
unfolding len
len-append [] t = omega arith
len-append (c ∷ s) t = omega (arith, len-append s t)

len-hex_byte : (n : ℕ) → n < 2 ^ 8 → len (hex_byte n) ≡ 2
unfolding hex_byte
len-hex_byte n h =
    len-ascii (hex_byte n)
      (hex_digit-ascii (n / 16) (omega arith), (hex_digit-ascii (n % 16) (omega arith), tt))

len-submit_pdu :
    (number message : Text) (size : ℕ)
    → len (submit_pdu number size message) ≡ 19 + len number + len message
unfolding submit_pdu
len-submit_pdu number message size = omega (
  arith,
  len-append (text "0011000B91") (
      number
      ++ (text "0000"
          ++ (hex_byte sms_validity_period ++ (hex_byte (size % 2 ^ 8) ++ (message ++ 26 ∷ []))))),
  len-append number (
      text "0000"
      ++ (hex_byte sms_validity_period ++ (hex_byte (size % 2 ^ 8) ++ (message ++ 26 ∷ [])))),
  len-append (text "0000")
      (hex_byte sms_validity_period ++ (hex_byte (size % 2 ^ 8) ++ (message ++ 26 ∷ []))),
  len-append (hex_byte sms_validity_period) (hex_byte (size % 2 ^ 8) ++ (message ++ 26 ∷ [])),
  len-append (hex_byte (size % 2 ^ 8)) (message ++ 26 ∷ []),
  len-append message (26 ∷ []),
  len-hex_byte sms_validity_period (omega arith),
  len-hex_byte (size % 2 ^ 8) (omega arith),
  len-ascii (text "0011000B91") (omega arith),
  len-ascii (text "0000") (omega arith),
  len-ascii (26 ∷ []) (omega arith),
)

-- For a number of `2 n` bytes and an encoded message of `2 k`, the command that announces the PDU
-- names the octets behind the address of the service centre: eight of fixed fields, those of the
-- number and those of the message.
pub cmgs_length-submit_pdu :
    (number message : Text) (size n k : ℕ)
    → len number ≡ 2 * n
    → len message ≡ 2 * k
    → cmgs_length (submit_pdu number size message) ≡ 8 + n + k
unfolding cmgs_length
cmgs_length-submit_pdu number message size n k hn hk =
    omega (arith, len-submit_pdu number message size)

slice-middle :
    (s x t : Text) (i j : ℕ) → len s ≡ i → i + len x ≡ j → slice i j (s ++ (x ++ t)) ≡ some x
unfolding slice Option.bind
slice-middle s x t i j hi hj =
    let rest : j - i ≡ len x = omega arith in
    rw (← hi) (rw (slice_from-append s (x ++ t)) (rw hi (rw rest (slice_to-append x t))))

one_byte-ok : (k : ℕ) (w : World) → one_byte (some (k ∷ [])) w ≡ (ok k, w)
unfolding one_byte
one_byte-ok k w = refl

map_err-ok :
    {A : Type 0} (e : Error) (m : Exec World A) (w : World) {a : A}
    → m w ≡ (ok a, w)
    → map_err e m w ≡ (ok a, w)
map_err-ok e m w h = rw h refl

-- A PDU with a number of plain characters in its place, as the encoder writes it in twelve bytes,
-- a size and a message that the decoder reads, is parsed to this number, with its sign, and this
-- message; nothing is done.
pub parse_pdu-deliver :
    (crates : Crates) (head middle size body s : Text) (k : ℕ) (w : World) {encoded message : Text}
    → len head ≡ 22
    → len encoded ≡ 12
    → len middle ≡ 18
    → len size ≡ 2
    → IsPlain s
    → encode_phone_number (b'+' ∷ s) ≡ some encoded
    → crates.hex_decode size ≡ some (k ∷ [])
    → decode_message crates body k w ≡ (ok message, w)
    → parse_pdu crates (head ++ (encoded ++ (middle ++ (size ++ body)))) w
      ≡ (ok (record { from = b'+' ∷ s; msg = message }), w)
unfolding parse_pdu one_byte
parse_pdu-deliver crates head middle size body s k w {encoded} {message} hh he hm hs plain number sz
      m =
    let pdu = head ++ (encoded ++ (middle ++ (size ++ body))) in
    let front = head ++ (encoded ++ middle) in
    let split : front ++ (size ++ body) ≡ pdu =
      append_assoc head (encoded ++ middle) (size ++ body)
      ∙ ap (λ r. head ++ r) (append_assoc encoded middle (size ++ body)) in
    let long : len front ≡ 52 =
      omega (arith, len-append head (encoded ++ middle), len-append encoded middle) in
    let longer : len (front ++ size) ≡ 54 = omega (arith, len-append front size) in
    let at_size : slice 52 54 pdu ≡ some size =
      subst (λ p. slice 52 54 p ≡ some size) split
        (slice-middle front size body 52 54 long (omega arith)) in
    let at_body : slice_from 54 pdu ≡ some body =
      subst (λ p. slice_from 54 p ≡ some body) (append_assoc front size body ∙ split)
        (subst (λ n. slice_from n ((front ++ size) ++ body) ≡ some body) longer
          (slice_from-append (front ++ size) body)) in
    rw (slice-middle head encoded (middle ++ (size ++ body)) 22 34 hh (omega arith))
      (rw at_size (rw sz (rw at_body (rw (decode-encode_phone_number s plain number) (rw m refl)))))

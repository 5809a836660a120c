-- ===== src/Sms/Receive.antt =====
-- `wait_sms`: the next SMS-DELIVER PDU that the modem forwards.
use telco_vecchio.Prelude.{ℕ, zero, suc, Option, none, some, List, [], ◌∷◌}
use telco_vecchio.Text.{Text, text, slice, slice_from}
use telco_vecchio.Config.{SmsConfig}
use telco_vecchio.Effects.{
  sms_reading_error, Exec, blocked, pure, crash, lift, ◌>>=◌, ◌>>◌, map_err,
}
use telco_vecchio.Effects.World.{World, Host, Crates, unwrap}
use telco_vecchio.Sms.{IncomingSms}
use telco_vecchio.Sms.Phone.{decode_phone_number}
use telco_vecchio.Sms.Message.{decode_message}
use telco_vecchio.Sms.Modem.{open_serial_port, at_transaction}

abbrev pub cmt_pattern : Text
cmt_pattern = text "\\+CMT:.*\\r\\n(.+)\\r\\n"

-- `let [n] = bytes`
unfoldable pub one_byte : Option (List ℕ) → Exec World ℕ
one_byte (some (n ∷ [])) = pure n
one_byte _ = crash

module _ (crates : Crates) where
  -- Both an empty answer and one that is no message are read past.
  abbrev pub cmt_pdu : Text → Option Text
  cmt_pdu [] = none
  cmt_pdu (c ∷ s) = crates.capture cmt_pattern (c ∷ s)

  -- from the PDU to the message
  unfoldable pub parse_pdu : Text → Exec World IncomingSms
  parse_pdu pdu = do
    number_encoded ← unwrap (slice 22 34 pdu)
    size ← unwrap (slice 52 54 pdu)
    message_size_septets ← one_byte (crates.hex_decode size)
    message_encoded ← unwrap (slice_from 54 pdu)
    number ← unwrap (decode_phone_number number_encoded)
    message ← map_err sms_reading_error (decode_message crates message_encoded message_size_septets)
    pure (record { from = number; msg = message })

module _ (host : Host) (crates : Crates) where
  unfoldable pub cmt_loop : ℕ → Exec World Text
  cmt_loop zero = lift blocked
  cmt_loop (suc fuel) = do
    response ← map_err sms_reading_error (at_transaction host [])
    elim (cmt_pdu crates response) [ some s ↦ pure s | none ↦ cmt_loop fuel ]

  unfoldable pub wait_sms : SmsConfig → Exec World IncomingSms
  wait_sms config = do
    map_err sms_reading_error (open_serial_port host config)
    pdu ← cmt_loop host.rounds
    parse_pdu crates pdu

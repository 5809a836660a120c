-- ===== src/Sms/Effects/Reading.antt =====
-- What the wait for a message does to the world: it uses the serial port.
use telco_vecchio.Prelude.{ℕ, zero, suc, Option, none, some, List, [], ◌∷◌}
use telco_vecchio.Text.{Text, lower, truncate, slice, slice_from}
use telco_vecchio.Prelude.{map}
use telco_vecchio.Config.{SmsConfig}
use telco_vecchio.Effects.{sms_reading_error, panic, blocked, Exec, pure, map_err}
use telco_vecchio.Effects.World.{port_opened, World, Host, Crates, ok_or, unwrap}
use telco_vecchio.Effects.Only.{
  Only-pure, Only-lift, Only-perform, Only-ok_or, Only-unwrap, Only-bind,
}
use telco_vecchio.Sms.Phone.{decode_phone_number}
use telco_vecchio.Sms.Message.{invalid_data, decode_message}
use telco_vecchio.Sms.Modem.{open_serial_port, at_transaction}
use telco_vecchio.Sms.Receive.{one_byte, cmt_pdu, parse_pdu, cmt_loop, wait_sms}
use telco_vecchio.Sms.Effects.{UsesPort, map_err-Only, at_transaction-UsesPort}

one_byte-UsesPort : (o : Option (List ℕ)) → UsesPort (one_byte o)
unfolding one_byte
one_byte-UsesPort none = Only-lift panic
one_byte-UsesPort (some []) = Only-lift panic
one_byte-UsesPort (some (n ∷ [])) = Only-pure n
one_byte-UsesPort (some (n ∷ k ∷ ns)) = Only-lift panic

or_else-UsesPort :
    {A : Type 0} (o : Option A) (m : Exec World A)
    → UsesPort m
    → UsesPort (elim o [ some a ↦ pure a | none ↦ m ])
or_else-UsesPort none m p = p
or_else-UsesPort (some a) m p = Only-pure a

module _ (crates : Crates) where
  decode_message-UsesPort :
      (encoded : Text) (size : ℕ) → UsesPort (decode_message crates encoded size)
  unfolding decode_message
  decode_message-UsesPort encoded size =
      Only-bind (ok_or invalid_data (crates.hex_decode (map lower encoded))) (Only-ok_or _ _) λ v.
        Only-bind (ok_or invalid_data (crates.gsm7_read v)) (Only-ok_or _ _)
          λ out. Only-unwrap (truncate size out)

  parse_pdu-UsesPort : (pdu : Text) → UsesPort (parse_pdu crates pdu)
  unfolding parse_pdu
  parse_pdu-UsesPort pdu = Only-bind (unwrap (slice 22 34 pdu)) (Only-unwrap _) λ number_encoded.
      Only-bind (unwrap (slice 52 54 pdu)) (Only-unwrap _) λ size.
        Only-bind (one_byte (crates.hex_decode size)) (one_byte-UsesPort _) λ septets.
          Only-bind (unwrap (slice_from 54 pdu)) (Only-unwrap _) λ message_encoded.
            Only-bind (unwrap (decode_phone_number number_encoded)) (Only-unwrap _) λ number.
              Only-bind (map_err sms_reading_error (decode_message crates message_encoded septets))
                (map_err-Only sms_reading_error _ (decode_message-UsesPort message_encoded septets))
                λ message. Only-pure _

module _ (host : Host) (crates : Crates) where
  cmt_loop-UsesPort : (fuel : ℕ) → UsesPort (cmt_loop host crates fuel)
  unfolding cmt_loop
  cmt_loop-UsesPort zero = Only-lift blocked
  cmt_loop-UsesPort (suc fuel) =
      Only-bind (map_err sms_reading_error (at_transaction host []))
        (map_err-Only sms_reading_error _ (at_transaction-UsesPort host []))
        λ response. or_else-UsesPort (cmt_pdu crates response) _ (cmt_loop-UsesPort fuel)

  -- A message is waited for at the serial port alone.
  pub wait_sms-UsesPort : (c : SmsConfig) → UsesPort (wait_sms host crates c)
  unfolding wait_sms
  wait_sms-UsesPort c =
      Only-bind (map_err sms_reading_error (open_serial_port host c))
        (map_err-Only sms_reading_error _ (Only-perform (port_opened c.modem_device) _ tt))
        λ _.
          Only-bind (cmt_loop host crates host.rounds) (cmt_loop-UsesPort host.rounds)
            λ pdu. parse_pdu-UsesPort crates pdu

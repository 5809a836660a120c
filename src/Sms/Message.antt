-- ===== src/Sms/Message.antt =====
-- The text of a message in a PDU: septets of the GSM alphabet, packed, in hexadecimal.
use telco_vecchio.Prelude.{ℕ, map}
use telco_vecchio.Text.{Text, text, lower, upper, truncate}
use telco_vecchio.Effects.{Error, io_error, Exec, pure, ◌>>=◌}
use telco_vecchio.Effects.World.{World, Crates, ok_or, unwrap}

-- `io::Error::from(io::ErrorKind::InvalidData)`
abbrev pub invalid_data : Error
invalid_data = io_error (text "Kind(InvalidData)")

module _ (crates : Crates) where
  unfoldable pub encode_message : Text → Exec World Text
  encode_message message = do
    septets ← ok_or invalid_data (crates.gsm7_write message)
    pure (map upper (crates.hex_encode septets))

  -- The last step panics if the size cuts a character.
  unfoldable pub decode_message : Text → ℕ → Exec World Text
  decode_message encoded size_septet = do
    v ← ok_or invalid_data (crates.hex_decode (map lower encoded))
    out ← ok_or invalid_data (crates.gsm7_read v)
    unwrap (truncate size_septet out)

-- ===== src/Sms/Send.antt =====
-- `send_sms`: an SMS-SUBMIT PDU in two AT commands, under a deadline.
use telco_vecchio.Prelude.{ℕ, ◌-◌, ◌/◌, ◌%◌, ◌^◌, [], ◌∷◌, ◌++◌, ltb}
use telco_vecchio.Text.{Text, text, len, hex_byte}
use telco_vecchio.Text.Decimal.{show}
use telco_vecchio.Config.{SmsConfig}
use telco_vecchio.Effects.{sms_sending_error, Exec, err, ◌>>=◌, ◌>>◌, map_err}
use telco_vecchio.Effects.World.{World, Host, Crates, timeout, unwrap, fail_if}
use telco_vecchio.Sms.{OutgoingSms}
use telco_vecchio.Sms.Phone.{encode_phone_number}
use telco_vecchio.Sms.Message.{encode_message}
use telco_vecchio.Sms.Modem.{open_serial_port, expect}

abbrev pub sms_validity_period : ℕ
sms_validity_period = 1

-- The PDU of a message of `size` bytes, its end marked by ^Z.
unfoldable pub submit_pdu : Text → ℕ → Text → Text
submit_pdu number size message =
    text "0011000B91"
    ++ (number
        ++ (text "0000"
            ++ (hex_byte sms_validity_period ++ (hex_byte (size % 2 ^ 8) ++ (message ++ 26 ∷ [])))))

-- `AT+CMGS` names the octets behind the first, which is the address of the service centre.
unfoldable pub cmgs_length : Text → ℕ
cmgs_length pdu = (len pdu - 2) / 2

unfoldable pub cmgs_command : Text → Text
cmgs_command pdu = text "AT+CMGS=" ++ (show (cmgs_length pdu) ++ text "\r")

module _ (host : Host) (crates : Crates) where
  unfoldable pub send_body : SmsConfig → OutgoingSms → Exec World (Unit {0})
  send_body config sms = do
    fail_if (ltb 140 (len sms.msg)) sms_sending_error
    map_err sms_sending_error (open_serial_port host config)
    number ← unwrap (encode_phone_number sms.to)
    message ← map_err sms_sending_error (encode_message crates sms.msg)
    let pdu = submit_pdu number (len sms.msg) message
    expect host sms_sending_error (cmgs_command pdu) (text ">")
    expect host sms_sending_error pdu (text "OK")

  unfoldable pub send_sms : SmsConfig → OutgoingSms → Exec World (Unit {0})
  send_sms config sms =
      timeout config.sms_send_timeout_sec (err sms_sending_error) (send_body config sms)

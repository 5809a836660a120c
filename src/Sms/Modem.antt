-- ===== src/Sms/Modem.antt =====
-- The serial port: commands, their echo and the answers, and the modem's set-up.
use telco_vecchio.Prelude.{ℕ, zero, suc, ◌-◌, not, List, [], ◌∷◌, nat_eq, length}
use telco_vecchio.Text.{Text, text, len, contains}
use telco_vecchio.Text.Utf8.{from_utf8}
use telco_vecchio.Config.{SmsConfig}
use telco_vecchio.Effects.{Error, sms_init_error, Exec, blocked, pure, lift, ◌>>=◌, ◌>>◌, map_err}
use telco_vecchio.Effects.World.{
  World, Host, port_opened, port_written, port_read, perform, ok_or, fail_if,
}
use telco_vecchio.Sms.Message.{invalid_data}

-- `buffer = buffer[l..]`, and the end of the loop on an empty buffer
unfoldable pub after_read : (ℕ → Exec World (Unit {0})) → ℕ → List ℕ → Exec World (Unit {0})
after_read again left bytes = elim (left - length bytes) [ zero ↦ pure tt | suc n ↦ again (suc n) ]

module _ (host : Host) where
  abbrev pub open_serial_port : SmsConfig → Exec World (Unit {0})
  open_serial_port config =
      perform (port_opened config.modem_device) (λ t. host.open_port t config.modem_device)

  -- Reads until the echo of the command, of `left` more bytes, has come back.
  unfoldable pub echo_loop : ℕ → ℕ → Exec World (Unit {0})
  echo_loop zero left = lift blocked
  echo_loop (suc fuel) left = do
    bytes ← perform (port_read left) host.read_port
    after_read (echo_loop fuel) left bytes

  unfoldable pub send_command : Text → Exec World (Unit {0})
  send_command [] = pure tt
  send_command (c ∷ s) = do
    perform (port_written (c ∷ s)) host.write_port
    echo_loop host.rounds (len (c ∷ s))

  unfoldable pub at_transaction : Text → Exec World Text
  at_transaction command = do
    send_command command
    bytes ← perform (port_read 128) host.read_port
    ok_or invalid_data (from_utf8 bytes)

  -- An AT command whose answer must hold a word.
  unfoldable pub expect : Error → Text → Text → Exec World (Unit {0})
  expect e command word = do
    response ← map_err e (at_transaction command)
    fail_if (not (contains word response)) e

  unfoldable pub init : SmsConfig → Exec World (Unit {0})
  init config = do
    map_err sms_init_error (open_serial_port config)
    expect sms_init_error (text "AT+CMGF=0\r") (text "OK")
    expect sms_init_error (text "AT+CNMI=2,2\r") (text "OK")

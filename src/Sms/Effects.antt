-- ===== src/Sms/Effects.antt =====
-- What the sending of a message does to the world: it uses the serial port and a timer.
pub mod Reading
pub mod Written
use telco_vecchio.Prelude.{
  ℕ, zero, suc, ◌-◌, Bool, true, false, not, [], ◌∷◌, ◌==◌, nat_eq, ltb, length,
}
use telco_vecchio.Text.{Text, Bytes, text, len, contains}
use telco_vecchio.Text.Utf8.{from_utf8}
use telco_vecchio.Config.{SmsConfig}
use telco_vecchio.Effects.{Error, sms_sending_error, err, blocked, Exec, pure, map_err}
use telco_vecchio.Effects.World.{
  Effect, timer, port_opened, port_written, port_read, World, Host, Crates, perform, fail_if, ok_or,
  unwrap,
}
use telco_vecchio.Effects.Only.{
  Only, Only-pure, Only-lift, Only-perform, Only-ok_or, Only-unwrap, Only-timeout, Only-bind,
  Only-match,
}
use telco_vecchio.Sms.{OutgoingSms}
use telco_vecchio.Sms.Phone.{encode_phone_number}
use telco_vecchio.Sms.Message.{invalid_data, encode_message}
use telco_vecchio.Sms.Modem.{
  open_serial_port, echo_loop, after_read, send_command, at_transaction, expect,
}
use telco_vecchio.Sms.Send.{send_body, send_sms, cmgs_command, submit_pdu}

abbrev pub IsPortUse : Effect → Type 0
IsPortUse (timer n) = Unit
IsPortUse (port_opened d) = Unit
IsPortUse (port_written s) = Unit
IsPortUse (port_read n) = Unit
IsPortUse _ = ⊥

abbrev pub UsesPort : {A : Type 0} → Exec World A → Type 0
UsesPort = Only IsPortUse

pub map_err-Only :
    {P : Effect → Type 0} {A : Type 0} (e : Error) (m : Exec World A)
    → Only P m
    → Only P (map_err e m)
map_err-Only e m p = Only-match m p (λ a. Only-pure a) λ _. Only-lift (err e)

after_read-Only :
    {P : Effect → Type 0} (m : ℕ → Exec World (Unit {0})) (left : ℕ) (bytes : Bytes)
    → ((n : ℕ) → Only P (m n))
    → Only P (after_read m left bytes)
unfolding after_read
after_read-Only {P} m left bytes p =
    elim (left - length bytes) as (λ k. Only P (elim k [ zero ↦ pure tt | suc n ↦ m (suc n) ])) [
      | zero ↦ Only-pure tt
      | suc n ↦ p (suc n)
    ]

module _ (host : Host) where
  -- The wait for an echo only reads.
  pub echo_loop-Only :
      {P : Effect → Type 0}
      → ((n : ℕ) → P (port_read n))
      → (fuel left : ℕ) → Only P (echo_loop host fuel left)
  unfolding echo_loop
  echo_loop-Only p zero left = Only-lift blocked
  echo_loop-Only p (suc fuel) left =
      Only-bind _ (Only-perform (port_read left) host.read_port (p left))
        λ bytes. after_read-Only _ left bytes (echo_loop-Only p fuel)

  send_command-UsesPort : (command : Text) → UsesPort (send_command host command)
  unfolding send_command
  send_command-UsesPort [] = Only-pure tt
  send_command-UsesPort (c ∷ s) =
      Only-bind _ (Only-perform (port_written (c ∷ s)) host.write_port tt)
        λ _. echo_loop-Only (λ n. tt) host.rounds (len (c ∷ s))

  pub at_transaction-UsesPort : (command : Text) → UsesPort (at_transaction host command)
  unfolding at_transaction
  at_transaction-UsesPort command = Only-bind _ (send_command-UsesPort command) λ _.
      Only-bind _ (Only-perform (port_read 128) host.read_port tt)
        λ bytes. Only-ok_or invalid_data (from_utf8 bytes)

  pub expect-UsesPort : (e : Error) (command word : Text) → UsesPort (expect host e command word)
  unfolding expect
  expect-UsesPort e command word =
      Only-bind (map_err e (at_transaction host command))
        (map_err-Only e _ (at_transaction-UsesPort command)) λ response. Only-lift _

module _ (crates : Crates) where
  pub encode_message-Only : {P : Effect → Type 0} (s : Text) → Only P (encode_message crates s)
  unfolding encode_message
  encode_message-Only s =
      Only-bind (ok_or invalid_data (crates.gsm7_write s))
        (Only-ok_or invalid_data (crates.gsm7_write s)) λ septets. Only-pure _

module _ (host : Host) (crates : Crates) where
  send_body-UsesPort : (c : SmsConfig) (sms : OutgoingSms) → UsesPort (send_body host crates c sms)
  unfolding send_body
  send_body-UsesPort c sms =
      Only-bind (fail_if (ltb 140 (len sms.msg)) sms_sending_error) (Only-lift _) λ _.
        Only-bind (map_err sms_sending_error (open_serial_port host c))
          (map_err-Only sms_sending_error _ (Only-perform (port_opened c.modem_device) _ tt))
          λ _. Only-bind (unwrap (encode_phone_number sms.to)) (Only-unwrap _) λ number.
            Only-bind (map_err sms_sending_error (encode_message crates sms.msg))
              (map_err-Only sms_sending_error _ (encode_message-Only crates sms.msg))
              λ message.
                let pdu = submit_pdu number (len sms.msg) message in
                Only-bind (expect host sms_sending_error (cmgs_command pdu) (text ">"))
                  (expect-UsesPort host sms_sending_error (cmgs_command pdu) (text ">"))
                  λ _. expect-UsesPort host sms_sending_error pdu (text "OK")

  -- A message is sent by the serial port alone.
  pub send_sms-UsesPort :
      (c : SmsConfig) (sms : OutgoingSms) → UsesPort (send_sms host crates c sms)
  unfolding send_sms
  send_sms-UsesPort c sms =
      Only-timeout c.sms_send_timeout_sec (err sms_sending_error) (send_body host crates c sms) tt
        (send_body-UsesPort c sms)

-- ===== src/Sms/Outcome.antt =====
-- How `send_sms` can end: by a success or by its own error, in any case by its deadline, or by a
-- panic on a number that cannot be encoded.
use telco_vecchio.Prelude.{
  ℕ, zero, suc, ◌-◌, ◌≡◌, ◌≢◌, ◌⊎◌, ap, refl, Bool, true, false, not, Option, none, some, inl, inr,
  [], ◌∷◌, ltb, length,
}
use telco_vecchio.Text.{Text, Bytes, text, len, contains}
use telco_vecchio.Text.Utf8.{from_utf8}
use telco_vecchio.Config.{SmsConfig}
use telco_vecchio.Effects.{
  Error, sms_sending_error, Outcome, ok, err, panic, blocked, on_elapsed, Exec, pure, raise,
  continue, map_err, settle,
}
use telco_vecchio.Effects.Ends.{IsCalm, continue-IsCalm, answer-IsCalm, ok_or-IsCalm}
use telco_vecchio.Effects.World.{
  World, Host, Crates, perform, ok_or, unwrap, fail_if, emit, timer, port_read, port_written,
}
use telco_vecchio.Sms.{OutgoingSms}
use telco_vecchio.Sms.Phone.{encode_phone_number}
use telco_vecchio.Sms.Message.{encode_message, invalid_data}
use telco_vecchio.Sms.Modem.{
  open_serial_port, after_read, echo_loop, send_command, at_transaction, expect,
}
use telco_vecchio.Sms.Send.{send_body, send_sms, submit_pdu, cmgs_command}

-- no panic, and no error but this one
abbrev FailsBy : {A : Type 0} → Error → Outcome A → Type 0
FailsBy e (ok a) = Unit
FailsBy e (err x) = x ≡ e
FailsBy e panic = ⊥
FailsBy e blocked = Unit

continue-FailsBy :
    {A B : Type 0} (e : Error) (r : Outcome A) (f : A → Exec World B) (w : World)
    → FailsBy e r
    → ((a : A) (v : World) → FailsBy e (f a v).0)
    → FailsBy e (continue r f w).0
continue-FailsBy e (ok a) f w h k = k a w
continue-FailsBy e (err x) f w h k = h
continue-FailsBy e panic f w h k = h
continue-FailsBy e blocked f w h k = tt

settle-FailsBy :
    {A : Type 0} (e : Error) (r : Outcome A) (w : World)
    → IsCalm r
    → FailsBy e (settle {B = A} r pure (λ _. raise e) w).0
settle-FailsBy e (ok a) w h = tt
settle-FailsBy e (err x) w h = refl
settle-FailsBy e panic w h = h
settle-FailsBy e blocked w h = tt

map_err-FailsBy :
    {A : Type 0} (e : Error) (m : Exec World A) (w : World)
    → IsCalm (m w).0
    → FailsBy e (map_err e m w).0
map_err-FailsBy e m w h = settle-FailsBy e (m w).0 (m w).1 h

unwrap-FailsBy :
    {A : Type 0} (e : Error) (o : Option A) (w : World) → o ≢ none → FailsBy e (unwrap o w).0
unwrap-FailsBy e none w h = absurd (h refl)
unwrap-FailsBy e (some a) w h = tt

fail_if-FailsBy : (b : Bool) (e : Error) (w : World) → FailsBy e (fail_if b e w).0
fail_if-FailsBy true e w = refl
fail_if-FailsBy false e w = tt

after_read-IsCalm :
    (m : ℕ → Exec World (Unit {0})) (left : ℕ) (bytes : Bytes) (w : World)
    → ((n : ℕ) (v : World) → IsCalm (m n v).0)
    → IsCalm (after_read m left bytes w).0
unfolding after_read
after_read-IsCalm m left bytes w h =
    elim (left - length bytes)
      as (λ k.
        IsCalm
          (elim k as (λ _. Exec World (Unit {0})) [ zero ↦ pure tt | suc n ↦ m (suc n) ] w).0) [
            | zero ↦ tt
            | suc n ↦ h (suc n) w
          ]

module _ (host : Host) where
  echo_loop-IsCalm : (fuel left : ℕ) (w : World) → IsCalm (echo_loop host fuel left w).0
  unfolding echo_loop
  echo_loop-IsCalm zero left w = tt
  echo_loop-IsCalm (suc fuel) left w =
      continue-IsCalm (perform (port_read left) host.read_port w).0 _ _
        (answer-IsCalm _ (host.read_port w.trace) _)
        λ bytes. after_read-IsCalm _ left bytes _ (echo_loop-IsCalm fuel)

  send_command-IsCalm : (command : Text) (w : World) → IsCalm (send_command host command w).0
  unfolding send_command
  send_command-IsCalm [] w = tt
  send_command-IsCalm (c ∷ s) w =
      continue-IsCalm (perform (port_written (c ∷ s)) host.write_port w).0 _ _
        (answer-IsCalm _ (host.write_port w.trace) _)
        λ _. echo_loop-IsCalm host.rounds (len (c ∷ s)) _

  at_transaction-IsCalm : (command : Text) (w : World) → IsCalm (at_transaction host command w).0
  unfolding at_transaction
  at_transaction-IsCalm command w =
      continue-IsCalm (send_command host command w).0 _ _ (send_command-IsCalm command w) λ _.
        let v = (send_command host command w).1 in
        continue-IsCalm (perform (port_read 128) host.read_port v).0 _ _
          (answer-IsCalm _ (host.read_port v.trace) _)
          λ bytes. ok_or-IsCalm invalid_data (from_utf8 bytes) _

  expect-FailsBy :
      (e : Error) (command word : Text) (w : World) → FailsBy e (expect host e command word w).0
  unfolding expect
  expect-FailsBy e command word w =
      continue-FailsBy e (map_err e (at_transaction host command) w).0 _ _
        (map_err-FailsBy e (at_transaction host command) w (at_transaction-IsCalm command w))
        λ response v. fail_if-FailsBy (not (contains word response)) e v

module _ (host : Host) (crates : Crates) where
  encode_message-IsCalm : (s : Text) (w : World) → IsCalm (encode_message crates s w).0
  unfolding encode_message
  encode_message-IsCalm s w =
      continue-IsCalm (ok_or invalid_data (crates.gsm7_write s) w).0 _ _
        (ok_or-IsCalm invalid_data (crates.gsm7_write s) w) λ _. tt

  send_body-FailsBy :
      (c : SmsConfig) (sms : OutgoingSms) (w : World)
      → encode_phone_number sms.to ≢ none
      → FailsBy sms_sending_error (send_body host crates c sms w).0
  unfolding send_body
  send_body-FailsBy c sms w number =
      continue-FailsBy sms_sending_error (fail_if (ltb 140 (len sms.msg)) sms_sending_error w).0 _ _
        (fail_if-FailsBy (ltb 140 (len sms.msg)) sms_sending_error w)
        λ _ v.
          continue-FailsBy sms_sending_error
            (map_err sms_sending_error (open_serial_port host c) v).0 _ _
            (map_err-FailsBy sms_sending_error (open_serial_port host c) v
              (answer-IsCalm _ (host.open_port v.trace c.modem_device) _))
            λ _ u.
              continue-FailsBy sms_sending_error (unwrap (encode_phone_number sms.to) u).0 _ _
                (unwrap-FailsBy sms_sending_error (encode_phone_number sms.to) u number)
                λ n x.
                  continue-FailsBy sms_sending_error
                    (map_err sms_sending_error (encode_message crates sms.msg) x).0 _ _
                    (map_err-FailsBy sms_sending_error (encode_message crates sms.msg) x
                      (encode_message-IsCalm sms.msg x))
                    λ message y.
                      let pdu = submit_pdu n (len sms.msg) message in
                      continue-FailsBy sms_sending_error
                        (expect host sms_sending_error (cmgs_command pdu) (text ">") y).0 _ _
                        (expect-FailsBy host sms_sending_error (cmgs_command pdu) (text ">") y)
                        λ _ z. expect-FailsBy host sms_sending_error pdu (text "OK") z

  elapsed :
      (r : Outcome (Unit {0}))
      → FailsBy sms_sending_error r
      → (on_elapsed (err sms_sending_error) r ≡ ok tt)
        ⊎ (on_elapsed (err sms_sending_error) r ≡ err sms_sending_error)
  elapsed (ok a) h = inl refl
  elapsed (err e) h = inr (ap err h)
  elapsed panic h = absurd h
  elapsed blocked h = inr refl

  -- A message to a number that can be encoded is sent, or the sending fails by its own error: it does
  -- not panic, and does not hang whatever the modem does.
  pub send_sms_returns :
      (c : SmsConfig) (sms : OutgoingSms) (w : World)
      → encode_phone_number sms.to ≢ none
      → ((send_sms host crates c sms w).0 ≡ ok tt)
        ⊎ ((send_sms host crates c sms w).0 ≡ err sms_sending_error)
  unfolding send_sms
  send_sms_returns c sms w number =
      elapsed _ (send_body-FailsBy c sms (emit (timer c.sms_send_timeout_sec) w) number)

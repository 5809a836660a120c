-- ===== src/Sms/Sent.antt =====
-- A message that was sent: what it was, and what the modem got.
use telco_vecchio.Prelude.{
  ℕ, ◌≤◌, ◌≡◌, ◌≢◌, refl, ap, ◌∙◌, Bool, true, false, Option, none, some, [], ◌∷◌, arith, ltb,
}
use telco_vecchio.Prelude.{map}
use telco_vecchio.Text.{Text, Bytes, text, len, upper}
use telco_vecchio.Config.{SmsConfig}
use telco_vecchio.Effects.{
  Error, sms_sending_error, Outcome, ok, err, panic, blocked, pure, raise, settle, map_err, ◌>>=◌,
}
use telco_vecchio.Effects.Keeps.{on_elapsed-ok, continue-then}
use telco_vecchio.Effects.World.{
  timer, port_opened, World, Host, Crates, fail_if, ok_or, unwrap, emit,
}
use telco_vecchio.Effects.Only.{Only-perform}
use telco_vecchio.Sms.{OutgoingSms}
use telco_vecchio.Sms.Phone.{encode_phone_number}
use telco_vecchio.Sms.Message.{invalid_data, encode_message}
use telco_vecchio.Sms.Modem.{open_serial_port, expect}
use telco_vecchio.Sms.Send.{send_body, send_sms, cmgs_command, submit_pdu}
use telco_vecchio.Sms.Effects.{map_err-Only, encode_message-Only}
use telco_vecchio.Effects.Gathered.{Only-gathered}
use telco_vecchio.Sms.Effects.Written.{written, writes, expect-writes}

map_err-ok :
    {A : Type 0} (e : Error) (r : Outcome A) (w : World) {a : A}
    → (settle {B = A} r pure (λ _. raise e) w).0 ≡ ok a
    → r ≡ ok a
map_err-ok e (ok b) w h = h
map_err-ok e (err x) w h = cc
map_err-ok e panic w h = cc
map_err-ok e blocked w h = cc

unwrap-ok :
    {A : Type 0} (o : Option A) (w : World) {a : A}
    → (unwrap o w).0 ≡ ok a
    → (o ≡ some a) × ((unwrap o w).1 ≡ w)
unwrap-ok none w h = cc
unwrap-ok (some a) w h = (ground arith, refl)

encode_message-ok :
    (crates : Crates) (s : Text) (o : Option Bytes) (w : World) {message : Text}
    → ((ok_or invalid_data o >>= λ septets. pure (map upper (crates.hex_encode septets))) w).0
      ≡ ok message
    → (septets : Bytes) × (o ≡ some septets) × (message ≡ map upper (crates.hex_encode septets))
encode_message-ok crates s none w h = cc
encode_message-ok crates s (some septets) w h = (septets, refl, ground arith)

submit_pdu-some : (number : Text) (size : ℕ) (message : Text) → submit_pdu number size message ≢ []
unfolding submit_pdu
submit_pdu-some number size message e = cc

cmgs_command-some : (pdu : Text) → cmgs_command pdu ≢ []
unfolding cmgs_command
cmgs_command-some pdu e = cc

fail_if-ok :
    (b : Bool) (e : Error) (w : World) {u : Unit {0}} → (fail_if b e w).0 ≡ ok u → b ≡ false
fail_if-ok true e w h = cc
fail_if-ok false e w h = refl

-- A message that was sent: its text was short enough, its number and its text could be encoded, and the
-- port got the announcement of its PDU, and then the PDU, and nothing else.
pub record Sent (crates : Crates) (sms : OutgoingSms) (w v : World) : Type 0 where
  pub number : Text
  pub septets : Bytes
  pub fits : len sms.msg ≤ 140
  pub encodes : encode_phone_number sms.to ≡ some number
  pub packs : crates.gsm7_write sms.msg ≡ some septets
  pub puts :
      let pdu = submit_pdu number (len sms.msg) (map upper (crates.hex_encode septets)) in
      writes v.trace ≡ pdu ∷ cmgs_command pdu ∷ writes w.trace

module _ (host : Host) (crates : Crates) where
  send_body-Sent :
      (c : SmsConfig) (sms : OutgoingSms) (w : World) {u : Unit {0}}
      → (send_body host crates c sms w).0 ≡ ok u
      → Sent crates sms w (send_body host crates c sms w).1
  unfolding send_body encode_message
  send_body-Sent c sms w h =
      let S = Sent crates sms w in
      let e = sms_sending_error in
      let checked = fail_if (ltb 140 (len sms.msg)) e w in
      continue-then S checked.0 _ checked.1 h λ _ e1 h1.
        let opened = map_err e (open_serial_port host c) w in
        continue-then S opened.0 _ opened.1 h1 λ _ e2 h2.
          let numbered = unwrap (encode_phone_number sms.to) opened.1 in
          continue-then S numbered.0 _ numbered.1 h2 λ number e3 h3.
            let packed = map_err e (encode_message crates sms.msg) numbered.1 in
            continue-then S packed.0 _ packed.1 h3 λ message e4 h4.
              let pdu = submit_pdu number (len sms.msg) message in
              let announced = expect host e (cmgs_command pdu) (text ">") packed.1 in
              continue-then S announced.0 _ announced.1 h4 λ _ e5 h5.
                let (encodes, same) = unwrap-ok (encode_phone_number sms.to) opened.1 e3 in
                let (septets, packs, packed_as) =
                  encode_message-ok crates sms.msg (crates.gsm7_write sms.msg) numbered.1
                    (map_err-ok e (encode_message crates sms.msg numbered.1).0 _ e4) in
                let quiet_open =
                  Only-gathered written (map_err e (open_serial_port host c)) w
                    (map_err-Only e _ (Only-perform (port_opened c.modem_device) _ refl)) in
                let quiet_text =
                  Only-gathered written (map_err e (encode_message crates sms.msg)) numbered.1
                    (map_err-Only e _ (encode_message-Only crates sms.msg)) in
                record {
                  number = number;
                  septets = septets;
                  fits = ground (arith, fail_if-ok (ltb 140 (len sms.msg)) e w e1);
                  encodes = encodes;
                  packs = packs;
                  puts = rw (← packed_as) (
                      expect-writes host e pdu (text "OK") announced.1
                        (submit_pdu-some number (len sms.msg) message) h5
                      ∙ ap (λ t. pdu ∷ t)
                          (expect-writes host e (cmgs_command pdu) (text ">") packed.1
                              (cmgs_command-some pdu) e5
                            ∙ ap (λ t. cmgs_command pdu ∷ t)
                                (quiet_text
                                  ∙ ap (λ (v : World). writes v.trace) same
                                  ∙ quiet_open)));
                }

  -- If a message is sent with success, its text has at most 140 bytes, its number and its text can be
  -- encoded, and the port got two texts and no other: the announcement of the length of the PDU made
  -- of both, and then this PDU.
  pub send_sms-Sent :
      (c : SmsConfig) (sms : OutgoingSms) (w : World)
      → (send_sms host crates c sms w).0 ≡ ok tt
      → Sent crates sms w (send_sms host crates c sms w).1
  unfolding send_sms
  send_sms-Sent c sms w h =
      let start = emit (timer c.sms_send_timeout_sec) w in
      let sent =
        send_body-Sent c sms start
          (on_elapsed-ok sms_sending_error (send_body host crates c sms start).0 h) in
      record {
        number = sent.number;
        septets = sent.septets;
        fits = sent.fits;
        encodes = sent.encodes;
        packs = sent.packs;
        puts = sent.puts;
      }

-- ===== src/Examples/Devices.antt =====
-- The modem, the SIM card, the status and the start.
use telco_vecchio.Prelude.{
  ◌+◌, ◌%◌, ◌<◌, ◌≤◌, replicate, eq_list, ◌≡◌, refl, ◌⊎◌, ◌↔◌, none, some, [], ◌∷◌, ◌++◌, arith,
  length, nat_eq, list_eq,
}
use telco_vecchio.Text.{Text, text, len, width, contains, starts_with, hex_byte, upper}
use telco_vecchio.Effects.{ok, err, sms_sending_error}
use telco_vecchio.Sms.{OutgoingSms}
use telco_vecchio.Sms.Phone.{encode_phone_number, decode_phone_number}
use telco_vecchio.Sms.Phone.RoundTrip.{
  IsPlain, encode_phone_number-panics, decode-encode_phone_number,
}
use telco_vecchio.Sms.Send.{send_sms, send_body, submit_pdu, cmgs_length, cmgs_command}
use telco_vecchio.Sms.Modem.{after_read, echo_loop, send_command, at_transaction, expect}
use telco_vecchio.Sms.Sent.{Sent, send_sms-Sent}
use telco_vecchio.Sms.Echo.{Talks, at_transaction_returns}
use telco_vecchio.Text.Utf8.{from_utf8}
use telco_vecchio.Text.Decimal.{show, digits}
use telco_vecchio.Effects.World.{Host, done}
use telco_vecchio.Sms.Outcome.{send_sms_returns}
use telco_vecchio.Sms.Receive.{parse_pdu}
use telco_vecchio.Sms.Pdu.{cmgs_length-submit_pdu, parse_pdu-deliver}
use telco_vecchio.Text.{remove_char, lower, truncate}
use telco_vecchio.Sms.Message.{invalid_data, encode_message, decode_message}
use telco_vecchio.Examples.{configuration, host, crates, idle}

abbrev reply : OutgoingSms
reply = record { to = text "+33612345678"; msg = text "hello" }

encodes : encode_phone_number (text "+33612345678") ≡ some (text "3316325476F8")
unfolding encode_phone_number
encodes = refl

send_sms_returns_example :
    ((send_sms host crates configuration.sms_config reply idle.world).0 ≡ ok tt)
    ⊎ ((send_sms host crates configuration.sms_config reply idle.world).0 ≡ err sms_sending_error)
send_sms_returns_example =
    send_sms_returns host crates configuration.sms_config reply idle.world (rw encodes (λ e. cc))

encode_phone_number-panics_example : (encode_phone_number (text "+4915112345678") ≡ none) ↔ (
    (12 < length (remove_char b'+' (text "+4915112345678")))
    × (length (remove_char b'+' (text "+4915112345678")) % 2 ≡ 1))
encode_phone_number-panics_example = encode_phone_number-panics (text "+4915112345678")

digits-IsPlain : IsPlain (text "33612345678")
digits-IsPlain = ground arith

decode-encode_phone_number_example :
    decode_phone_number (text "3316325476F8") ≡ some (text "+33612345678")
decode-encode_phone_number_example =
    decode-encode_phone_number (text "33612345678") {encoded = text "3316325476F8"} digits-IsPlain
      encodes

number_len : len (text "3316325476F8") ≡ 12
unfolding len width
number_len = refl

message_len : len (text "E8329BFD06") ≡ 10
unfolding len width
message_len = refl

cmgs_length-submit_pdu_example :
    cmgs_length (submit_pdu (text "3316325476F8") 5 (text "E8329BFD06")) ≡ 8 + 6 + 5
cmgs_length-submit_pdu_example =
    cmgs_length-submit_pdu (text "3316325476F8") (text "E8329BFD06") 5 6 5 number_len message_len

abbrev pub head_part : Text
head_part = text "0791336120000000040B91"

abbrev pub middle_part : Text
middle_part = text "000042101010000040"

head_len : len head_part ≡ 22
unfolding len width
head_len = refl

middle_len : len middle_part ≡ 18
unfolding len width
middle_len = refl

size_len : len (text "05") ≡ 2
unfolding len width
size_len = refl

-- The crates of the example read every message as its one octet.
decoded : decode_message crates (text "E8329BFD06") 5 idle.world ≡ (ok (5 ∷ []), idle.world)
unfolding decode_message lower truncate len width
decoded = refl

parse_pdu-deliver_example :
    parse_pdu crates
      (head_part ++ (text "3316325476F8" ++ (middle_part ++ (text "05" ++ text "E8329BFD06"))))
      idle.world
    ≡ (ok (record { from = text "+33612345678"; msg = 5 ∷ [] }), idle.world)
parse_pdu-deliver_example =
    parse_pdu-deliver crates head_part middle_part (text "05") (text "E8329BFD06")
      (text "33612345678") 5 idle.world {encoded = text "3316325476F8"} {message = 5 ∷ []} head_len
      number_len middle_len size_len digits-IsPlain encodes refl decoded

-- A modem that answers all that is asked for at once.
abbrev pub eager : Host
eager = record host { read_port = λ t. done (replicate 80 b'.' ++ text "> OK") }

sent : (send_sms eager crates configuration.sms_config reply idle.world).0 ≡ ok tt
unfolding send_sms send_body encode_message expect at_transaction send_command echo_loop after_read
    cmgs_command cmgs_length submit_pdu encode_phone_number from_utf8 contains starts_with len width
    show digits hex_byte upper eq_list
sent = refl

send_sms-Sent_example :
    Sent crates reply idle.world (send_sms eager crates configuration.sms_config reply idle.world).1
send_sms-Sent_example = send_sms-Sent eager crates configuration.sms_config reply idle.world sent

eager-Talks : Talks eager
eager-Talks = record {
  takes = λ t. refl;
  first = λ t. b'.';
  others = λ t. replicate 79 b'.' ++ text "> OK";
  gives = λ t. refl;
}

short_command : len (text "A") ≤ 2
unfolding len width
short_command = omega arith

at_transaction_returns_example :
    ((answer : Text) × ((at_transaction eager (text "A") idle.world).0 ≡ ok answer))
    ⊎ ((at_transaction eager (text "A") idle.world).0 ≡ err invalid_data)
at_transaction_returns_example =
    at_transaction_returns eager eager-Talks (text "A") idle.world short_command

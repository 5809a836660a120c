-- ===== src/Examples/Rounds.antt =====
-- The daemon's rounds, on the tunnels of two users.
use telco_vecchio.Prelude.{
  ◌+◌, ℕ, ◌*◌, ◌^◌, ◌≤◌, ◌≡◌, ◌≢◌, refl, ◌+◌, find, some, false, arith, eq_list, eq_list_iff, ◌==◌,
  nat_eq, list_eq, All,
}
use telco_vecchio.Text.{Text, text, len, width, contains, starts_with}
use telco_vecchio.Text.Decimal.{show, digits}
use telco_vecchio.Effects.{ok, blocked}
use telco_vecchio.Effects.World.{Host, timer, emit}
use telco_vecchio.Sms.{IncomingSms}
use telco_vecchio.Sms.Phone.{encode_phone_number}
use telco_vecchio.Sms.Message.{encode_message}
use telco_vecchio.Sms.Modem.{echo_loop, send_command, at_transaction, expect}
use telco_vecchio.Sms.Send.{submit_pdu, cmgs_length, cmgs_command, send_body, send_sms}
use telco_vecchio.Sms.Receive.{cmt_loop, wait_sms}
use telco_vecchio.Status.Qmi.{internet_loop, is_connected_to_internet}
use telco_vecchio.Daemon.Quiet.{Replies, IsSteady, EndsFresh, round_quiet}
use telco_vecchio.Table.{by_user, History, view}
use telco_vecchio.Table.Refines.{Follows}
use telco_vecchio.Table.Rounds.{handle_request-Follows, rounds_refine}
use telco_vecchio.Text.Utf8.{from_utf8}
use telco_vecchio.Status.Display.{show_status}
use telco_vecchio.Status.Size.{names_size}
use telco_vecchio.Status.Qmi.{
  json_field, pin_is_locked, after_error, qmi_command, is_connected_to_lte, is_sim_locked,
}
use telco_vecchio.Status.Resolve.{
  ping_first, ping_domain, applications_from, services_status, get_device_status, get_status,
}
use telco_vecchio.Request.Handle.{status_request}
use telco_vecchio.Request.Fits.{status_request-size}
use telco_vecchio.Context.{Tunnel, remove_tunnel}
use telco_vecchio.Context.Expiry.{
  secs, remove_all, notify_expiry, close_expired, next_ids, expired_ids, clean_up_expired_tunnels,
}
use telco_vecchio.Context.Cleanup.{fresh}
use telco_vecchio.Context.Invariant.{IsValid}
use telco_vecchio.Context.Ledger.{Balances}
use telco_vecchio.Context.Survivors.{clean_up_result}
use telco_vecchio.Context.Termination.{HasNumber, KillsReturn, clean_up_returns}
use telco_vecchio.Request.Handle.{handle_request}
use telco_vecchio.Daemon.Round.{reboot_if, periodic, dispatch, round, rounds, answer_sms}
use telco_vecchio.Daemon.Access.{IsStranger, answer_sms-stranger}
use telco_vecchio.Daemon.Invariant.{rounds-IsValid}
use telco_vecchio.Daemon.Balance.{rounds-Balances}
use telco_vecchio.Examples.{good_status, configuration, alice, bob, host, crates, busy, advancing}

abbrev spam : IncomingSms
spam = record { from = text "+33600000000"; msg = text "open camera" }

differ : (a b : Text) → (a == b) ≡ false → a ≢ b
differ a b h = ground (arith, eq_list_iff a b)

is_stranger : IsStranger configuration.users spam.from
unfolding eq_list
is_stranger =
    (differ alice.phone_number spam.from refl, (differ bob.phone_number spam.from refl, tt))

answer_sms-stranger_example : answer_sms host crates spam busy ≡ (ok tt, busy)
answer_sms-stranger_example = answer_sms-stranger host crates spam busy is_stranger

busy_IsValid : IsValid busy.context
unfolding eq_list
busy_IsValid = record {
  unique = (refl, (refl, tt));
  bounded = omega arith;
  distinct = ((λ e. ground (arith, e.0), tt), (tt, tt));
  owned = ((λ e. cc), ((λ e. cc), tt));
  ids = omega arith;
}

busy-Balances : Balances 8 busy
busy-Balances = refl

rounds-IsValid_example : IsValid (rounds host crates 2 busy).1.context
rounds-IsValid_example = rounds-IsValid host crates 2 busy busy_IsValid

kills_return : KillsReturn host
kills_return = λ t pid e. cc

numbers : All HasNumber configuration.users
unfolding encode_phone_number
numbers = ((λ e. cc), ((λ e. cc), tt))

past : All (λ (e : ℕ × Tunnel). e.1.creation_date ≤ 110 * 10 ^ 9) busy.context.tunnels
past = omega arith

cleaned : (clean_up_expired_tunnels host crates busy).0 ≡ ok tt
cleaned = clean_up_returns host crates kills_return busy numbers past

clean_up_result_example :
    ((clean_up_expired_tunnels host crates busy).1.context.tunnels
      ≡ fresh (110 * 10 ^ 9) (secs 60) busy.context.tunnels)
    × All (λ (e : ℕ × Tunnel). e.1.creation_date ≤ 110 * 10 ^ 9) busy.context.tunnels
clean_up_result_example = clean_up_result host crates busy busy_IsValid.unique cleaned

two_rounds : (rounds host crates 2 busy).0 ≡ ok tt
unfolding rounds round dispatch periodic wait_sms cmt_loop at_transaction send_command
    is_connected_to_internet internet_loop reboot_if clean_up_expired_tunnels expired_ids next_ids
    close_expired notify_expiry send_sms send_body expect encode_message cmgs_command cmgs_length
    submit_pdu encode_phone_number len width contains starts_with echo_loop remove_all remove_tunnel
    show digits eq_list
two_rounds = refl

rounds-Balances_example : Balances 8 (rounds host crates 2 busy).1
rounds-Balances_example =
    rounds-Balances host crates 8 2 busy busy-Balances (rw two_rounds (λ e. cc))

abbrev shown : Text
shown = show_status good_status

answered : (status_request host crates busy).0 ≡ ok shown
unfolding status_request get_status get_device_status is_sim_locked is_connected_to_lte
    is_connected_to_internet internet_loop after_error qmi_command json_field pin_is_locked
    services_status ping_domain ping_first applications_from from_utf8 eq_list
answered = refl

rounds_refine_example :
    History busy.context.configuration (view busy) (view (rounds host crates 2 busy).1)
rounds_refine_example = rounds_refine host crates 2 busy busy_IsValid.unique

alice_found :
    find (λ u. u.phone_number == text "+33612345678") busy.context.configuration.users ≡ some alice
unfolding eq_list
alice_found = refl

handle_request-Follows_example :
    Follows
      (by_user (text "alice"))
      busy
      (handle_request host crates (text "+33612345678") (text "close 1") busy).1
handle_request-Follows_example =
    handle_request-Follows host crates (text "+33612345678") (text "close 1") busy {user = alice}
      busy_IsValid.unique alice_found

status_request-size_example : len shown ≤ 81 + names_size busy.context.configuration.applications
status_request-size_example = status_request-size host crates busy {answer = shown} answered

-- The same modem, under a clock that advances.
abbrev passing : Host
passing = record host { clock = advancing }

quiet :
    (wait_sms passing crates busy.context.configuration.sms_config
      (emit (timer busy.context.configuration.ssh_config.tunnel_refresh_period_sec) busy.world)).0
    ≡ blocked
unfolding wait_sms cmt_loop at_transaction send_command
quiet = refl

comes_back : Replies passing
comes_back = record { kills = λ t pid e. cc; pings = λ t ip e. cc; spawns = λ t line e. cc }

steady : IsSteady passing busy
steady later = omega arith

round_quiet_example : EndsFresh passing busy (round passing crates busy)
round_quiet_example =
    round_quiet passing crates comes_back busy numbers busy_IsValid.unique steady quiet

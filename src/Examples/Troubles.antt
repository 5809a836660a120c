-- ===== src/Examples/Troubles.antt =====
-- The start, and what goes wrong: silent processes, short PDUs, long answers and a clock that was set back.
use telco_vecchio.Prelude.{
  ◌^◌, ◌*◌, ◌<◌, ◌≡◌, refl, true, none, inl, inr, [], ◌∷◌, arith, replicate, eq_list, nat_eq,
  list_eq, All,
}
use telco_vecchio.Text.{Text, text, len, width, contains, starts_with}
use telco_vecchio.Text.Utf8.{from_utf8}
use telco_vecchio.Text.Decimal.{pos}
use telco_vecchio.Text.Words.{split_whitespace}
use telco_vecchio.Effects.{ok, panic, blocked}
use telco_vecchio.Effects.World.{Host, Crates, timer, emit, done, pending}
use telco_vecchio.Status.{reachable}
use telco_vecchio.Status.Display.{show_status, show_applications, show_device, show_service}
use telco_vecchio.Status.Qmi.{
  json_field, pin_is_locked, after_error, qmi_command, internet_loop, is_connected_to_internet,
  is_connected_to_lte, is_sim_locked,
}
use telco_vecchio.Status.Resolve.{
  ping_first, ping_domain, applications_from, services_status, get_device_status, get_status,
}
use telco_vecchio.Sms.{IncomingSms}
use telco_vecchio.Sms.Modem
use telco_vecchio.Sms.Modem.{after_read, echo_loop, send_command, at_transaction, expect}
use telco_vecchio.Sms.Receive.{parse_pdu, cmt_loop, wait_sms}
use telco_vecchio.Sms.Short.{parse_pdu-short}
use telco_vecchio.Ssh.{setup_ssh_tunnel}
use telco_vecchio.Ssh.Hang.{IsSilent, setup_ssh_tunnel-hangs}
use telco_vecchio.Context.{Context, State, new_context}
use telco_vecchio.Context.Expiry.{clean_up_expired_tunnels, expired_ids, remove_all}
use telco_vecchio.Context.Invariant.{IsValid}
use telco_vecchio.Context.Ledger.{Balances}
use telco_vecchio.Context.Termination.{HasNumber, KillsReturn}
use telco_vecchio.Context.Clock.{clean_up-panics}
use telco_vecchio.Sms.Phone.{encode_phone_number}
use telco_vecchio.Request.{command_of}
use telco_vecchio.Request.Handle.{status_request, run_command, run_words, handle_request}
use telco_vecchio.Init.Register.{when_exists, lookup_init_listener}
use telco_vecchio.Init.Start.{
  open_writer, start_logging, read_config_file, on_device, status_loop, reliable_status,
  notify_listener, start_texting, init,
}
use telco_vecchio.Daemon.Round.{reboot_if, periodic, dispatch, round, rounds, answer_sms}
use telco_vecchio.Daemon.Start.{started, init-rounds, init-rounds_balance}
use telco_vecchio.Daemon.Silence.{answer_sms-long}
use telco_vecchio.Examples.{configuration, host, crates, idle, busy, good_status}

-- A modem that echoes and agrees, and never forwards a message.
abbrev pub agreeing : Host
agreeing = record host { read_port = λ t. done (text "................OK") }

abbrev pub configured : Crates
configured = record crates { capture = λ pattern s. none; toml = λ s. inl configuration }

abbrev pub fresh_context : Context
fresh_context = new_context configuration good_status

pub starts : (init agreeing configured true idle.world).0 ≡ ok fresh_context
unfolding init open_writer start_logging read_config_file reliable_status status_loop on_device
    start_texting Modem.init expect at_transaction send_command echo_loop after_read
    lookup_init_listener when_exists notify_listener get_status get_device_status is_sim_locked
    is_connected_to_lte is_connected_to_internet internet_loop after_error qmi_command json_field
    pin_is_locked services_status ping_domain ping_first applications_from from_utf8 contains
    starts_with len width eq_list
starts = refl

init-rounds_example :
    IsValid
      (rounds agreeing configured 2
        (started agreeing configured true idle.world fresh_context)).1.context
init-rounds_example = init-rounds agreeing configured true idle.world 2 {c = fresh_context} starts

goes_on :
    (rounds agreeing configured 2 (started agreeing configured true idle.world fresh_context)).0
    ≡ ok tt
unfolding rounds round dispatch periodic wait_sms cmt_loop at_transaction send_command
    is_connected_to_internet internet_loop reboot_if clean_up_expired_tunnels expired_ids remove_all
    from_utf8 eq_list
goes_on = refl

init-rounds_balance_example :
    Balances 7
      (rounds agreeing configured 2 (started agreeing configured true idle.world fresh_context)).1
init-rounds_balance_example =
    init-rounds_balance agreeing configured true idle.world 7 2 {c = fresh_context} refl starts
      (rw goes_on (λ e. cc))

abbrev silent_host : Host
silent_host = record host { read_stdout = λ t pid. pending; read_stderr = λ t pid. pending }

host-IsSilent : IsSilent silent_host
host-IsSilent = record {
  child = record { pid = 7; stdin = true; stdout = true; stderr = true };
  starts = λ t line. refl;
  piped = (refl, refl);
  stdout = λ t pid. refl;
  stderr = λ t pid. refl;
}

setup_ssh_tunnel-hangs_example :
    (setup_ssh_tunnel silent_host crates configuration.ssh_config
      (text "10.0.0.2")
      (pos 80)
      idle.world).0
    ≡ blocked
setup_ssh_tunnel-hangs_example =
    setup_ssh_tunnel-hangs silent_host crates host-IsSilent configuration.ssh_config
      (text "10.0.0.2") (pos 80) idle.world

short_len : len (text "0791") < 54
unfolding len width
short_len = omega arith

parse_pdu-short_example : (parse_pdu crates (text "0791") idle.world).0 ≡ panic
parse_pdu-short_example = parse_pdu-short crates (text "0791") idle.world short_len

-- Five seconds after the epoch, again.
abbrev set_back : Host
set_back = record host { clock = λ t. 5 * 10 ^ 9 }

set_back_kills : KillsReturn set_back
set_back_kills = λ t pid e. cc

users_encode : All HasNumber configuration.users
unfolding encode_phone_number
users_encode = ((λ e. cc), ((λ e. cc), tt))

clean_up-panics_example : (clean_up_expired_tunnels set_back crates busy).0 ≡ panic
clean_up-panics_example =
    clean_up-panics set_back crates set_back_kills busy users_encode (inr (inl (omega arith)))

-- An application whose name alone fills a message.
abbrev wordy : State
wordy = record idle {
  context = record (idle.context) {
    configuration = record configuration {
      applications =
          record {
            name = replicate 141 b'a';
            host_ip = text "10.0.0.2";
            port = pos 80;
            end_point = text "/";
          }
          ∷ [];
    };
  };
}

abbrev asks : IncomingSms
asks = record { from = text "+33612345678"; msg = text "status" }

abbrev long_status : Text
long_status =
    show_status (record good_status { applications_status = (replicate 141 b'a', reachable) ∷ [] })

shows : (handle_request host crates asks.from asks.msg wordy).0 ≡ ok long_status
unfolding handle_request run_words run_command command_of status_request split_whitespace get_status
    get_device_status is_sim_locked is_connected_to_lte is_connected_to_internet internet_loop
    after_error qmi_command json_field pin_is_locked services_status ping_domain ping_first
    applications_from from_utf8 eq_list
shows = refl

too_long : 140 < len long_status
unfolding show_status show_applications show_device show_service len width
too_long = omega arith

abbrev after_status : State
after_status = (handle_request host crates asks.from asks.msg wordy).1

answer_sms-long_example : answer_sms host crates asks wordy ≡ (
  ok tt,
  record after_status {
    world =
        emit
          (timer after_status.context.configuration.sms_config.sms_send_timeout_sec)
          after_status.world;
  },
)
answer_sms-long_example =
    answer_sms-long host crates asks wordy {answer = long_status} shows too_long

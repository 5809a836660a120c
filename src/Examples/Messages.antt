-- ===== src/Examples/Messages.antt =====
-- A round in which a message comes.
use telco_vecchio.Prelude.{◌≡◌, refl, some, [], ◌∷◌, ◌++◌, arith, nat_eq, list_eq, All}
use telco_vecchio.Prelude.Map.{HasUniqueKeys}
use telco_vecchio.Text.{text, len, width, slice, slice_from, slice_to, lower, truncate}
use telco_vecchio.Text.Utf8.{from_utf8}
use telco_vecchio.Effects.{ok}
use telco_vecchio.Effects.World.{World, Host, Crates, not_json, timer, emit}
use telco_vecchio.Sms.{IncomingSms}
use telco_vecchio.Sms.Phone.{encode_phone_number, decode_phone_number}
use telco_vecchio.Sms.Message.{decode_message}
use telco_vecchio.Sms.Modem.{send_command, at_transaction}
use telco_vecchio.Sms.Receive.{one_byte, parse_pdu, cmt_loop, wait_sms}
use telco_vecchio.Context.Termination.{HasNumber}
use telco_vecchio.Request.Outside.{ComesBack}
use telco_vecchio.Daemon.Round.{round}
use telco_vecchio.Daemon.Quiet.{IsSteady}
use telco_vecchio.Daemon.Ends.{round_returns}
use telco_vecchio.Examples.{configuration, crates, busy, advancing}
use telco_vecchio.Examples.Devices.{eager, head_part, middle_part}

-- The modem forwards a message of a user, under a clock that advances.
abbrev sending : Host
sending = record eager { clock = advancing }

-- What the modem's command prints, which is nothing here, is no JSON.
abbrev forwarding : Crates
forwarding = record crates {
  capture = λ pattern s.
      some
        (head_part ++ (text "3316325476F8" ++ (middle_part ++ (text "05" ++ text "E8329BFD06"))));
  json_string = λ s keys. not_json;
}

abbrev waiting : World
waiting = emit (timer configuration.ssh_config.tunnel_refresh_period_sec) busy.world

abbrev came : IncomingSms
came = record { from = text "+33612345678"; msg = 5 ∷ [] }

arrives : (wait_sms sending forwarding configuration.sms_config waiting).0 ≡ ok came
unfolding wait_sms cmt_loop at_transaction send_command from_utf8 parse_pdu slice slice_from
    slice_to one_byte decode_phone_number decode_message lower truncate len width
arrives = refl

users_encode : All HasNumber configuration.users
unfolding encode_phone_number
users_encode = ((λ e. cc), ((λ e. cc), tt))

steady : IsSteady sending busy
steady later = omega arith

distinct : HasUniqueKeys busy.context.tunnels
distinct = (refl, (refl, tt))

all_back : ComesBack sending forwarding configuration
unfolding from_utf8
all_back = record {
  status = record {
    network = record { pings = λ t ip e. cc; resolves = λ t domain e. cc };
    spawns = λ t line e. cc;
    waits = λ t pid e. cc;
    card = λ t said says e. cc;
    connection = λ t said says e. cc;
  };
  kills = λ t pid e. cc;
  ssh = λ t later ip port {found} e. (cc, [], [], refl, refl);
  register = record { opens = λ t e. cc; writes = λ t e. cc };
}

round_returns_example : (round sending forwarding busy).0 ≡ ok tt
round_returns_example =
    round_returns sending forwarding busy all_back users_encode distinct steady
      (rw arrives (λ e. cc))

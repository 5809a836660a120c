-- ===== src/Examples.antt =====
-- A small installation: two users, one application, and a host where everything answers but the modem.
-- The child modules run the daemon's code on it.
pub mod Devices
pub mod Start
pub mod Requests
pub mod Rounds
pub mod Troubles
pub mod Commands
pub mod Messages
use telco_vecchio.Prelude.{◌+◌, length, ℕ, ◌^◌, ◌*◌, true, some, none, List, [], ◌∷◌, inr}
use telco_vecchio.Text.{Text, text}
use telco_vecchio.Text.Decimal.{ℤ, pos}
use telco_vecchio.Config.{
  User, Application, SmsConfig, EmailConfig, SshConfig, InitConfig, Configuration,
}
use telco_vecchio.Effects.World.{
  Trace, World, absent, child, held, done, pending, Child, Output, Host, JsonLookup, string, Crates,
}
use telco_vecchio.Status.{reachable, ready, Status}
use telco_vecchio.Context.{Tunnel, Context, State}

abbrev pub alice : User
alice = record { name = text "alice"; phone_number = text "+33612345678"; email = text "a@b.c" }

abbrev pub bob : User
bob = record { name = text "bob"; phone_number = text "+33698765432"; email = text "b@b.c" }

abbrev pub camera : Application
camera = record {
  name = text "camera";
  host_ip = text "10.0.0.2";
  port = pos 80;
  end_point = text "/";
}

abbrev pub configuration : Configuration
configuration = record {
  users = alice ∷ bob ∷ [];
  applications = camera ∷ [];
  sms_config = record {
    modem_device = text "/dev/modem";
    qmi_modem_device = text "/dev/qmi";
    qmi_binary_file = text "uqmi";
    sim_pin = text "0000";
    sms_send_timeout_sec = 10;
  };
  email_config = record {
    binary_file = text "sendmail";
    sender_alias = text "router";
    server_domain = text "mail";
    internet_host = text "8.8.8.8";
    email_send_timeout_sec = 10;
  };
  ssh_config = record {
    binary_file = text "ssh";
    key_file = text "key";
    service_user = text "me";
    service_host = text "service";
    tunnel_input_port = pos 0;
    tunnel_setup_timeout_sec = 5;
    tunnel_timeout_sec = 60;
    tunnel_refresh_period_sec = 60;
    tunnel_max_number = some 3;
  };
  init_config = record {
    init_status_refresh_period_seconds = 5;
    init_status_refresh_max_retry = 2;
  };
}

abbrev pub good_status : Status
good_status = record {
  device_status = ready;
  email_service_status = reachable;
  ssh_tunnel_service_status = reachable;
  applications_status = (text "camera", reachable) ∷ [];
}

abbrev pub tunnel_of : User → (process creation_date : ℕ) → Tunnel
tunnel_of user process creation_date = record {
  user = user.name;
  application = text "camera";
  process = process;
  creation_date = creation_date;
}

-- without a tunnel
abbrev pub idle : State
idle = record {
  context = record { configuration = configuration; status = good_status; tunnels = [] };
  world = record { trace = []; register = absent };
}

-- with an old tunnel of one user and a young one of the other
abbrev pub busy : State
busy = record {
  context = record {
    configuration = configuration;
    status = good_status;
    tunnels = (0, tunnel_of alice 8 0) ∷ (1, tunnel_of bob 9 (100 * 10 ^ 9)) ∷ [];
  };
  world = record { trace = held 9 ∷ held 8 ∷ []; register = absent };
}

-- The second tunnel of two: the first one was closed.
abbrev pub thinned : State
thinned = record {
  context = record {
    configuration = configuration;
    status = good_status;
    tunnels = (1, tunnel_of bob 9 0) ∷ [];
  };
  world = record { trace = held 9 ∷ []; register = absent };
}

-- 110 seconds after the epoch all is well, and the modem is silent.
abbrev pub host : Host
host = record {
  fork = λ t. child;
  clock = λ t. 110 * 10 ^ 9;
  ping = λ t ip. done tt;
  lookup_host = λ t domain. done (text "1.2.3.4" ∷ []);
  spawn = λ t line. done (record { pid = 7; stdin = true; stdout = true; stderr = true });
  write_stdin = λ t pid. done 200;
  wait_with_output = λ t pid. done (record { success = true; stdout = [] });
  read_stdout = λ t pid. done (text "Forwarding");
  read_stderr = λ t pid. done [];
  kill = λ t pid. done tt;
  open_port = λ t device. done tt;
  write_port = λ t. done tt;
  read_port = λ t. pending;
  open_file = λ t path. done tt;
  read_file = λ t path. done [];
  open_log = λ t path. done tt;
  apply_logging = λ t. done tt;
  open_register = λ t. done tt;
  write_register = λ t. done 5;
  read_register = λ t. done tt;
  remove_register = λ t. done tt;
  rounds = 2;
}

-- A clock that goes on with everything that is done, a second each time.
abbrev pub advancing : Trace → ℕ
advancing t = (110 + length t) * 10 ^ 9

-- The values that a query of the card and one of the connection find.
abbrev answers : Text → List Text → JsonLookup
answers pin (key ∷ []) = string pin
answers pin keys = string (text "available")

-- What stands for the packages: a SIM card in some state, and an output that names an address.
abbrev pub crates_with : Text → Crates
crates_with pin = record {
  gsm7_write = λ s. some s;
  gsm7_read = λ b. some b;
  hex_encode = λ b. b;
  hex_decode = λ s. some (5 ∷ []);
  capture = λ pattern s. some (text "https://x");
  json_string = λ s keys. answers pin keys;
  toml = λ s. inr (text "no toml");
}

abbrev pub crates : Crates
crates = crates_with (text "disabled")

-- ===== src/Effects/World.antt =====
-- The world that the daemon acts on. `Host` is the operating system, the network, the modem and
-- the commands that the daemon starts: arbitrary functions of all that was done before.
use telco_vecchio.Prelude.{ℕ, Bool, List, ◌∷◌, Option, none, some, ◌⊎◌, if◌then◌else◌}
use telco_vecchio.Text.{Text, Bytes}
use telco_vecchio.Config.{IpAddr, Configuration}
use telco_vecchio.Effects.{
  Error, from_io, from_surge, Outcome, ok, err, panic, blocked, Exec, on_elapsed,
}

-- What the daemon does, as far as others can notice it.
pub data Effect : Type 0 where
  clock_read : Effect
  timer : ℕ → Effect
  slept : ℕ → Effect
  pinged : IpAddr → Effect
  resolved : Text → Effect
  -- a child process: its program and arguments
  spawned : List Text → Effect
  -- one `write` that offers a text to a child's standard input
  stdin_written : ℕ → Text → Effect
  waited : ℕ → Effect
  stdout_read : ℕ → ℕ → Effect
  stderr_read : ℕ → ℕ → Effect
  killed : ℕ → Effect
  -- an ssh process comes under the daemon's care, and is dropped, which kills it
  held : ℕ → Effect
  dropped : ℕ → Effect
  -- a task that waits some seconds and then starts a command
  scheduled : ℕ → List Text → Effect
  port_opened : Text → Effect
  port_written : Text → Effect
  port_read : ℕ → Effect
  file_opened : Text → Effect
  file_read : Text → Effect
  directory_created : Text → Effect
  -- the rolling file of the log: its path, the size of a file and the number of old ones
  log_opened : Text → ℕ → ℕ → Effect
  logging_started : Effect
  printed : Text → Effect
  forked : Effect
  register_opened register_written register_read register_removed : Effect

-- The latest effect stands first.
abbrev pub Trace : Type 0
Trace = List Effect

-- The register file of init.rs on disk; `garbled` is content that is not UTF-8.
pub data Register : Type 0 where
  absent : Register
  holds : Text → Register
  garbled : Register

pub record World : Type 0 where
  pub trace : Trace
  pub register : Register

pub data Reply (A : Type 0) : Type 0 where
  done : A → Reply A
  failed : Text → Reply A
  pending : Reply A

-- `fork::daemon`: which of the two processes goes on here, if there are two.
pub data Fork : Type 0 where
  parent child fork_failed : Fork

-- A child process, with whether its piped ends are at hand.
pub record Child : Type 0 where
  pub pid : ℕ
  pub stdin : Bool
  pub stdout : Bool
  pub stderr : Bool

pub record Output : Type 0 where
  pub success : Bool
  pub stdout : Bytes

pub record Host : Type 0 where
  -- nanoseconds since 1970
  pub clock : Trace → ℕ
  pub ping : Trace → IpAddr → Reply (Unit {0})
  pub lookup_host : Trace → Text → Reply (List IpAddr)
  pub spawn : Trace → List Text → Reply Child
  -- how many of the offered bytes one `write` takes
  pub write_stdin : Trace → ℕ → Reply ℕ
  pub wait_with_output : Trace → ℕ → Reply Output
  pub read_stdout : Trace → ℕ → Reply Bytes
  pub read_stderr : Trace → ℕ → Reply Bytes
  pub kill : Trace → ℕ → Reply (Unit {0})
  pub open_port : Trace → Text → Reply (Unit {0})
  pub write_port : Trace → Reply (Unit {0})
  pub read_port : Trace → Reply Bytes
  pub open_file : Trace → Text → Reply (Unit {0})
  pub read_file : Trace → Text → Reply Bytes
  pub open_log : Trace → Text → Reply (Unit {0})
  -- `apply` of the logging library
  pub apply_logging : Trace → Reply (Unit {0})
  pub fork : Trace → Fork
  pub open_register : Trace → Reply (Unit {0})
  -- how many bytes one `write` takes
  pub write_register : Trace → Reply ℕ
  pub read_register : Trace → Reply (Unit {0})
  pub remove_register : Trace → Reply (Unit {0})
  -- how many reads in a row a waiting loop can make before its deadline
  pub rounds : ℕ

-- `json["a"]["b"].get::<String>()` on a text that is to be parsed first
pub data JsonLookup : Type 0 where
  not_json : JsonLookup
  missing_key : JsonLookup
  not_a_string : JsonLookup
  string : Text → JsonLookup

-- The packages gsm7, hex, regex-lite, tinyjson and toml.
pub record Crates : Type 0 where
  pub gsm7_write : Text → Option Bytes
  pub gsm7_read : Bytes → Option Text
  pub hex_encode : Bytes → Text
  pub hex_decode : Text → Option Bytes
  -- the one capture of a regular expression in a text
  pub capture : Text → Text → Option Text
  pub json_string : Text → List Text → JsonLookup
  pub toml : Text → Configuration ⊎ Text

abbrev pub emit : Effect → World → World
emit e w = record w { trace = e ∷ w.trace }

abbrev pub answer {ℓ} : {S : Type ℓ} {A : Type 0} → (Text → Error) → Reply A → Exec S A
answer wrap (done a) s = (ok a, s)
answer wrap (failed t) s = (err (wrap t), s)
answer wrap pending s = (blocked, s)

-- An effect, and the host's reply to it.
abbrev pub perform : {A : Type 0} → Effect → (Trace → Reply A) → Exec World A
perform e reply w = answer from_io (reply w.trace) (emit e w)

abbrev pub note : Effect → Exec World (Unit {0})
note e w = (ok tt, emit e w)

-- `tokio::time::timeout` of some seconds; an elapsed deadline becomes the given result.
abbrev pub timeout {ℓ} : {A : Type ℓ} → ℕ → Outcome A → Exec World A → Exec World A
timeout secs r m w = let (x, w') = m (emit (timer secs) w) in (on_elapsed r x, w')

-- `surge_ping::ping`
abbrev pub ping : Host → IpAddr → Exec World (Unit {0})
ping host ip w = answer from_surge (host.ping w.trace ip) (emit (pinged ip) w)

abbrev pub unwrap {ℓ κ} : {S : Type ℓ} {A : Type κ} → Option A → Exec S A
unwrap none s = (panic, s)
unwrap (some a) s = (ok a, s)

abbrev pub ok_or {ℓ κ} : {S : Type ℓ} {A : Type κ} → Error → Option A → Exec S A
ok_or e none s = (err e, s)
ok_or e (some a) s = (ok a, s)

-- an early return with an error
abbrev pub fail_if {ℓ} : {S : Type ℓ} → Bool → Error → Exec S (Unit {0})
fail_if b e s = (if b then err e else ok tt, s)

-- A child process that its owner drops at every end but a success.
abbrev pub drop_unless_ok {ℓ} : {A : Type ℓ} → ℕ → Outcome A × World → Outcome A × World
drop_unless_ok pid (ok a, w) = (ok a, w)
drop_unless_ok pid (err e, w) = (err e, emit (dropped pid) w)
drop_unless_ok pid (panic, w) = (panic, emit (dropped pid) w)
drop_unless_ok pid (blocked, w) = (blocked, w)

abbrev pub holding {ℓ} : {A : Type ℓ} → ℕ → Exec World A → Exec World A
holding pid m w = drop_unless_ok pid (m w)

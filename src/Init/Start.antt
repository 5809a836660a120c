-- ===== src/Init/Start.antt =====
-- `read_config_file`, and `init`: the configuration, a reliable status, the modem, and the message
-- to the registered user.
use telco_vecchio.Prelude.{
  ℕ, zero, suc, Bool, true, false, Option, none, some, ◌-◌, ◌++◌, ◌⊎◌, inl, inr,
}
use telco_vecchio.Text.{Text, text}
use telco_vecchio.Text.Utf8.{from_utf8}
use telco_vecchio.Config.{User, Configuration}
use telco_vecchio.Effects.{
  io_error, configuration_parsing_error, Exec, blocked, pure, raise, crash, lift, ◌>>=◌, ◌>>◌,
  match_result,
}
use telco_vecchio.Effects.World.{
  World, Host, Crates, slept, file_opened, file_read, directory_created, log_opened,
  logging_started, perform, note, ok_or,
}
use telco_vecchio.Email.{invalid_utf8}
use telco_vecchio.Sms.Modem
use telco_vecchio.Sms.Send.{send_sms}
use telco_vecchio.Status.{
  DeviceStatus, sim_locked, lte_not_connected, internet_unreachable, ready, Status,
}
use telco_vecchio.Status.Display.{show_status}
use telco_vecchio.Status.Qmi.{verify_sim_pin}
use telco_vecchio.Status.Resolve.{qmi_provider, get_status}
use telco_vecchio.Context.{Context, new_context}
use telco_vecchio.Context.Expiry.{ignore}
use telco_vecchio.Init.Register.{lookup_init_listener}

abbrev pub configuration_file : Text
configuration_file = text "/etc/telco-vecchio.conf"

abbrev pub share_directory : Text
share_directory = text "/usr/share/telco-vecchio"

abbrev pub log_directory : Text
log_directory = text "/tmp/log/telco-vecchio"

-- `device_status != SimLocked && device_status != LteNotConnected`
abbrev pub can_text : DeviceStatus → Bool
can_text sim_locked = false
can_text lte_not_connected = false
can_text internet_unreachable = true
can_text ready = true

abbrev pub log_file : Text
log_file = text "log"

abbrev pub log_file_max_size : ℕ
log_file_max_size = 10000

abbrev pub max_log_files : ℕ
max_log_files = 2

-- `format!("{}/{}", LOG_DIRECTORY, LOG_FILE)`
abbrev pub log_path : Text
log_path = log_directory ++ (text "/" ++ log_file)

-- `m.unwrap()`
abbrev pub unwrapped : Exec World (Unit {0}) → Exec World (Unit {0})
unwrapped m = match_result m pure (λ _. crash)

abbrev pub parsed : Configuration ⊎ Text → Exec World Configuration
parsed (inl c) = pure c
parsed (inr e) = raise (configuration_parsing_error e)

-- `match status.device_status`
unfoldable pub on_device :
    DeviceStatus → Exec World Status → Exec World Status → Exec World Status → Exec World Status
on_device sim_locked unlocking waiting stopping = unlocking
on_device lte_not_connected unlocking waiting stopping = waiting
on_device internet_unreachable unlocking waiting stopping = waiting
on_device ready unlocking waiting stopping = stopping

module _ (host : Host) where
  -- The log's writer: a rolling file for a daemon, and otherwise the standard output.
  unfoldable pub open_writer : Bool → Exec World (Unit {0})
  open_writer true = unwrapped (
      perform (log_opened log_path log_file_max_size (max_log_files - 1))
        (λ t. host.open_log t log_path))
  open_writer false = pure tt

  unfoldable pub start_logging : Bool → Exec World (Unit {0})
  start_logging is_daemon =
      open_writer is_daemon >> unwrapped (perform logging_started host.apply_logging)

module _ (host : Host) (crates : Crates) where
  unfoldable pub read_config_file : Text → Exec World Configuration
  read_config_file path = do
    perform (file_opened path) (λ t. host.open_file t path)
    bytes ← perform (file_read path) (λ t. host.read_file t path)
    content ← ok_or (io_error invalid_utf8) (from_utf8 bytes)
    parsed (crates.toml content)

  -- The SIM card is locked: the PIN is sent, the first time.
  unfoldable pub unlock :
      Configuration → (Status → Exec World Status) → Bool → Status → Exec World Status
  unlock c again false s = do
    verify_sim_pin host (qmi_provider c) c.sms_config.sim_pin
    s' ← get_status host crates c
    again s'
  unlock c again true s = pure s

  -- The network is missing: the status is asked for again, as often as the counter says.
  unfoldable pub retry :
      Configuration → (ℕ → Status → Exec World Status) → ℕ → Status → Exec World Status
  retry c again zero s = pure s
  retry c again (suc counter) s = do
    note (slept c.init_config.init_status_refresh_period_seconds)
    s' ← get_status host crates c
    again counter s'

  -- The loop of `init`, with its counter and whether the PIN was sent. A round that does not end it
  -- sends the PIN for the first time or counts down, so `counter + 2` rounds are enough.
  unfoldable pub status_loop : Configuration → ℕ → ℕ → Bool → Status → Exec World Status
  status_loop c zero counter unlocked s = lift blocked
  status_loop c (suc fuel) counter unlocked s =
      on_device s.device_status (unlock c (status_loop c fuel counter true) unlocked s)
        (retry c (λ n. status_loop c fuel n unlocked) counter s) (pure s)

  unfoldable pub reliable_status : Configuration → Exec World Status
  reliable_status c = do
    s ← get_status host crates c
    let retries = c.init_config.init_status_refresh_max_retry
    status_loop c (suc (suc retries)) retries false s

  unfoldable pub notify_listener : Configuration → Status → Option User → Exec World (Unit {0})
  notify_listener c s none = pure tt
  notify_listener c s (some user) = ignore (
      send_sms host crates c.sms_config
        (record { to = user.phone_number; msg = text "Telco-Vecchio is up.\n" ++ show_status s }))

  unfoldable pub start_texting : Configuration → Status → Bool → Exec World (Unit {0})
  start_texting c s false = pure tt
  start_texting c s true = do
    Modem.init host c.sms_config
    listener ← lookup_init_listener host c
    notify_listener c s listener

  unfoldable pub init : Bool → Exec World Context
  init is_daemon = do
    note (directory_created log_directory)
    note (directory_created share_directory)
    start_logging host is_daemon
    c ← read_config_file configuration_file
    s ← reliable_status c
    start_texting c s (can_text s.device_status)
    pure (new_context c s)

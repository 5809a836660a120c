-- ===== src/Init/Effects.antt =====
-- The start leaves the account of the ssh processes alone.
use telco_vecchio.Prelude.{ℕ, zero, suc, Bool, true, false, Option, none, some, ◌++◌}
use telco_vecchio.Text.{Text, Bytes, text}
use telco_vecchio.Text.Utf8.{from_utf8}
use telco_vecchio.Config.{User, Configuration}
use telco_vecchio.Effects.{io_error, panic, blocked, Exec}
use telco_vecchio.Effects.World.{
  World, Host, Crates, slept, file_opened, file_read, directory_created, log_opened,
  logging_started, perform, note, ok_or,
}
use telco_vecchio.Effects.Only.{
  Only-pure, Only-lift, Only-perform, Only-ok_or, Only-note, Only-map, Only-bind, Only-match,
}
use telco_vecchio.Email.{invalid_utf8}
use telco_vecchio.Sms.{OutgoingSms}
use telco_vecchio.Sms.Modem
use telco_vecchio.Sms.Modem.{open_serial_port, expect}
use telco_vecchio.Sms.Send.{send_sms}
use telco_vecchio.Sms.Effects.{send_sms-UsesPort}
use telco_vecchio.Status.{Status}
use telco_vecchio.Status.Display.{show_status}
use telco_vecchio.Status.Qmi.{verify_sim_pin}
use telco_vecchio.Status.Effects.{get_status-Probes}
use telco_vecchio.Status.Resolve.{qmi_provider, get_status}
use telco_vecchio.Context.{new_context}
use telco_vecchio.Context.Survivors.{port-IsNeutral, ignore-IsNeutral}
use telco_vecchio.Request.Balance.{probe-IsNeutral}
use telco_vecchio.Init.Register.{lookup_init_listener}
use telco_vecchio.Init.Start.{
  configuration_file, share_directory, log_directory, can_text, read_config_file, unlock, retry,
  status_loop, reliable_status, notify_listener, start_texting, init, log_path, log_file_max_size,
  unwrapped, open_writer, start_logging,
}
use telco_vecchio.Init.Neutral.{
  Neutral, on_device-IsNeutral, verify-IsNeutral, modem-UsesPort, lookup-IsNeutral,
  parsed-IsNeutral,
}

module _ (host : Host) (crates : Crates) where
  status-IsNeutral : (c : Configuration) → Neutral (get_status host crates c)
  status-IsNeutral c = Only-map (probe-IsNeutral c) (get_status-Probes c host crates)

  unlock-IsNeutral :
      (c : Configuration) (again : Status → Exec World Status) (unlocked : Bool) (s : Status)
      → ((s' : Status) → Neutral (again s'))
      → Neutral (unlock host crates c again unlocked s)
  unfolding unlock
  unlock-IsNeutral c again true s h = Only-pure s
  unlock-IsNeutral c again false s h =
      Only-bind (verify_sim_pin host (qmi_provider c) c.sms_config.sim_pin)
        (verify-IsNeutral host (qmi_provider c) c.sms_config.sim_pin)
        λ _. Only-bind (get_status host crates c) (status-IsNeutral c) λ s'. h s'

  retry-IsNeutral :
      (c : Configuration) (again : ℕ → Status → Exec World Status) (counter : ℕ) (s : Status)
      → ((k : ℕ) (s' : Status) → Neutral (again k s'))
      → Neutral (retry host crates c again counter s)
  unfolding retry
  retry-IsNeutral c again zero s h = Only-pure s
  retry-IsNeutral c again (suc counter) s h =
      Only-bind (note (slept c.init_config.init_status_refresh_period_seconds))
        (Only-note (slept c.init_config.init_status_refresh_period_seconds) tt)
        λ _. Only-bind (get_status host crates c) (status-IsNeutral c) λ s'. h counter s'

  status_loop-IsNeutral :
      (c : Configuration) (fuel counter : ℕ) (unlocked : Bool) (s : Status)
      → Neutral (status_loop host crates c fuel counter unlocked s)
  unfolding status_loop
  status_loop-IsNeutral c zero counter unlocked s = Only-lift blocked
  status_loop-IsNeutral c (suc fuel) counter unlocked s =
      on_device-IsNeutral s.device_status _ _ _
        (unlock-IsNeutral c (status_loop host crates c fuel counter true) unlocked s
          (status_loop-IsNeutral c fuel counter true))
        (retry-IsNeutral c (λ n. status_loop host crates c fuel n unlocked) counter s
          (λ k s'. status_loop-IsNeutral c fuel k unlocked s'))
        (Only-pure s)

  pub reliable_status-IsNeutral : (c : Configuration) → Neutral (reliable_status host crates c)
  unfolding reliable_status
  reliable_status-IsNeutral c =
      let retries = c.init_config.init_status_refresh_max_retry in
      Only-bind (get_status host crates c) (status-IsNeutral c)
        λ s. status_loop-IsNeutral c (suc (suc retries)) retries false s

  notify-IsNeutral :
      (c : Configuration) (s : Status) (user : Option User)
      → Neutral (notify_listener host crates c s user)
  unfolding notify_listener
  notify-IsNeutral c s none = Only-pure tt
  notify-IsNeutral c s (some user) =
      let sms : OutgoingSms = record {
        to = user.phone_number;
        msg = text "Telco-Vecchio is up.\n" ++ show_status s;
      } in
      ignore-IsNeutral (send_sms host crates c.sms_config sms)
        (Only-map port-IsNeutral (send_sms-UsesPort host crates c.sms_config sms))

  pub texting-IsNeutral :
      (c : Configuration) (s : Status) (b : Bool) → Neutral (start_texting host crates c s b)
  unfolding start_texting
  texting-IsNeutral c s false = Only-pure tt
  texting-IsNeutral c s true =
      Only-bind (Modem.init host c.sms_config) (Only-map port-IsNeutral (modem-UsesPort host c))
        λ _.
          Only-bind (lookup_init_listener host c) (lookup-IsNeutral host c)
            λ listener. notify-IsNeutral c s listener

  read_config_file-IsNeutral : (path : Text) → Neutral (read_config_file host crates path)
  unfolding read_config_file
  read_config_file-IsNeutral path =
      Only-bind (perform (file_opened path) (λ t. host.open_file t path))
        (Only-perform (file_opened path) (λ t. host.open_file t path) tt)
        λ _.
          Only-bind (perform (file_read path) (λ t. host.read_file t path))
            (Only-perform (file_read path) (λ t. host.read_file t path) tt)
            λ (bytes : Bytes).
              Only-bind (ok_or (io_error invalid_utf8) (from_utf8 bytes))
                (Only-ok_or (io_error invalid_utf8) (from_utf8 bytes))
                λ content. parsed-IsNeutral (crates.toml content)

  unwrapped-IsNeutral : (m : Exec World (Unit {0})) → Neutral m → Neutral (unwrapped m)
  unwrapped-IsNeutral m n = Only-match m n (λ a. Only-pure a) (λ _. Only-lift panic)

  open_writer-IsNeutral : (is_daemon : Bool) → Neutral (open_writer host is_daemon)
  unfolding open_writer
  open_writer-IsNeutral true =
      unwrapped-IsNeutral _
        (Only-perform (log_opened log_path log_file_max_size 1) (λ t. host.open_log t log_path) tt)
  open_writer-IsNeutral false = Only-pure tt

  pub start_logging-IsNeutral : (is_daemon : Bool) → Neutral (start_logging host is_daemon)
  unfolding start_logging
  start_logging-IsNeutral is_daemon =
      Only-bind (open_writer host is_daemon) (open_writer-IsNeutral is_daemon)
        λ _. unwrapped-IsNeutral _ (Only-perform logging_started host.apply_logging tt)

  -- The start takes no ssh process and drops none.
  pub init-IsNeutral : (is_daemon : Bool) → Neutral (init host crates is_daemon)
  unfolding init
  init-IsNeutral is_daemon =
      Only-bind (note (directory_created log_directory))
        (Only-note (directory_created log_directory) tt)
        λ _.
          Only-bind (note (directory_created share_directory))
            (Only-note (directory_created share_directory) tt)
            λ _. Only-bind (start_logging host is_daemon) (start_logging-IsNeutral is_daemon) λ _.
              Only-bind (read_config_file host crates configuration_file)
                (read_config_file-IsNeutral configuration_file)
                λ c. Only-bind (reliable_status host crates c) (reliable_status-IsNeutral c) λ s.
                  Only-bind (start_texting host crates c s (can_text s.device_status))
                    (texting-IsNeutral c s (can_text s.device_status))
                    λ _. Only-pure (new_context c s)

-- ===== src/Status/Effects.antt =====
-- What the search for a status does to the world: pings, look-ups, waits and two queries of the
-- modem.
use telco_vecchio.Prelude.{
  ℕ, zero, suc, ◌≡◌, refl, ◌⊎◌, inl, inr, Bool, true, false, not, List, [], ◌∷◌, ltb, ◌==◌, nat_eq,
  list_eq,
}
use telco_vecchio.Prelude.Map.{Map, insert}
use telco_vecchio.Text.{Text, text}
use telco_vecchio.Text.Utf8.{from_utf8}
use telco_vecchio.Config.{IpAddr, Application, Configuration}
use telco_vecchio.Effects.{
  system_command_execution_error, ping_error, qmi_response_parsing_error, err, panic, blocked, Exec,
}
use telco_vecchio.Effects.World.{
  Effect, pinged, resolved, slept, waited, spawned, World, Host, Crates, JsonLookup, not_json,
  missing_key, not_a_string, string, Child, Output, ping, note, fail_if,
}
use telco_vecchio.Effects.Only.{
  Only, Only-pure, Only-lift, Only-answer, Only-perform, Only-note, Only-ok_or, Only-if, Only-bind,
  Only-match,
}
use telco_vecchio.Status.{
  sim_locked, lte_not_connected, reachable, unreachable, ServiceStatus, is_ready,
}
use telco_vecchio.Status.Qmi.{
  QmiProvider, qmi_line, qmi_command, json_field, pin_is_locked, after_error, internet_loop,
  is_connected_to_internet, is_connected_to_lte, is_sim_locked,
}
use telco_vecchio.Status.Resolve.{
  qmi_provider, ping_first, ping_domain, reaches, applications_from, services_status,
  get_device_status, get_status,
}

-- The configured command of the modem, on the configured device.
abbrev pub modem_line : Configuration → Text → List Text → List Text
modem_line c command args =
    c.sms_config.qmi_binary_file ∷ text "-d" ∷ c.sms_config.qmi_modem_device ∷ command ∷ args

-- The two queries of the modem.
abbrev pub IsQuery : Configuration → List Text → Type 0
IsQuery c line =
    (line ≡ modem_line c (text "--get-system-info") [])
    ⊎ (line ≡ modem_line c (text "--uim-get-sim-state") [])

abbrev pub IsProbe : Configuration → Effect → Type 0
IsProbe c (pinged ip) = Unit
IsProbe c (resolved domain) =
    (domain ≡ c.email_config.server_domain) ⊎ (domain ≡ c.ssh_config.service_host)
IsProbe c (slept n) = n ≡ 2
IsProbe c (waited pid) = Unit
IsProbe c (spawned line) = IsQuery c line
IsProbe c _ = ⊥

after_error-Only :
    {P : Effect → Type 0} (m : Exec World Bool) (b : Bool)
    → P (slept 2)
    → Only P m
    → Only P (after_error m b)
unfolding after_error
after_error-Only m true p x = Only-pure false
after_error-Only m false p x = Only-bind (note (slept 2)) (Only-note (slept 2) p) λ _. x

module _ (host : Host) where
  ping-Only : {P : Effect → Type 0} (ip : IpAddr) → P (pinged ip) → Only P (ping host ip)
  ping-Only ip p = Only-answer (pinged ip) ping_error (λ w. host.ping w.trace ip) p

  internet_loop-Only :
      {P : Effect → Type 0} (fuel i : ℕ) (ip : IpAddr)
      → P (pinged ip)
      → P (slept 2)
      → Only P (internet_loop host fuel i ip)
  unfolding internet_loop
  internet_loop-Only zero i ip p q = Only-lift blocked
  internet_loop-Only (suc fuel) i ip p q =
      Only-match (ping host ip) (ping-Only ip p) (λ _. Only-pure true)
        λ _. after_error-Only _ (ltb 3 (suc i)) q (internet_loop-Only fuel (suc i) ip p q)

  -- The check of the connection pings and sleeps.
  pub is_connected_to_internet-Only :
      {P : Effect → Type 0} (ip : IpAddr)
      → P (pinged ip)
      → P (slept 2)
      → Only P (is_connected_to_internet host ip)
  unfolding is_connected_to_internet
  is_connected_to_internet-Only ip p q = internet_loop-Only 4 0 ip p q

module _ (config : Configuration) where
  abbrev Probes : {A : Type 0} → Exec World A → Type 0
  Probes = Only (IsProbe config)

  pin_is_locked-Probes : (s : Text) → Probes (pin_is_locked s)
  unfolding pin_is_locked
  pin_is_locked-Probes s = Only-if (s == text "disabled") _ _ (Only-pure _) (
      Only-if (s == text "verified") _ _ (Only-pure _)
        (Only-if (s == text "not_verified") _ _ (Only-pure _) (Only-lift (err _))))

  json_field-Probes : (l : JsonLookup) (parse read : Text) → Probes (json_field l parse read)
  unfolding json_field
  json_field-Probes not_json parse read = Only-lift (err (qmi_response_parsing_error parse))
  json_field-Probes missing_key parse read = Only-lift panic
  json_field-Probes not_a_string parse read = Only-lift (err (qmi_response_parsing_error read))
  json_field-Probes (string s) parse read = Only-pure s

  module _ (host : Host) where
    ping-Probes : (ip : IpAddr) → Probes (ping host ip)
    ping-Probes ip = ping-Only host ip tt

    qmi_command-Probes :
        (q : QmiProvider) (command : Text)
        → IsQuery config (qmi_line q command [])
        → Probes (qmi_command host q command [])
    unfolding qmi_command
    qmi_command-Probes q command p =
        Only-bind _ (Only-perform (spawned _) (λ t. host.spawn t (qmi_line q command [])) p)
          λ (child : Child).
            Only-bind _
              (Only-perform (waited child.pid) (λ t. host.wait_with_output t child.pid) tt)
              λ (output : Output).
                Only-bind (fail_if (not output.success) system_command_execution_error)
                  (Only-lift _)
                  λ _. Only-ok_or system_command_execution_error (from_utf8 output.stdout)

    is_connected_to_internet-Probes : (ip : IpAddr) → Probes (is_connected_to_internet host ip)
    is_connected_to_internet-Probes ip = is_connected_to_internet-Only host ip tt refl

    ping_first-Probes : (ips : List IpAddr) → Probes (ping_first host ips)
    unfolding ping_first
    ping_first-Probes [] = Only-lift (err _)
    ping_first-Probes (ip ∷ ips) = ping-Probes ip

    ping_domain-Probes :
        (domain : Text) → IsProbe config (resolved domain) → Probes (ping_domain host domain)
    unfolding ping_domain
    ping_domain-Probes domain p =
        Only-bind _ (Only-perform (resolved domain) (λ t. host.lookup_host t domain) p)
          λ ips. ping_first-Probes ips

    reaches-Probes : (m : Exec World (Unit {0})) → Probes m → Probes (reaches m)
    reaches-Probes m p = Only-match m p (λ _. Only-pure reachable) (λ _. Only-pure unreachable)

    applications_from-Probes :
        (apps : List Application) (m : Map Text ServiceStatus)
        → Probes (applications_from host apps m)
    unfolding applications_from
    applications_from-Probes [] m = Only-pure m
    applications_from-Probes (app ∷ apps) m =
        Only-bind (reaches (ping host app.host_ip)) (reaches-Probes _ (ping-Probes app.host_ip))
          λ s. applications_from-Probes apps (insert app.name s m)

    services_status-Probes : (b : Bool) → Probes (services_status host config b)
    unfolding services_status
    services_status-Probes false = Only-pure _
    services_status-Probes true =
        Only-bind (reaches (ping_domain host config.email_config.server_domain))
          (reaches-Probes _ (ping_domain-Probes config.email_config.server_domain (inl refl)))
          λ email.
            Only-bind (reaches (ping_domain host config.ssh_config.service_host))
              (reaches-Probes _ (ping_domain-Probes config.ssh_config.service_host (inr refl)))
              λ ssh. Only-pure (email, ssh)

  module _ (host : Host) (crates : Crates) where
    is_sim_locked-Probes : Probes (is_sim_locked host crates (qmi_provider config))
    unfolding is_sim_locked
    is_sim_locked-Probes =
        Only-bind _ (qmi_command-Probes host (qmi_provider config) _ (inr refl)) λ state.
          Only-bind (json_field _ _ _) (json_field-Probes _ _ _) λ s. pin_is_locked-Probes s

    is_connected_to_lte-Probes : Probes (is_connected_to_lte host crates (qmi_provider config))
    unfolding is_connected_to_lte
    is_connected_to_lte-Probes =
        Only-bind _ (qmi_command-Probes host (qmi_provider config) _ (inl refl))
          λ info. Only-bind (json_field _ _ _) (json_field-Probes _ _ _) λ s. Only-pure _

    get_device_status-Probes : Probes (get_device_status host crates config)
    unfolding get_device_status
    get_device_status-Probes = Only-bind _ is_sim_locked-Probes λ locked.
        Only-if locked _ _ (Only-pure sim_locked) (
          Only-bind _ is_connected_to_lte-Probes λ lte.
            Only-if (not lte) _ _ (Only-pure lte_not_connected) (
              Only-bind _ (is_connected_to_internet-Probes host config.email_config.internet_host)
                λ internet. Only-pure _))

    -- The search for a status pings addresses, looks up the names of the mail server and of the ssh
    -- service, sleeps two seconds, and runs the configured command of the modem on the configured
    -- device for one of its two queries; it does nothing else.
    pub get_status-Probes : Probes (get_status host crates config)
    unfolding get_status
    get_status-Probes = Only-bind _ get_device_status-Probes λ device.
        Only-bind _ (services_status-Probes host (is_ready device)) λ services.
          Only-bind _ (applications_from-Probes host config.applications []) λ m. Only-pure _

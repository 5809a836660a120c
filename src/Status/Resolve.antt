-- ===== src/Status/Resolve.antt =====
-- `get_status`: the device, then the services, then every application of the configuration.
use telco_vecchio.Prelude.{Bool, true, false, not, List, [], ◌∷◌, if◌then◌else◌, nat_eq, list_eq}
use telco_vecchio.Prelude.Map.{Map, insert}
use telco_vecchio.Text.{Text}
use telco_vecchio.Config.{Application, Configuration}
use telco_vecchio.Effects.{domain_name_resolution_error, Exec, pure, raise, ◌>>=◌, match_result}
use telco_vecchio.Effects.World.{World, Host, Crates, resolved, perform, ping}
use telco_vecchio.Status.{
  ServiceStatus, reachable, unreachable, DeviceStatus, sim_locked, lte_not_connected,
  internet_unreachable, ready, Status, is_ready,
}
use telco_vecchio.Status.Qmi.{
  QmiProvider, is_connected_to_internet, is_connected_to_lte, is_sim_locked,
}

abbrev pub qmi_provider : Configuration → QmiProvider
qmi_provider c = record {
  qmi_binary = c.sms_config.qmi_binary_file;
  qmi_device = c.sms_config.qmi_modem_device;
}

-- `if let Ok(()) = m.await { Reachable } else { Unreachable }`
abbrev pub reaches : Exec World (Unit {0}) → Exec World ServiceStatus
reaches m = match_result m (λ _. pure reachable) (λ _. pure unreachable)

module _ (host : Host) where
  -- the first address that a domain resolves to
  unfoldable pub ping_first : List Text → Exec World (Unit {0})
  ping_first [] = raise domain_name_resolution_error
  ping_first (ip ∷ ips) = ping host ip

  unfoldable pub ping_domain : Text → Exec World (Unit {0})
  ping_domain domain = do
    ips ← perform (resolved domain) (λ t. host.lookup_host t domain)
    ping_first ips

  unfoldable pub applications_from :
      List Application → Map Text ServiceStatus → Exec World (Map Text ServiceStatus)
  applications_from [] m = pure m
  applications_from (app ∷ apps) m = do
    status ← reaches (ping host app.host_ip)
    applications_from apps (insert app.name status m)

  unfoldable pub services_status : Configuration → Bool → Exec World (ServiceStatus × ServiceStatus)
  services_status c false = pure (unreachable, unreachable)
  services_status c true = do
    email ← reaches (ping_domain c.email_config.server_domain)
    ssh ← reaches (ping_domain c.ssh_config.service_host)
    pure (email, ssh)

module _ (host : Host) (crates : Crates) where
  unfoldable pub get_device_status : Configuration → Exec World DeviceStatus
  get_device_status c = do
    locked ← is_sim_locked host crates (qmi_provider c)
    if locked then pure sim_locked else do
      lte ← is_connected_to_lte host crates (qmi_provider c)
      if not lte then pure lte_not_connected else do
        internet ← is_connected_to_internet host c.email_config.internet_host
        pure (if not internet then internet_unreachable else ready)

  unfoldable pub get_status : Configuration → Exec World Status
  get_status c = do
    device ← get_device_status c
    services ← services_status host c (is_ready device)
    applications ← applications_from host c.applications []
    pure (record {
      device_status = device;
      email_service_status = services.0;
      ssh_tunnel_service_status = services.1;
      applications_status = applications;
    })

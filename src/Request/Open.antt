-- ===== src/Request/Open.antt =====
-- `open <application>`: the checks in their order, the tunnel, the mail and the new entry.
pub mod Parts
pub mod Ends
use telco_vecchio.Prelude.{
  ℕ, ◌%◌, ◌^◌, Bool, true, false, not, ◌&&◌, Option, none, some, [], ◌∷◌, ◌++◌, leb, if◌then◌else◌,
  ◌==◌, nat_eq, list_eq, find, length,
}
use telco_vecchio.Prelude.Map.{Map, lookup}
use telco_vecchio.Text.{Text, text}
use telco_vecchio.Text.Decimal.{u32_mod}
use telco_vecchio.Config.{User, Application, SshConfig}
use telco_vecchio.Effects.{
  Error, invalid_request_error, invalid_status, Exec, pure, raise, ◌>>=◌, ◌>>◌,
}
use telco_vecchio.Effects.World.{World, Host, Crates, ok_or, fail_if, holding}
use telco_vecchio.Email.{send_email}
use telco_vecchio.Ssh.{setup_ssh_tunnel}
use telco_vecchio.Status.{ServiceStatus, reachable, unreachable, Status, is_reachable, is_ready}
use telco_vecchio.Context.{
  is_tunnel_of, max_reached, Tunnel, Context, State, act, now, insert_tunnel,
}
use telco_vecchio.Request.Message.{
  device_not_ready, email_unreachable, ssh_unreachable, unknown_application,
  application_unreachable, too_many_tunnels, already_open, tunnel_open, url_mail,
}

-- `get(name).unwrap_or(&Unreachable)`
abbrev pub status_or : Option ServiceStatus → ServiceStatus
status_or none = unreachable
status_or (some s) = s

-- `values().max_by(creation_date)`, which returns the last of several greatest
unfoldable pub latest_from : Tunnel → Map ℕ Tunnel → Tunnel
latest_from t [] = t
latest_from t ((id, u) ∷ m) = latest_from (if leb t.creation_date u.creation_date then u else t) m

unfoldable pub latest : Map ℕ Tunnel → Option Tunnel
latest [] = none
latest ((id, t) ∷ m) = some (latest_from t m)

abbrev pub fail_if_open {ℓ} : {S : Type ℓ} → Option (ℕ × Tunnel) → Exec S (Unit {0})
fail_if_open none = pure tt
fail_if_open (some (id, t)) = raise (invalid_request_error (already_open id))

-- The checks on the context, which return the application.
unfoldable pub check_open {ℓ} : {S : Type ℓ} → Context → User → Text → Exec S Application
check_open c user name = do
  fail_if (not (is_ready c.status.device_status))
      (invalid_status (device_not_ready c.status.device_status))
  fail_if (not (is_reachable c.status.email_service_status)) (invalid_status email_unreachable)
  fail_if (not (is_reachable c.status.ssh_tunnel_service_status)) (invalid_status ssh_unreachable)
  app ←
      ok_or (invalid_request_error (unknown_application name))
        (find (λ a. a.name == name) c.configuration.applications)
  fail_if (not (is_reachable (status_or (lookup name c.status.applications_status))))
      (invalid_status (application_unreachable c.status.device_status))
  fail_if (max_reached c.configuration.ssh_config.tunnel_max_number (length c.tunnels))
      (invalid_status (too_many_tunnels (latest c.tunnels)))
  fail_if_open (find (is_tunnel_of user.name app.name) c.tunnels)
  pure app

-- `context.tunnels.len() as u32`
abbrev pub new_id : Context → ℕ
new_id c = length c.tunnels % u32_mod

module _ (host : Host) where
  unfoldable pub record_tunnel : User → Application → ℕ → Exec State Text
  record_tunnel user app process s =
      let id = new_id s.context in
      (do
        creation_date ← act (now host)
        insert_tunnel id (record {
          user = user.name;
          application = app.name;
          process = process;
          creation_date = creation_date;
        })
        pure (tunnel_open id))
        s

module _ (host : Host) (crates : Crates) where
  -- The tunnel's process, with its address sent to the user.
  unfoldable pub start_tunnel : Context → User → Application → Exec World ℕ
  start_tunnel c user app = do
    tunnel ← setup_ssh_tunnel host crates c.configuration.ssh_config app.host_ip app.port
    holding tunnel.1 (
        send_email host c.configuration.email_config (record {
          to = user.email;
          title = text "Tunnel URL";
          msg = url_mail user app (tunnel.0 ++ app.end_point);
        }))
    pure tunnel.1

  unfoldable pub open_request : User → Text → Exec State Text
  open_request user name s =
      (do
        app ← check_open s.context user name
        process ← act (start_tunnel s.context user app)
        record_tunnel host user app process)
        s

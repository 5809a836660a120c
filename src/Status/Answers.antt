-- ===== src/Status/Answers.antt =====
-- What a status says: the services of a device that is not ready, and the configured applications.
use telco_vecchio.Prelude.{
  ◌≡◌, ◌≢◌, Bool, Bool-cases, ◌⊎◌, inl, inr, true, false, none, List, [], ◌∷◌, arith, ◌==◌, nat_eq,
  list_eq, ==-refl, ==-eq, All,
}
use telco_vecchio.Prelude.Map
use telco_vecchio.Prelude.Map.{Map, lookup, insert}
use telco_vecchio.Text.{Text}
use telco_vecchio.Config.{Application, Configuration}
use telco_vecchio.Effects.{ok}
use telco_vecchio.Effects.Keeps.{continue-ok}
use telco_vecchio.Effects.World.{World, Host, Crates, ping}
use telco_vecchio.Status.{ServiceStatus, unreachable, Status, is_ready}
use telco_vecchio.Status.Resolve.{
  reaches, applications_from, services_status, get_device_status, get_status,
}

-- The map has the application's name.
abbrev pub IsListed : Map Text ServiceStatus → Application → Type 0
IsListed m app = lookup app.name m ≢ none

listed_self :
    (m : Map Text ServiceStatus) (name : Text) (s : ServiceStatus)
    → lookup name (insert name s m) ≢ none
listed_self m name s = rw (Map.lookup-insert_self name s m) (λ e. cc)

insert-IsListed :
    (m : Map Text ServiceStatus) (name : Text) (s : ServiceStatus) (app : Application)
    → IsListed m app
    → IsListed (insert name s m) app
insert-IsListed m name s app h = elim (Bool-cases (name == app.name)) [
  | inl same ↦ rw (← ==-eq name app.name same) (listed_self m name s)
  | inr other ↦ λ e. h (ground (arith, ==-refl name, Map.lookup-insert_ne name app.name s m))
]

module _ (host : Host) where
  applications_from-IsListed :
      (apps : List Application) (m : Map Text ServiceStatus) (w : World)
      {m' : Map Text ServiceStatus}
      → (applications_from host apps m w).0 ≡ ok m'
      → ((app : Application) → IsListed m app → IsListed m' app) × All (IsListed m') apps
  unfolding applications_from
  applications_from-IsListed [] m w {m'} h =
      let same : m ≡ m' = ground arith in (λ app l. rw (← same) l, tt)
  applications_from-IsListed (app ∷ apps) m w h =
      let pinged = reaches (ping host app.host_ip) w in
      let (s, e, rest) = continue-ok pinged.0 _ pinged.1 h in
      let (kept, listed) = applications_from-IsListed apps (insert app.name s m) pinged.1 rest in
      (
        λ other l. kept other (insert-IsListed m app.name s other l),
        (kept app (listed_self m app.name s), listed),
      )

  services-unready :
      (c : Configuration) (b : Bool) (w : World) {email ssh : ServiceStatus}
      → b ≡ false
      → (services_status host c b w).0 ≡ ok (email, ssh)
      → (email ≡ unreachable) × (ssh ≡ unreachable)
  unfolding services_status
  services-unready c b w e h = ground arith

module _ (host : Host) (crates : Crates) where
  -- A status that is found names every configured application, and has both services unreachable unless
  -- the device is ready.
  pub get_status_complete :
      (c : Configuration) (w : World) {s : Status}
      → (get_status host crates c w).0 ≡ ok s
      → All (IsListed s.applications_status) c.applications
        × ((is_ready s.device_status ≡ true)
            ⊎ ((s.email_service_status ≡ unreachable)
                × (s.ssh_tunnel_service_status ≡ unreachable)))
  unfolding get_status
  get_status_complete c w {s} h =
      let device = get_device_status host crates c w in
      let (d, e1, h1) = continue-ok device.0 _ device.1 h in
      let services = services_status host c (is_ready d) device.1 in
      let (ss, e2, h2) = continue-ok services.0 _ services.1 h1 in
      let apps = applications_from host c.applications [] services.1 in
      let (m, e3, h3) = continue-ok apps.0 _ apps.1 h2 in
      let same : s ≡ record {
        device_status = d;
        email_service_status = ss.0;
        ssh_tunnel_service_status = ss.1;
        applications_status = m;
      } =
        ground arith in
      rw same (
        (applications_from-IsListed host c.applications [] services.1 e3).1,
        elim (Bool-cases (is_ready d)) [
          | inl ready_now ↦ inl ready_now
          | inr not_ready ↦ inr (services-unready host c (is_ready d) device.1 not_ready e2)
        ],
      )

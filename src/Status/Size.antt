-- ===== src/Status/Size.antt =====
-- How long a printed status can be.
use telco_vecchio.Prelude.{
  ℕ, ◌+◌, ◌≤◌, ◌≡◌, refl, Bool-cases, inl, inr, List, [], ◌∷◌, arith, ◌==◌, nat_eq, list_eq,
}
use telco_vecchio.Prelude.Map.{Map, insert}
use telco_vecchio.Text.{Text, len, len-append}
use telco_vecchio.Config.{Application, Configuration}
use telco_vecchio.Effects.{ok}
use telco_vecchio.Effects.Keeps.{continue-ok}
use telco_vecchio.Effects.World.{World, Host, Crates, ping}
use telco_vecchio.Status.{
  ServiceStatus, reachable, unreachable, DeviceStatus, sim_locked, lte_not_connected,
  internet_unreachable, ready, Status, is_ready,
}
use telco_vecchio.Status.Display.{show_device, show_service, show_applications, show_status}
use telco_vecchio.Status.Resolve.{
  reaches, applications_from, services_status, get_device_status, get_status,
}

-- A name with its status and a dash.
abbrev entries_size : Map Text ServiceStatus → ℕ
entries_size [] = 0
entries_size ((name, s) ∷ m) = len name + 7 + entries_size m

-- The same for all the configured applications.
abbrev pub names_size : List Application → ℕ
names_size [] = 0
names_size (app ∷ apps) = len app.name + 7 + names_size apps

len-show_service : (s : ServiceStatus) → len (show_service s) ≡ 2
unfolding show_service len
len-show_service reachable = refl
len-show_service unreachable = refl

len-show_device : (d : DeviceStatus) → len (show_device d) ≤ 29
unfolding show_device len
len-show_device sim_locked = omega arith
len-show_device lte_not_connected = omega arith
len-show_device internet_unreachable = omega arith
len-show_device ready = omega arith

len-show_applications : (m : Map Text ServiceStatus) → len (show_applications m) ≤ entries_size m
unfolding show_applications len
len-show_applications [] = omega arith
len-show_applications ((name, s) ∷ []) = rw (len-append, len-show_service s) (omega arith)
len-show_applications ((name, s) ∷ e ∷ m) =
    simp (len-append, len-show_service) (omega (arith, len-show_applications (e ∷ m)))

len-show_status : (s : Status) → len (show_status s) ≤ 81 + entries_size s.applications_status
unfolding show_status len
len-show_status s =
    simp (len-append, len-show_service)
      (omega (arith, len-show_device s.device_status, len-show_applications s.applications_status))

insert-size :
    (name : Text) (s : ServiceStatus) (m : Map Text ServiceStatus)
    → entries_size (insert name s m) ≤ len name + 7 + entries_size m
insert-size name s [] = omega arith
insert-size name s ((n, old) ∷ m) = elim (Bool-cases (n == name)) [
  | inl same ↦ rw same (omega arith)
  | inr other ↦ rw other (omega (arith, insert-size name s m))
]

module _ (host : Host) where
  applications_from-size :
      (apps : List Application) (m : Map Text ServiceStatus) (w : World)
      {m' : Map Text ServiceStatus}
      → (applications_from host apps m w).0 ≡ ok m'
      → entries_size m' ≤ entries_size m + names_size apps
  unfolding applications_from
  applications_from-size [] m w {m'} h =
      let same : m ≡ m' = ground arith in rw (← same) (omega arith)
  applications_from-size (app ∷ apps) m w {m'} h =
      let pinged = reaches (ping host app.host_ip) w in
      let (s, e, rest) = continue-ok pinged.0 _ pinged.1 h in
      omega (
        arith,
        applications_from-size apps (insert app.name s m) pinged.1 {m' = m'} rest,
        insert-size app.name s m,
      )

module _ (host : Host) (crates : Crates) where
  get_status-size :
      (c : Configuration) (w : World) {s : Status}
      → (get_status host crates c w).0 ≡ ok s
      → entries_size s.applications_status ≤ names_size c.applications
  unfolding get_status
  get_status-size c w {s} h =
      let device = get_device_status host crates c w in
      let (d, _, h1) = continue-ok device.0 _ device.1 h in
      let services = services_status host c (is_ready d) device.1 in
      let (ss, _, h2) = continue-ok services.0 _ services.1 h1 in
      let apps = applications_from host c.applications [] services.1 in
      let (m, e3, h3) = continue-ok apps.0 _ apps.1 h2 in
      let same : s.applications_status ≡ m = ground arith in
      rw same (omega (arith, applications_from-size host c.applications [] services.1 {m' = m} e3))

  -- The printed status of a configuration has at most 81 bytes, and for each application its name's
  -- bytes and 7 more.
  pub show_status-size :
      (c : Configuration) (w : World) {s : Status}
      → (get_status host crates c w).0 ≡ ok s
      → len (show_status s) ≤ 81 + names_size c.applications
  show_status-size c w {s} h = omega (arith, len-show_status s, get_status-size c w {s = s} h)

-- ===== src/Status/Ends.antt =====
-- The end of the search for a status, with one or with an error.
use telco_vecchio.Prelude.{
  ◌≢◌, refl, Bool, true, false, not, List, [], ◌∷◌, if◌then◌else◌, ◌==◌, nat_eq, list_eq, ℕ,
}
use telco_vecchio.Text.{Text, text}
use telco_vecchio.Text.Utf8.{from_utf8}
use telco_vecchio.Config.{Configuration}
use telco_vecchio.Effects.{from_io, system_command_execution_error, Exec}
use telco_vecchio.Effects.Ends.{Ends, continue-Ends, answer-Ends, fail_if-Ends, ok_or-Ends}
use telco_vecchio.Effects.World.{
  Trace, World, Host, Crates, JsonLookup, not_json, missing_key, not_a_string, string, Output,
  pending, spawned, waited, emit, answer, fail_if,
}
use telco_vecchio.Status.{is_ready}
use telco_vecchio.Status.Qmi.{
  QmiProvider, qmi_line, json_field, pin_is_locked, qmi_command, is_connected_to_internet,
  is_connected_to_lte, is_sim_locked,
}
use telco_vecchio.Status.Queries.{Says, qmi_command_sound}
use telco_vecchio.Status.Effects.{modem_line}
use telco_vecchio.Status.Network.{
  Network, Succeeds, services-Succeeds, applications-Succeeds, internet-Succeeds,
}
use telco_vecchio.Status.Resolve.{
  qmi_provider, services_status, applications_from, get_device_status, get_status,
}

-- Where the text that the command printed is JSON, it has the value asked for.
abbrev pub HasKey : Host → Crates → List Text → List Text → Type 0
HasKey host crates line keys =
    (t : Trace) (said : Text) → Says host line t said → crates.json_string said keys ≢ missing_key

-- Commands, pings and look-ups come back, with an answer or an error, and where a query of the modem
-- prints JSON, it prints the value asked for.
pub record StatusReturns (host : Host) (crates : Crates) (c : Configuration) : Type 0 where
  pub network : Network host
  pub spawns : (t : Trace) (line : List Text) → host.spawn t line ≢ pending
  pub waits : (t : Trace) (pid : ℕ) → host.wait_with_output t pid ≢ pending
  pub card :
      HasKey host crates (modem_line c (text "--uim-get-sim-state") []) (text "pin1_status" ∷ [])
  pub connection :
      HasKey host crates
        (modem_line c (text "--get-system-info") [])
        (text "lte" ∷ text "service_status" ∷ [])

Succeeds-Ends : {A : Type 0} (m : Exec World A) → Succeeds m → (w : World) → Ends (m w).0
Succeeds-Ends m x w = let (a, e) = x w in rw e tt

json_field-Ends :
    (l : JsonLookup) (parse read : Text) (w : World)
    → l ≢ missing_key
    → Ends (json_field l parse read w).0
unfolding json_field
json_field-Ends not_json parse read w h = tt
json_field-Ends missing_key parse read w h = absurd (h refl)
json_field-Ends not_a_string parse read w h = tt
json_field-Ends (string s) parse read w h = tt

if-Ends :
    {A : Type 0} (b : Bool) (m n : Exec World A) (w : World)
    → Ends (m w).0
    → Ends (n w).0
    → Ends ((if b then m else n) w).0
if-Ends true m n w x y = x
if-Ends false m n w x y = y

pin_is_locked-Ends : (s : Text) (w : World) → Ends (pin_is_locked s w).0
unfolding pin_is_locked
pin_is_locked-Ends s w =
    if-Ends (s == text "disabled") _ _ w tt
      (if-Ends (s == text "verified") _ _ w tt (if-Ends (s == text "not_verified") _ _ w tt tt))

module _ (host : Host) (crates : Crates) (c : Configuration)
    (back : StatusReturns host crates c) where
  qmi_command-Ends :
      (q : QmiProvider) (command : Text) (args : List Text) (w : World)
      → Ends (qmi_command host q command args w).0
  unfolding qmi_command
  qmi_command-Ends q command args w =
      let line = qmi_line q command args in
      let begun = emit (spawned line) w in
      let started = answer {S = World} from_io (host.spawn w.trace line) begun in
      continue-Ends started.0 _ started.1
        (answer-Ends from_io (host.spawn w.trace line) begun (back.spawns w.trace line))
        λ child _.
          let v = started.1 in
          let ended =
            answer {S = World} from_io (host.wait_with_output v.trace child.pid)
              (emit (waited child.pid) v) in
          continue-Ends ended.0 _ ended.1
            (answer-Ends from_io (host.wait_with_output v.trace child.pid) _
              (back.waits v.trace child.pid))
            λ (output : Output) _.
              let e = system_command_execution_error in
              let checked = fail_if (not output.success) e ended.1 in
              continue-Ends checked.0 _ checked.1 (fail_if-Ends (not output.success) e ended.1)
                λ _ _. ok_or-Ends e (from_utf8 output.stdout) checked.1

  locked-Ends : (w : World) → Ends (is_sim_locked host crates (qmi_provider c) w).0
  unfolding is_sim_locked
  locked-Ends w =
      let command = text "--uim-get-sim-state" in
      let asked = qmi_command host (qmi_provider c) command [] w in
      continue-Ends asked.0 _ asked.1 (qmi_command-Ends (qmi_provider c) command [] w) λ said e.
        let says = qmi_command_sound host (qmi_provider c) command [] w e in
        let field = json_field (crates.json_string said (text "pin1_status" ∷ [])) _ _ asked.1 in
        continue-Ends field.0 _ field.1
          (json_field-Ends _ _ _ asked.1 (back.card w.trace said says))
          λ s _. pin_is_locked-Ends s field.1

  lte-Ends : (w : World) → Ends (is_connected_to_lte host crates (qmi_provider c) w).0
  unfolding is_connected_to_lte
  lte-Ends w =
      let command = text "--get-system-info" in
      let asked = qmi_command host (qmi_provider c) command [] w in
      continue-Ends asked.0 _ asked.1 (qmi_command-Ends (qmi_provider c) command [] w) λ said e.
        let says = qmi_command_sound host (qmi_provider c) command [] w e in
        let field =
          json_field (crates.json_string said (text "lte" ∷ text "service_status" ∷ [])) _ _
            asked.1 in
        continue-Ends field.0 _ field.1
          (json_field-Ends _ _ _ asked.1 (back.connection w.trace said says)) λ s _. tt

  device-Ends : (w : World) → Ends (get_device_status host crates c w).0
  unfolding get_device_status
  device-Ends w =
      let card = is_sim_locked host crates (qmi_provider c) w in
      continue-Ends card.0 _ card.1 (locked-Ends w) λ locked _. if-Ends locked _ _ card.1 tt (
        let lte = is_connected_to_lte host crates (qmi_provider c) card.1 in
        continue-Ends lte.0 _ lte.1 (lte-Ends card.1) λ connected _.
          if-Ends (not connected) _ _ lte.1 tt (
            let ip = c.email_config.internet_host in
            let internet = is_connected_to_internet host ip lte.1 in
            continue-Ends internet.0 _ internet.1
              (Succeeds-Ends (is_connected_to_internet host ip)
                (internet-Succeeds host back.network ip) lte.1)
              λ _ _. tt))

  -- The search for a status comes to an end.
  pub get_status-Ends : (w : World) → Ends (get_status host crates c w).0
  unfolding get_status
  get_status-Ends w =
      let device = get_device_status host crates c w in
      continue-Ends device.0 _ device.1 (device-Ends w) λ d _.
        let services = services_status host c (is_ready d) device.1 in
        continue-Ends services.0 _ services.1
          (Succeeds-Ends (services_status host c (is_ready d))
            (services-Succeeds host back.network c (is_ready d)) device.1)
          λ _ _.
            let apps = applications_from host c.applications [] services.1 in
            continue-Ends apps.0 _ apps.1
              (Succeeds-Ends (applications_from host c.applications [])
                (applications-Succeeds host back.network c.applications []) services.1)
              λ _ _. tt

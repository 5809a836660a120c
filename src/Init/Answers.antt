-- ===== src/Init/Answers.antt =====
-- The start comes to a status if the host's commands and pings come back.
use telco_vecchio.Prelude.{
  ◌≡◌, refl, ◌⊎◌, inl, inr, true, false, not, List, [], ◌∷◌, if◌then◌else◌, ◌==◌, nat_eq, list_eq,
  eq_list,
}
use telco_vecchio.Text.{Text, text}
use telco_vecchio.Config.{Configuration}
use telco_vecchio.Effects.{ok}
use telco_vecchio.Effects.World.{Trace, World, Host, Crates, string}
use telco_vecchio.Status.{
  Status, is_ready, sim_locked, lte_not_connected, internet_unreachable, ready,
}
use telco_vecchio.Status.Qmi.{
  json_field, pin_is_locked, qmi_command, verify_sim_pin, is_connected_to_internet,
  is_connected_to_lte, is_sim_locked,
}
use telco_vecchio.Status.Queries.{Says, qmi_command_complete}
use telco_vecchio.Status.Effects.{modem_line}
use telco_vecchio.Status.Network.{
  Network, Succeeds, succeed, then_succeed, if-Succeeds, applications-Succeeds, services-Succeeds,
  internet-Succeeds,
}
use telco_vecchio.Status.Resolve.{
  qmi_provider, applications_from, services_status, get_device_status, get_status,
}
use telco_vecchio.Init.Start.{reliable_status}
use telco_vecchio.Init.Termination.{reliable_status_returns}

-- Started at any time, the command ends with success and prints a text of this kind.
abbrev pub Tells : Host → List Text → (Text → Type 0) → Type 0
Tells host line Kind = (t : Trace) → (said : Text) × Says host line t said × Kind said

-- The modem's command answers the two queries with JSON texts that hold the values asked for, the state
-- of the card being one of the three that the daemon knows, and accepts the PIN; pings and name look-ups
-- come back. Nothing is said of other commands and of other texts.
pub record Answers (host : Host) (crates : Crates) (c : Configuration) : Type 0 where
  pub card : Tells host (modem_line c (text "--uim-get-sim-state") []) (λ said.
      (p : Text) × (crates.json_string said (text "pin1_status" ∷ []) ≡ string p)
      × ((p ≡ text "disabled") ⊎ ((p ≡ text "verified") ⊎ (p ≡ text "not_verified"))))
  pub connection : Tells host (modem_line c (text "--get-system-info") []) (λ said.
      (p : Text) × (crates.json_string said (text "lte" ∷ text "service_status" ∷ []) ≡ string p))
  pub pin :
      Tells host
        (modem_line c (text "--uim-verify-pin1") (c.sms_config.sim_pin ∷ []))
        (λ said. Unit {0})
  pub network : Network host

pin-Succeeds :
    (p : Text)
    → (p ≡ text "disabled") ⊎ ((p ≡ text "verified") ⊎ (p ≡ text "not_verified"))
    → Succeeds (pin_is_locked p)
unfolding pin_is_locked eq_list
pin-Succeeds p (inl h) w = (false, rw h refl)
pin-Succeeds p (inr (inl h)) w = (false, rw h refl)
pin-Succeeds p (inr (inr h)) w = (true, rw h refl)

module _ (host : Host) (crates : Crates) (c : Configuration) (answers : Answers host crates c) where
  locked-Succeeds : Succeeds (is_sim_locked host crates (qmi_provider c))
  unfolding is_sim_locked json_field
  locked-Succeeds w =
      let command = text "--uim-get-sim-state" in
      let (said, says, (p, e, which)) = answers.card w.trace in
      let asked = qmi_command host (qmi_provider c) command [] w in
      let (b, e') = pin-Succeeds p which asked.1 in
      (b, rw (qmi_command_complete host (qmi_provider c) command [] w says) (rw e e'))

  lte-Succeeds : Succeeds (is_connected_to_lte host crates (qmi_provider c))
  unfolding is_connected_to_lte json_field
  lte-Succeeds w =
      let (said, says, (p, e)) = answers.connection w.trace in
      (
        p == text "available",
        rw (qmi_command_complete host (qmi_provider c) (text "--get-system-info") [] w says)
            (rw e refl),
      )

  device-Succeeds : Succeeds (get_device_status host crates c)
  unfolding get_device_status
  device-Succeeds =
      then_succeed (is_sim_locked host crates (qmi_provider c)) _ locked-Succeeds λ locked.
        if-Succeeds locked _ _ (succeed sim_locked) (
          then_succeed (is_connected_to_lte host crates (qmi_provider c)) _ lte-Succeeds λ lte.
            if-Succeeds (not lte) _ _ (succeed lte_not_connected) (
              then_succeed (is_connected_to_internet host c.email_config.internet_host) _
                (internet-Succeeds host answers.network c.email_config.internet_host)
                λ internet. succeed (if not internet then internet_unreachable else ready)))

  -- A status is found.
  status-Succeeds : Succeeds (get_status host crates c)
  unfolding get_status
  status-Succeeds = then_succeed (get_device_status host crates c) _ device-Succeeds λ device.
      then_succeed (services_status host c (is_ready device)) _
        (services-Succeeds host answers.network c (is_ready device))
        λ services.
          then_succeed (applications_from host c.applications []) _
            (applications-Succeeds host answers.network c.applications []) λ applications. succeed _

  verify-ok : (w : World) → (verify_sim_pin host (qmi_provider c) c.sms_config.sim_pin w).0 ≡ ok tt
  unfolding verify_sim_pin
  verify-ok w =
      let (said, says, _) = answers.pin w.trace in
      let pin = c.sms_config.sim_pin ∷ [] in
      rw (qmi_command_complete host (qmi_provider c) (text "--uim-verify-pin1") pin w says) refl

  -- If the modem's command answers each of the two queries of its state with success and a JSON text that
  -- holds the value asked for, the state of the card being one of the three that the daemon knows, if it
  -- accepts the PIN, and if pings and name look-ups come back, with an answer or an error, then the
  -- start's search for a status ends with one: the rounds that the model allows for are enough.
  pub reliable_status_ends :
      (w : World) → (s : Status) × ((reliable_status host crates c w).0 ≡ ok s)
  reliable_status_ends w =
      reliable_status_returns host crates c
        (record { status = status-Succeeds; verified = verify-ok }) w

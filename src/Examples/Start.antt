-- ===== src/Examples/Start.antt =====
-- The status of the device and the start.
use telco_vecchio.Prelude.{
  inr, if◌then◌else◌, inl, ◌+◌, ◌≤◌, ◌≡◌, refl, ◌⊎◌, true, false, some, [], ◌∷◌, ◌++◌, All, eq_list,
  ◌==◌, nat_eq, list_eq, find,
}
use telco_vecchio.Text.{Text, text, len, width}
use telco_vecchio.Text.Utf8.{from_utf8}
use telco_vecchio.Effects.{ok}
use telco_vecchio.Effects.Only.{Only}
use telco_vecchio.Effects.World.{
  Trace, done, Crates, spawned, string, not_json, World, Host, absent, failed,
}
use telco_vecchio.Status.{Status, is_ready, unreachable, internet_unreachable}
use telco_vecchio.Status.Qmi.{
  json_field, pin_is_locked, after_error, qmi_command, internet_loop, is_connected_to_internet,
  is_connected_to_lte, is_sim_locked,
}
use telco_vecchio.Status.Resolve.{applications_from, services_status, get_device_status, get_status}
use telco_vecchio.Status.Internet.{four_pings, is_connected_to_internet-gives_up}
use telco_vecchio.Status.Answers.{IsListed, get_status_complete}
use telco_vecchio.Status.Effects.{IsProbe, get_status-Probes}
use telco_vecchio.Init.Start.{reliable_status}
use telco_vecchio.Init.Pin.{pins, reliable_status-pins}
use telco_vecchio.Init.Answers.{Answers, reliable_status_ends}
use telco_vecchio.Init.Register.{register_init_listener, lookup_init_listener}
use telco_vecchio.Init.Reboot.{Works, lookup-register_init_listener}
use telco_vecchio.Daemon.Round.{periodic}
use telco_vecchio.Daemon.Reboots.{commands, rebooting_if, periodic-commands}
use telco_vecchio.Examples.{configuration, alice, host, crates, crates_with, idle}

-- No ping is answered.
abbrev cut_off : Host
cut_off = record host { ping = λ t ip. failed (text "no route") }

abbrev offline : Status
offline = record {
  device_status = internet_unreachable;
  email_service_status = unreachable;
  ssh_tunnel_service_status = unreachable;
  applications_status = (text "camera", unreachable) ∷ [];
}

gave_up : (is_connected_to_internet cut_off (text "8.8.8.8") idle.world).0 ≡ ok false
unfolding is_connected_to_internet internet_loop after_error
gave_up = refl

is_connected_to_internet-gives_up_example :
    (is_connected_to_internet cut_off (text "8.8.8.8") idle.world).1.trace
    ≡ four_pings (text "8.8.8.8") ++ idle.world.trace
is_connected_to_internet-gives_up_example =
    is_connected_to_internet-gives_up cut_off (text "8.8.8.8") idle.world gave_up

found_offline : (get_status cut_off crates configuration idle.world).0 ≡ ok offline
unfolding get_status get_device_status is_sim_locked is_connected_to_lte is_connected_to_internet
    internet_loop after_error qmi_command json_field pin_is_locked services_status applications_from
    from_utf8 eq_list
found_offline = refl

get_status_complete_example :
    All (IsListed offline.applications_status) configuration.applications
    × ((is_ready offline.device_status ≡ true)
        ⊎ ((offline.email_service_status ≡ unreachable)
            × (offline.ssh_tunnel_service_status ≡ unreachable)))
get_status_complete_example =
    get_status_complete cut_off crates configuration idle.world {s = offline} found_offline

get_status-Probes_example : Only (IsProbe configuration) (get_status cut_off crates configuration)
get_status-Probes_example = get_status-Probes configuration cut_off crates

-- The card stays locked, whatever PIN is sent.
reliable_status-pins_example :
    pins (reliable_status host (crates_with (text "not_verified")) configuration idle.world).1.trace
    ≤ pins idle.world.trace + 1
reliable_status-pins_example =
    reliable_status-pins host (crates_with (text "not_verified")) configuration idle.world

abbrev card_json : Text
card_json = text "{\"pin1_status\":\"verified\"}"

abbrev info_json : Text
info_json = text "{\"lte\":{\"service_status\":\"available\"}}"

-- What the modem's command prints for one of its own commands.
abbrev printed_for : Text → Text
printed_for command =
    if command == text "--uim-get-sim-state"
    then card_json
    else if command == text "--get-system-info"
    then info_json
    else []

-- The command that was started last prints its answer.
abbrev spoken : Trace → Text
spoken (spawned (binary ∷ d ∷ device ∷ command ∷ args) ∷ t) = printed_for command
spoken t = []

abbrev talking : Host
talking = record cut_off {
  wait_with_output = λ t pid. done (record { success = true; stdout = spoken t });
}

-- Of all texts only the two answers are parsed.
abbrev parsing : Crates
parsing = record crates {
  json_string = λ s keys.
      if s == card_json
      then string (text "verified")
      else if s == info_json
      then string (text "available")
      else not_json;
}

answering : Answers talking parsing configuration
unfolding from_utf8 eq_list
answering = record {
  card = λ t. (
    card_json,
    record { child = _; output = _; launched = refl; ended = refl; well = refl; decodes = refl },
    (text "verified", refl, inr (inl refl)),
  );
  connection = λ t. (
    info_json,
    record { child = _; output = _; launched = refl; ended = refl; well = refl; decodes = refl },
    (text "available", refl),
  );
  pin = λ t. (
    [],
    record { child = _; output = _; launched = refl; ended = refl; well = refl; decodes = refl },
    tt,
  );
  network = record { pings = λ t ip e. cc; resolves = λ t domain e. cc };
}

reliable_status_ends_example :
    (s : Status) × ((reliable_status talking parsing configuration idle.world).0 ≡ ok s)
reliable_status_ends_example =
    reliable_status_ends talking parsing configuration answering idle.world

works : Works host (text "alice")
unfolding len width
works = record { opens = λ t. refl; writes = λ t. refl; reads = λ t. refl; removes = λ t. refl }

known : find (λ u. u.name == text "alice") configuration.users ≡ some alice
unfolding eq_list
known = refl

abbrev rebooted : World
rebooted = record (idle.world) {
  register = (register_init_listener host alice idle.world).1.register;
}

lookup-register_init_listener_example :
    ((lookup_init_listener host configuration rebooted).0 ≡ ok (some alice))
    × ((lookup_init_listener host configuration rebooted).1.register ≡ absent)
lookup-register_init_listener_example =
    lookup-register_init_listener host configuration alice alice idle.world rebooted works refl
      known

periodic-commands_example :
    commands (periodic cut_off crates idle).1.world.trace
    ≡ rebooting_if false ++ commands idle.world.trace
periodic-commands_example = periodic-commands cut_off crates idle false gave_up

-- ===== src/Status/Qmi.antt =====
-- `QmiProvider`: the state of the SIM card and of the LTE connection, read from the output of the
-- modem's command, and the check of the internet connection.
use telco_vecchio.Prelude.{
  ℕ, zero, suc, Bool, true, false, List, [], ◌∷◌, ◌++◌, ltb, if◌then◌else◌, ◌==◌, nat_eq, list_eq,
}
use telco_vecchio.Text.{Text, text}
use telco_vecchio.Text.Utf8.{from_utf8}
use telco_vecchio.Config.{IpAddr}
use telco_vecchio.Effects.{
  system_command_execution_error, qmi_response_parsing_error, Exec, blocked, pure, raise, crash,
  lift, ◌>>=◌, ◌>>◌, match_result,
}
use telco_vecchio.Effects.World.{
  World, Host, Crates, JsonLookup, not_json, missing_key, not_a_string, string, spawned, waited,
  slept, perform, note, ping, ok_or, fail_if,
}
use mathlib.Core.Bool.{not}

pub record QmiProvider : Type 0 where
  pub qmi_binary : Text
  pub qmi_device : Text

-- the command line of `qmi_command`
abbrev pub qmi_line : QmiProvider → Text → List Text → List Text
qmi_line q command args = q.qmi_binary ∷ text "-d" ∷ q.qmi_device ∷ command ∷ args

-- the value that is asked of a JSON text, with the messages of the two errors
unfoldable pub json_field : JsonLookup → Text → Text → Exec World Text
json_field not_json parse read = raise (qmi_response_parsing_error parse)
json_field missing_key parse read = crash
json_field not_a_string parse read = raise (qmi_response_parsing_error read)
json_field (string s) parse read = pure s

unfoldable pub pin_is_locked : Text → Exec World Bool
pin_is_locked s =
    if s == text "disabled"
    then pure false
    else if s == text "verified"
    then pure false
    else if s == text "not_verified"
    then pure true
    else raise (qmi_response_parsing_error (text "unsupported sim status: " ++ s))

-- After an error the loop ends, or waits and goes on.
unfoldable pub after_error : Exec World Bool → Bool → Exec World Bool
after_error again true = pure false
after_error again false = note (slept 2) >> again

module _ (host : Host) where
  unfoldable pub qmi_command : QmiProvider → Text → List Text → Exec World Text
  qmi_command q command args = do
    child ←
        perform (spawned (qmi_line q command args)) (λ t. host.spawn t (qmi_line q command args))
    output ← perform (waited child.pid) (λ t. host.wait_with_output t child.pid)
    fail_if (not output.success) system_command_execution_error
    ok_or system_command_execution_error (from_utf8 output.stdout)

  unfoldable pub verify_sim_pin : QmiProvider → Text → Exec World (Unit {0})
  verify_sim_pin q pin = do qmi_command q (text "--uim-verify-pin1") (pin ∷ []); pure tt

  -- The loop of `is_connected_to_internet`, with the number of errors `i`. It ends at the fourth,
  -- so that four rounds are enough.
  unfoldable pub internet_loop : ℕ → ℕ → IpAddr → Exec World Bool
  internet_loop zero i ip = lift blocked
  internet_loop (suc fuel) i ip =
      match_result (ping host ip) (λ _. pure true)
        λ _. after_error (internet_loop fuel (suc i) ip) (ltb 3 (suc i))

  unfoldable pub is_connected_to_internet : IpAddr → Exec World Bool
  is_connected_to_internet ip = internet_loop 4 0 ip

module _ (host : Host) (crates : Crates) where
  unfoldable pub is_connected_to_lte : QmiProvider → Exec World Bool
  is_connected_to_lte q = do
    info ← qmi_command host q (text "--get-system-info") []
    service_status ←
        json_field (crates.json_string info (text "lte" ∷ text "service_status" ∷ []))
          (text "cannot parse --get-system-info response into json")
          (text "cannot read lte service status from system info")
    pure (service_status == text "available")

  unfoldable pub is_sim_locked : QmiProvider → Exec World Bool
  is_sim_locked q = do
    state ← qmi_command host q (text "--uim-get-sim-state") []
    pin_status ←
        json_field (crates.json_string state (text "pin1_status" ∷ []))
          (text "cannot parse --uim-get-sim-state response into json")
          (text "cannot read pin1_status from sim state info")
    pin_is_locked pin_status

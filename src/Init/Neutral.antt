-- ===== src/Init/Neutral.antt =====
-- The start apart from the status: the PIN, the modem and the register.
use telco_vecchio.Prelude.{refl, not, none, [], ◌∷◌, ◌⊎◌, inl, inr}
use telco_vecchio.Text.{Text, text}
use telco_vecchio.Text.Utf8.{from_utf8}
use telco_vecchio.Config.{Configuration}
use telco_vecchio.Effects.{
  configuration_parsing_error, sms_init_error, system_command_execution_error, ok, err, Exec,
}
use telco_vecchio.Effects.World.{
  World, Host, Child, Output, Register, absent, holds, garbled, spawned, waited, port_opened,
  register_opened, register_read, register_removed, perform, fail_if,
}
use telco_vecchio.Effects.Only.{
  Only, Only-pure, Only-lift, Only-perform, Only-ok_or, Only-put, Only-bind, Only-match,
}
use telco_vecchio.Sms.Modem
use telco_vecchio.Sms.Modem.{open_serial_port, expect}
use telco_vecchio.Sms.Effects.{UsesPort, map_err-Only, expect-UsesPort}
use telco_vecchio.Status.{
  Status, DeviceStatus, sim_locked, lte_not_connected, internet_unreachable, ready,
}
use telco_vecchio.Status.Qmi.{QmiProvider, qmi_line, qmi_command, verify_sim_pin}
use telco_vecchio.Context.Ledger.{IsNeutral}
use telco_vecchio.Init.Register.{
  registered_user, read_register, remove_register, lookup_existing, when_exists,
  lookup_init_listener,
}
use telco_vecchio.Init.Start.{on_device, parsed}

abbrev pub Neutral : {A : Type 0} → Exec World A → Type 0
Neutral = Only IsNeutral

pub on_device-IsNeutral :
    (d : DeviceStatus) (a b e : Exec World Status)
    → Neutral a
    → Neutral b
    → Neutral e
    → Neutral (on_device d a b e)
unfolding on_device
on_device-IsNeutral sim_locked a b e x y z = x
on_device-IsNeutral lte_not_connected a b e x y z = y
on_device-IsNeutral internet_unreachable a b e x y z = y
on_device-IsNeutral ready a b e x y z = z

module _ (host : Host) where
  pub verify-IsNeutral : (q : QmiProvider) (pin : Text) → Neutral (verify_sim_pin host q pin)
  unfolding verify_sim_pin qmi_command
  verify-IsNeutral q pin =
      let line = qmi_line q (text "--uim-verify-pin1") (pin ∷ []) in
      Only-bind (qmi_command host q (text "--uim-verify-pin1") (pin ∷ []))
        (Only-bind (perform (spawned line) (λ t. host.spawn t line))
          (Only-perform (spawned line) (λ t. host.spawn t line) tt)
          λ (child : Child).
            Only-bind (perform (waited child.pid) (λ t. host.wait_with_output t child.pid))
              (Only-perform (waited child.pid) (λ t. host.wait_with_output t child.pid) tt)
              λ (output : Output).
                Only-bind (fail_if (not output.success) system_command_execution_error)
                  (Only-lift _)
                  λ _. Only-ok_or system_command_execution_error (from_utf8 output.stdout))
        λ _. Only-pure tt

  pub modem-UsesPort : (c : Configuration) → UsesPort (Modem.init host c.sms_config)
  unfolding Modem.init
  modem-UsesPort c =
      Only-bind _
        (map_err-Only sms_init_error _ (Only-perform (port_opened c.sms_config.modem_device) _ tt))
        λ _.
          Only-bind _ (expect-UsesPort host sms_init_error (text "AT+CMGF=0\r") (text "OK"))
            λ _. expect-UsesPort host sms_init_error (text "AT+CNMI=2,2\r") (text "OK")

  found-IsNeutral : (c : Configuration) → Neutral (λ w. (ok (registered_user host c w.register), w))
  found-IsNeutral c = record { at = λ w. record { added = []; split = refl; each = tt } }

  read_register-IsNeutral : (c : Configuration) → Neutral (read_register host c)
  unfolding read_register
  read_register-IsNeutral c =
      Only-match (perform register_opened host.open_register)
        (Only-perform register_opened host.open_register tt)
        (λ _.
          Only-match (perform register_read host.read_register)
            (Only-perform register_read host.read_register tt) (λ _. found-IsNeutral c)
            (λ _. Only-pure none))
        (λ _. Only-pure none)

  lookup_existing-IsNeutral : (c : Configuration) → Neutral (lookup_existing host c)
  unfolding lookup_existing remove_register
  lookup_existing-IsNeutral c = Only-bind (read_register host c) (read_register-IsNeutral c) λ user.
      Only-bind _
        (Only-match (perform register_removed host.remove_register)
          (Only-perform register_removed host.remove_register tt) (λ _. Only-put absent)
          (λ _. Only-pure tt))
        λ _. Only-pure user

  when_exists-IsNeutral : (c : Configuration) (r : Register) → Neutral (when_exists host c r)
  unfolding when_exists
  when_exists-IsNeutral c absent = Only-pure none
  when_exists-IsNeutral c (holds content) = lookup_existing-IsNeutral c
  when_exists-IsNeutral c garbled = lookup_existing-IsNeutral c

  pub lookup-IsNeutral : (c : Configuration) → Neutral (lookup_init_listener host c)
  unfolding lookup_init_listener
  lookup-IsNeutral c = record { at = λ w. (when_exists-IsNeutral c w.register).at w }

pub parsed-IsNeutral : (r : Configuration ⊎ Text) → Neutral (parsed r)
parsed-IsNeutral (inl c) = Only-pure c
parsed-IsNeutral (inr e) = Only-lift (err (configuration_parsing_error e))

-- ===== src/Daemon/Round.antt =====
-- `run`: one round of the loop waits for a message until the refresh period is over, and answers it
-- or does the periodic work.
use telco_vecchio.Prelude.{ℕ, zero, suc, Bool, true, false, Option, none, some, [], ◌∷◌, ◌++◌}
use telco_vecchio.Text.{Text, text}
use telco_vecchio.Effects.{
  Error, sender_not_allowed, invalid_request_error, invalid_status, debug, Outcome, ok, err, panic,
  blocked, Exec, pure, crash, lift, ◌>>=◌, ◌>>◌, match_result,
}
use telco_vecchio.Effects.World.{World, Host, Crates, timer, spawned, emit, perform}
use telco_vecchio.Sms.{IncomingSms}
use telco_vecchio.Sms.Send.{send_sms}
use telco_vecchio.Sms.Receive.{wait_sms}
use telco_vecchio.Status.Qmi.{is_connected_to_internet}
use telco_vecchio.Context.{State, act}
use telco_vecchio.Context.Expiry.{ignore, clean_up_expired_tunnels}
use telco_vecchio.Request.Handle.{handle_request}

-- the answer to an error, if there is one
unfoldable pub error_response : Error → Option Text
error_response (sender_not_allowed s) = none
error_response (invalid_request_error s) = some (text "The message you sent is invalid, " ++ s)
error_response (invalid_status s) = some (text "Your request cannot be processed, " ++ s)
error_response e = some (text "An error occurred, " ++ debug e)

module _ (host : Host) (crates : Crates) where
  -- An error of the sending is only logged.
  unfoldable pub send_response : Text → Option Text → Exec State (Unit {0})
  send_response to none s = (ok tt, s)
  send_response to (some message) s =
      act
        (ignore (
          send_sms host crates s.context.configuration.sms_config
            (record { to = to; msg = message })))
        s

  unfoldable pub answer_sms : IncomingSms → Exec State (Unit {0})
  answer_sms sms =
      match_result (handle_request host crates sms.from sms.msg)
        (λ message. send_response sms.from (some message))
        (λ e. send_response sms.from (error_response e))

  unfoldable pub reboot_if : Bool → Exec World (Unit {0})
  reboot_if true = pure tt
  reboot_if false =
      ignore
        (perform (spawned (text "reboot" ∷ [])) (λ t. host.spawn t (text "reboot" ∷ [])) >> pure tt)

  unfoldable pub periodic : Exec State (Unit {0})
  periodic s =
      (do
        connected ←
            act (is_connected_to_internet host s.context.configuration.email_config.internet_host)
        act (reboot_if connected)
        clean_up_expired_tunnels host crates)
        s

  -- what the wait brought; `blocked` is the elapsed deadline
  unfoldable pub dispatch : Outcome IncomingSms → Exec State (Unit {0})
  dispatch (ok sms) = answer_sms sms
  dispatch (err e) = pure tt
  dispatch panic = crash
  dispatch blocked = periodic

  unfoldable pub round : Exec State (Unit {0})
  round s =
      let c = s.context.configuration in
      let (r, w) =
        wait_sms host crates c.sms_config
          (emit (timer c.ssh_config.tunnel_refresh_period_sec) s.world) in
      dispatch r (record s { world = w })

  -- a number of rounds of the endless loop
  unfoldable pub rounds : ℕ → Exec State (Unit {0})
  rounds zero = pure tt
  rounds (suc n) = round >> rounds n

  -- The loop of `run`, on fuel. It has no exit of its own, and no fuel is enough for it.
  unfoldable pub endless : ℕ → Exec State (Unit {0})
  endless zero = lift blocked
  endless (suc n) = round >> endless n

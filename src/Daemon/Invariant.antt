-- ===== src/Daemon/Invariant.antt =====
-- What every round of the loop keeps: the invariant of the tunnels and the account of the processes.
use telco_vecchio.Prelude.{ℕ, zero, suc, Option, none, some}
use telco_vecchio.Text.{Text}
use telco_vecchio.Effects.{Outcome, ok, err, panic, blocked}
use telco_vecchio.Effects.Keeps.{continue-keeps, settle-keeps}
use telco_vecchio.Effects.World.{Host, Crates}
use telco_vecchio.Sms.{IncomingSms}
use telco_vecchio.Status.Qmi.{is_connected_to_internet}
use telco_vecchio.Context.{State, act}
use telco_vecchio.Context.Invariant.{IsValid}
use telco_vecchio.Context.Survivors.{clean_up-IsValid}
use telco_vecchio.Request.Handle.{handle_request}
use telco_vecchio.Request.Keeps.{handle_request-IsValid}
use telco_vecchio.Daemon.Round.{
  error_response, send_response, answer_sms, reboot_if, periodic, dispatch, round, rounds,
}

abbrev Holds : State → Type 0
Holds s = IsValid s.context

module _ (host : Host) (crates : Crates) where
  send_response-IsValid :
      (to : Text) (message : Option Text) (s : State)
      → Holds s
      → Holds (send_response host crates to message s).1
  unfolding send_response
  send_response-IsValid to none s v = v
  send_response-IsValid to (some message) s v = v

  answer_sms-IsValid :
      (sms : IncomingSms) (s : State) → Holds s → Holds (answer_sms host crates sms s).1
  unfolding answer_sms
  answer_sms-IsValid sms s v =
      let handled = handle_request host crates sms.from sms.msg s in
      let v' = handle_request-IsValid host crates sms.from sms.msg s v in
      settle-keeps Holds handled.0 _ _ handled.1 v'
        (λ message. send_response-IsValid sms.from (some message) handled.1 v')
        (λ e. send_response-IsValid sms.from (error_response e) handled.1 v')

  periodic-IsValid : (s : State) → Holds s → Holds (periodic host crates s).1
  unfolding periodic
  periodic-IsValid s v =
      let ip = s.context.configuration.email_config.internet_host in
      let connected = act (is_connected_to_internet host ip) s in
      continue-keeps Holds connected.0 _ connected.1 v λ up _.
        let rebooted = act (reboot_if host crates up) connected.1 in
        continue-keeps Holds rebooted.0 _ rebooted.1 v
          λ _ _. clean_up-IsValid host crates rebooted.1 v

  dispatch-IsValid :
      (r : Outcome IncomingSms) (s : State) → Holds s → Holds (dispatch host crates r s).1
  unfolding dispatch
  dispatch-IsValid (ok sms) s v = answer_sms-IsValid sms s v
  dispatch-IsValid (err e) s v = v
  dispatch-IsValid panic s v = v
  dispatch-IsValid blocked s v = periodic-IsValid s v

  round-IsValid : (s : State) → Holds s → Holds (round host crates s).1
  unfolding round
  round-IsValid s v = dispatch-IsValid _ _ v

  -- From a context that meets the invariant, any number of rounds keeps it, whatever messages come
  -- and however the outside answers: the tunnels have distinct references below 2 ^ 32, no more
  -- than the configured number are open, no user has two to one application, and each has an owner
  -- among the configured users.
  pub rounds-IsValid :
      (n : ℕ) (s : State) → IsValid s.context → IsValid (rounds host crates n s).1.context
  unfolding rounds
  rounds-IsValid zero s v = v
  rounds-IsValid (suc n) s v =
      let first = round host crates s in
      continue-keeps Holds first.0 _ first.1 (round-IsValid s v)
        λ _ _. rounds-IsValid n first.1 (round-IsValid s v)

-- ===== src/Daemon/Balance.antt =====
-- Every round of the loop keeps the account of the ssh processes.
use telco_vecchio.Prelude.{ℕ, zero, suc, ◌≢◌, Bool, true, false, Option, none, some, [], ◌∷◌, arith}
use telco_vecchio.Text.{Text, text}
use telco_vecchio.Effects.{Error, Outcome, ok, err, panic, blocked, Exec, pure, settle, ◌>>◌}
use telco_vecchio.Effects.World.{Child, Host, Crates, timer, spawned, emit, perform}
use telco_vecchio.Effects.Only.{Only, Only-pure, Only-perform, Only-map, Only-bind}
use telco_vecchio.Sms.{IncomingSms, OutgoingSms}
use telco_vecchio.Sms.Send.{send_sms}
use telco_vecchio.Sms.Receive.{wait_sms}
use telco_vecchio.Sms.Effects.{send_sms-UsesPort}
use telco_vecchio.Sms.Effects.Reading.{wait_sms-UsesPort}
use telco_vecchio.Status.Qmi.{is_connected_to_internet}
use telco_vecchio.Status.Effects.{is_connected_to_internet-Only}
use telco_vecchio.Context.{State, act}
use telco_vecchio.Context.Expiry.{ignore}
use telco_vecchio.Context.Ledger.{Balances, IsNeutral, Only-Owes}
use telco_vecchio.Context.Survivors.{port-IsNeutral, ignore-IsNeutral, clean_up-Balances}
use telco_vecchio.Request.Handle.{handle_request}
use telco_vecchio.Context.Accounts.{
  Accounts, settled, continue-Accounts, act-Accounts, unless_blocked,
}
use telco_vecchio.Request.Balance.{handle_request-Accounts}
use telco_vecchio.Daemon.Round.{
  error_response, send_response, answer_sms, reboot_if, periodic, dispatch, round, rounds,
}

module _ (pid : ℕ) where
  settle-Accounts :
      {A B : Type 0} (r : Outcome A) (f : A → Exec State B) (g : Error → Exec State B) (s : State)
      → Accounts pid (r, s)
      → ((a : A) → Balances pid s → Accounts pid (f a s))
      → ((e : Error) → Balances pid s → Accounts pid (g e s))
      → Accounts pid (settle r f g s)
  settle-Accounts (ok a) f g s b k l = k a b
  settle-Accounts (err e) f g s b k l = l e b
  settle-Accounts panic f g s b k l = b
  settle-Accounts blocked f g s b k l = tt

  module _ (host : Host) (crates : Crates) where
    send_response-Accounts :
        (to : Text) (message : Option Text) (s : State)
        → Balances pid s
        → Accounts pid (send_response host crates to message s)
    unfolding send_response
    send_response-Accounts to none s b = b
    send_response-Accounts to (some message) s b =
        let c = s.context.configuration.sms_config in
        let sms : OutgoingSms = record { to = to; msg = message } in
        act-Accounts pid (ignore (send_sms host crates c sms)) s
          (ignore-IsNeutral (send_sms host crates c sms)
            (Only-map port-IsNeutral (send_sms-UsesPort host crates c sms)))
          b

    answer_sms-Accounts :
        (sms : IncomingSms) (s : State)
        → Balances pid s
        → Accounts pid (answer_sms host crates sms s)
    unfolding answer_sms
    answer_sms-Accounts sms s b =
        let handled = handle_request host crates sms.from sms.msg s in
        settle-Accounts handled.0 _ _ handled.1
          (handle_request-Accounts pid host crates sms.from sms.msg s b)
          (λ message. send_response-Accounts sms.from (some message) handled.1)
          (λ e. send_response-Accounts sms.from (error_response e) handled.1)

    reboot_if-IsNeutral : (connected : Bool) → Only IsNeutral (reboot_if host crates connected)
    unfolding reboot_if
    reboot_if-IsNeutral true = Only-pure tt
    reboot_if-IsNeutral false =
        let line = text "reboot" ∷ [] in
        let spawn = perform (spawned line) (λ t. host.spawn t line) in
        ignore-IsNeutral (spawn >> pure tt) (
          Only-bind spawn (Only-perform (spawned line) (λ t. host.spawn t line) tt)
            (λ (child : Child). Only-pure tt))

    periodic-Accounts : (s : State) → Balances pid s → Accounts pid (periodic host crates s)
    unfolding periodic
    periodic-Accounts s b =
        let ip = s.context.configuration.email_config.internet_host in
        let connected = act (is_connected_to_internet host ip) s in
        continue-Accounts pid connected.0 _ connected.1
          (act-Accounts pid (is_connected_to_internet host ip) s
            (is_connected_to_internet-Only host ip tt tt) b)
          λ up b'.
            let rebooted = act (reboot_if host crates up) connected.1 in
            continue-Accounts pid rebooted.0 _ rebooted.1
              (act-Accounts pid (reboot_if host crates up) connected.1 (reboot_if-IsNeutral up) b')
              λ _ b''. settled pid _ _ (clean_up-Balances host crates pid rebooted.1 b'')

    dispatch-Accounts :
        (r : Outcome IncomingSms) (s : State)
        → Balances pid s
        → Accounts pid (dispatch host crates r s)
    unfolding dispatch
    dispatch-Accounts (ok sms) s b = answer_sms-Accounts sms s b
    dispatch-Accounts (err e) s b = b
    dispatch-Accounts panic s b = b
    dispatch-Accounts blocked s b = periodic-Accounts s b

    round-Accounts : (s : State) → Balances pid s → Accounts pid (round host crates s)
    unfolding round
    round-Accounts s b =
        let c = s.context.configuration in
        let w = emit (timer c.ssh_config.tunnel_refresh_period_sec) s.world in
        let received = wait_sms host crates c.sms_config w in
        dispatch-Accounts received.0 (record s { world = received.1 })
          (omega (
            arith,
            Only-Owes pid (wait_sms host crates c.sms_config)
                (Only-map port-IsNeutral (wait_sms-UsesPort host crates c.sms_config)) w,
          ))

    rounds-Accounts : (n : ℕ) (s : State) → Balances pid s → Accounts pid (rounds host crates n s)
    unfolding rounds
    rounds-Accounts zero s b = b
    rounds-Accounts (suc n) s b =
        let first = round host crates s in
        continue-Accounts pid first.0 _ first.1 (round-Accounts s b)
          λ _ b'. rounds-Accounts n first.1 b'

-- If an ssh process is accounted for, so it is after any number of rounds that do not hang,
-- whatever messages come and however the outside answers: as often as it came under the daemon's
-- care, it was dropped or is held by a tunnel.
pub rounds-Balances :
    (host : Host) (crates : Crates) (pid n : ℕ) (s : State)
    → Balances pid s
    → (rounds host crates n s).0 ≢ blocked
    → Balances pid (rounds host crates n s).1
rounds-Balances host crates pid n s b =
    unless_blocked pid (rounds host crates n s) (rounds-Accounts pid host crates n s b)

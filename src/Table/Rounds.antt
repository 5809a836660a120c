-- ===== src/Table/Rounds.antt =====
-- The loop of the daemon against the table of tunnels.
use telco_vecchio.Prelude.{
  ℕ, zero, suc, ◌≡◌, refl, ◌∙◌, Option, none, some, Option-cases, inl, inr, List, [], ◌∷◌, ◌==◌,
  nat_eq, list_eq, find,
}
use mathlib.Core.Path.{subst}
use telco_vecchio.Prelude.Map
use telco_vecchio.Prelude.Map.{HasUniqueKeys}
use telco_vecchio.Text.{Text}
use telco_vecchio.Text.Words.{split_whitespace}
use telco_vecchio.Config.{User, Configuration}
use telco_vecchio.Effects.{Outcome, ok, err, panic, blocked}
use telco_vecchio.Effects.Keeps.{continue-keeps, settle-keeps}
use telco_vecchio.Effects.World.{Host, Crates, clock_read, emit, timer}
use telco_vecchio.Sms.{IncomingSms}
use telco_vecchio.Sms.Receive.{wait_sms}
use telco_vecchio.Status.Qmi.{is_connected_to_internet}
use telco_vecchio.Context.{State, act, remove_tunnel}
use telco_vecchio.Context.Expiry.{expired_ids, remove_all, clean_up_expired_tunnels}
use telco_vecchio.Request.Handle.{handle_request}
use telco_vecchio.Request.Keeps.{named}
use telco_vecchio.Daemon.Round.{
  error_response, send_response, answer_sms, reboot_if, periodic, dispatch, round, rounds,
}
use telco_vecchio.Table.{Table, view, by_user, by_expiry, History, start, request, expiry}
use telco_vecchio.Table.Moves.{erase-Steps}
use telco_vecchio.Table.Refines.{Follows, Follows-refl, Follows-trans, run_words-Follows}

History-trans : {c : Configuration} {t u v : Table} → History c t u → History c u v → History c t v
History-trans {c} {v} (start e) r = subst (λ x. History c x v) e r
History-trans (request user known s r) r' = request user known s (History-trans r r')
History-trans (expiry s r) r' = expiry s (History-trans r r')

-- A state that follows another over time.
record Records (s s' : State) : Type 0 where
  kept : s'.context.configuration ≡ s.context.configuration
  unique : HasUniqueKeys s'.context.tunnels
  history : History s.context.configuration (view s) (view s')

Records-same : (s t : State) → HasUniqueKeys s.context.tunnels → t.context ≡ s.context → Records s t
Records-same s t u e = record { kept = rw e refl; unique = rw e u; history = start (rw e refl) }

Records-trans : (s t v : State) → Records s t → Records t v → Records s v
Records-trans s t v f g = record {
  kept = g.kept ∙ f.kept;
  unique = g.unique;
  history = History-trans f.history (subst (λ c. History c (view t) (view v)) f.kept g.history);
}

module _ (host : Host) (crates : Crates) where
  -- The references being distinct, and whatever the request says and however it ends, a request
  -- changes the table of the tunnels, if at all, by steps of the user whose number it came from.
  pub handle_request-Follows :
      (sender text : Text) (s : State) {user : User}
      → HasUniqueKeys s.context.tunnels
      → find (λ u. u.phone_number == sender) s.context.configuration.users ≡ some user
      → Follows (by_user user.name) s (handle_request host crates sender text s).1
  unfolding handle_request
  handle_request-Follows sender text s {user} u e = rw e (
      run_words-Follows host crates user text (split_whitespace text) s u
        (named s.context.configuration.users sender e))

  handle_request-Records :
      (sender text : Text) (s : State)
      → HasUniqueKeys s.context.tunnels
      → Records s (handle_request host crates sender text s).1
  unfolding handle_request
  handle_request-Records sender text s u =
      elim (Option-cases (find (λ u. u.phone_number == sender) s.context.configuration.users)) [
        | inl e ↦ rw e (Records-same s s u refl)
        | inr (user, e) ↦
            let f = handle_request-Follows sender text s {user = user} u e in
            record {
              kept = f.kept;
              unique = f.unique;
              history =
                  request user (named s.context.configuration.users sender e) f.steps (start refl);
            }
      ]

  send_response-Records :
      (to : Text) (message : Option Text) (s : State)
      → HasUniqueKeys s.context.tunnels
      → Records s (send_response host crates to message s).1
  unfolding send_response
  send_response-Records to none s u = Records-same s s u refl
  send_response-Records to (some message) s u = Records-same s _ u refl

  answer_sms-Records :
      (sms : IncomingSms) (s : State)
      → HasUniqueKeys s.context.tunnels
      → Records s (answer_sms host crates sms s).1
  unfolding answer_sms
  answer_sms-Records sms s u =
      let handled = handle_request host crates sms.from sms.msg s in
      let first = handle_request-Records sms.from sms.msg s u in
      let after : (message : Option Text)
          → Records s (send_response host crates sms.from message handled.1).1 =
        λ message.
          Records-trans s handled.1 _ first
            (send_response-Records sms.from message handled.1 first.unique) in
      settle-keeps (Records s) handled.0 _ _ handled.1 first (λ message. after (some message))
        (λ e. after (error_response e))

  remove_all-Follows :
      (ids : List ℕ) (s : State)
      → HasUniqueKeys s.context.tunnels
      → Follows by_expiry s (remove_all ids s).1
  unfolding remove_all remove_tunnel
  remove_all-Follows [] s u = Follows-refl s u
  remove_all-Follows (id ∷ ids) s u =
      let u' = Map.erase-HasUniqueKeys id s.context.tunnels u in
      Follows-trans s (remove_tunnel id s).1 _
        (record { kept = refl; unique = u'; steps = erase-Steps id s.context.tunnels u })
        (remove_all-Follows ids (remove_tunnel id s).1 u')

  clean_up-Records :
      (s : State)
      → HasUniqueKeys s.context.tunnels
      → Records s (clean_up_expired_tunnels host crates s).1
  unfolding clean_up_expired_tunnels
  clean_up-Records s u =
      let found =
        expired_ids host crates s.context.configuration (host.clock s.world.trace) s.context.tunnels
          (emit clock_read s.world) in
      let here : State = record s { world = found.1 } in
      continue-keeps (Records s) found.0 _ here (Records-same s here u refl) λ ids _.
        let f = remove_all-Follows ids here u in
        record { kept = f.kept; unique = f.unique; history = expiry f.steps (start refl) }

  periodic-Records :
      (s : State) → HasUniqueKeys s.context.tunnels → Records s (periodic host crates s).1
  unfolding periodic
  periodic-Records s u =
      let ip = s.context.configuration.email_config.internet_host in
      let connected = act (is_connected_to_internet host ip) s in
      continue-keeps (Records s) connected.0 _ connected.1 (Records-same s connected.1 u refl)
        λ up _.
          let rebooted = act (reboot_if host crates up) connected.1 in
          let same = Records-same s rebooted.1 u refl in
          continue-keeps (Records s) rebooted.0 _ rebooted.1 same
            λ _ _. Records-trans s rebooted.1 _ same (clean_up-Records rebooted.1 u)

  dispatch-Records :
      (r : Outcome IncomingSms) (s : State)
      → HasUniqueKeys s.context.tunnels
      → Records s (dispatch host crates r s).1
  unfolding dispatch
  dispatch-Records (ok sms) s u = answer_sms-Records sms s u
  dispatch-Records (err e) s u = Records-same s s u refl
  dispatch-Records panic s u = Records-same s s u refl
  dispatch-Records blocked s u = periodic-Records s u

  round-Records : (s : State) → HasUniqueKeys s.context.tunnels → Records s (round host crates s).1
  unfolding round
  round-Records s u =
      let c = s.context.configuration in
      let waited =
        wait_sms host crates c.sms_config
          (emit (timer c.ssh_config.tunnel_refresh_period_sec) s.world) in
      let here : State = record s { world = waited.1 } in
      Records-trans s here _ (Records-same s here u refl) (dispatch-Records waited.0 here u)

  rounds-Records :
      (n : ℕ) (s : State) → HasUniqueKeys s.context.tunnels → Records s (rounds host crates n s).1
  unfolding rounds
  rounds-Records zero s u = Records-same s s u refl
  rounds-Records (suc n) s u =
      let first = round host crates s in
      let r = round-Records s u in
      continue-keeps (Records s) first.0 _ first.1 r
        λ _ _. Records-trans s first.1 _ r (rounds-Records n first.1 r.unique)

  -- The references being distinct, any number of rounds, whatever messages come and however the
  -- outside answers, does to the tunnels what the table of users and applications allows: requests
  -- of configured users, each of which adds at most entries of that user, to configured
  -- applications he has no tunnel to and under free references, or removes entries; and clean-ups,
  -- which only remove.
  pub rounds_refine :
      (n : ℕ) (s : State)
      → HasUniqueKeys s.context.tunnels
      → History s.context.configuration (view s) (view (rounds host crates n s).1)
  rounds_refine n s u = (rounds-Records n s u).history

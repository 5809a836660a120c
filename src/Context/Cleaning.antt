-- ===== src/Context/Cleaning.antt =====
-- What the clean-up of the tunnels does to the world.
use telco_vecchio.Prelude.{ℕ, Option, none, some, [], ◌∷◌, ltb, ◌==◌, nat_eq, list_eq, find, ◌++◌}
use telco_vecchio.Prelude.Map.{Map}
use telco_vecchio.Text.{text}
use telco_vecchio.Text.Decimal.{show}
use telco_vecchio.Config.{User, Configuration}
use telco_vecchio.Effects.{panic, Exec}
use telco_vecchio.Effects.World.{Effect, killed, World, Host, Crates, perform}
use telco_vecchio.Effects.Only.{
  Only, Only-pure, Only-lift, Only-perform, Only-map, Only-bind, Only-match, Only-if,
}
use telco_vecchio.Sms.{OutgoingSms}
use telco_vecchio.Sms.Send.{send_sms}
use telco_vecchio.Sms.Effects.{IsPortUse, send_sms-UsesPort}
use telco_vecchio.Context.{Tunnel}
use telco_vecchio.Context.Expiry.{
  secs, ignore, age, notify_expiry, close_expired, next_ids, expired_ids,
}

-- A kill, or a message.
abbrev pub IsCleaning : Effect → Type 0
IsCleaning (killed p) = Unit
IsCleaning e = IsPortUse e

port-IsCleaning : (e : Effect) → IsPortUse e → IsCleaning e
port-IsCleaning (killed p) h = tt
port-IsCleaning _ h = h

ignore-Cleans : (m : Exec World (Unit {0})) → Only IsCleaning m → Only IsCleaning (ignore m)
ignore-Cleans m x = Only-match m x (λ a. Only-pure a) (λ _. Only-pure tt)

module _ (host : Host) (crates : Crates) where
  notify_expiry-Cleans :
      (c : Configuration) (id : ℕ) (user : Option User)
      → Only IsCleaning (notify_expiry host crates c id user)
  unfolding notify_expiry
  notify_expiry-Cleans c id none = Only-pure tt
  notify_expiry-Cleans c id (some user) =
      let sms : OutgoingSms = record {
        to = user.phone_number;
        msg = text "Expired tunnel " ++ (show id ++ text " has been closed");
      } in
      ignore-Cleans (send_sms host crates c.sms_config sms)
        (Only-map port-IsCleaning (send_sms-UsesPort host crates c.sms_config sms))

  close_expired-Cleans :
      (c : Configuration) (id : ℕ) (t : Tunnel) → Only IsCleaning (close_expired host crates c id t)
  unfolding close_expired
  close_expired-Cleans c id t =
      let kill = perform (killed t.process) (λ tr. host.kill tr t.process) in
      let owner = find (λ u. u.name == t.user) c.users in
      Only-bind (ignore kill)
        (ignore-Cleans kill (Only-perform (killed t.process) (λ tr. host.kill tr t.process) tt))
        λ _. notify_expiry-Cleans c id owner

  -- The loop over the tunnels kills processes and sends messages, and does nothing else.
  pub expired_ids-Cleans :
      (c : Configuration) (time : ℕ) (m : Map ℕ Tunnel)
      → Only IsCleaning (expired_ids host crates c time m)
  unfolding expired_ids next_ids
  expired_ids-Cleans c time [] = Only-pure []
  expired_ids-Cleans c time ((id, t) ∷ m) =
      Only-bind (age time t)
        (Only-if (ltb time t.creation_date) _ _ (Only-lift panic) (Only-pure _))
        λ d.
          Only-if (ltb (secs c.ssh_config.tunnel_timeout_sec) d) _ _
            (Only-bind (close_expired host crates c id t) (close_expired-Cleans c id t) λ _.
              Only-bind (expired_ids host crates c time m) (expired_ids-Cleans c time m)
                λ ids. Only-pure (id ∷ ids))
            (expired_ids-Cleans c time m)

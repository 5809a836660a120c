-- ===== src/Context/Expiry.antt =====
-- `clean_up_expired_tunnels`.
use telco_vecchio.Prelude.{
  ℕ, ◌-◌, ◌*◌, ◌^◌, Option, none, some, List, [], ◌∷◌, ◌++◌, ltb, if◌then◌else◌, ◌==◌, nat_eq,
  list_eq, find,
}
use telco_vecchio.Prelude.Map.{Map}
use telco_vecchio.Text.{text}
use telco_vecchio.Text.Decimal.{show}
use telco_vecchio.Config.{User, Configuration}
use telco_vecchio.Effects.{Exec, pure, crash, ◌>>=◌, ◌>>◌, match_result}
use telco_vecchio.Effects.World.{World, Host, Crates, killed, perform}
use telco_vecchio.Sms.Send.{send_sms}
use telco_vecchio.Context.{Tunnel, State, act, now, remove_tunnel}

-- `Duration::from_secs`, in nanoseconds
abbrev pub secs : ℕ → ℕ
secs n = n * 10 ^ 9

-- An error is only logged.
abbrev pub ignore : Exec World (Unit {0}) → Exec World (Unit {0})
ignore m = match_result m pure (λ _. pure tt)

unfoldable pub remove_all : List ℕ → Exec State (Unit {0})
remove_all [] = pure tt
remove_all (id ∷ ids) = remove_tunnel id >> remove_all ids

-- `current_time.duration_since(creation_date).unwrap()`
abbrev pub age : ℕ → Tunnel → Exec World ℕ
age current_time tunnel =
    if ltb current_time tunnel.creation_date
    then crash
    else pure (current_time - tunnel.creation_date)

module _ (host : Host) (crates : Crates) where
  unfoldable pub notify_expiry : Configuration → ℕ → Option User → Exec World (Unit {0})
  notify_expiry c id none = pure tt
  notify_expiry c id (some user) = ignore (
      send_sms host crates c.sms_config (record {
        to = user.phone_number;
        msg = text "Expired tunnel " ++ (show id ++ text " has been closed");
      }))

  unfoldable pub close_expired : Configuration → ℕ → Tunnel → Exec World (Unit {0})
  close_expired c id tunnel = do
    ignore (perform (killed tunnel.process) (λ t. host.kill t tunnel.process))
    notify_expiry c id (find (λ u. u.name == tunnel.user) c.users)

  -- What follows for one tunnel of some age: it is closed and its id returned, or it is kept.
  unfoldable pub next_ids :
      Configuration → ℕ → Tunnel → Exec World (List ℕ) → ℕ → Exec World (List ℕ)
  next_ids c id tunnel rest d =
      if ltb (secs c.ssh_config.tunnel_timeout_sec) d
      then (close_expired c id tunnel >> (rest >>= λ ids. pure (id ∷ ids)))
      else rest

  -- The loop over the map, which returns `id_to_remove`.
  unfoldable pub expired_ids : Configuration → ℕ → Map ℕ Tunnel → Exec World (List ℕ)
  expired_ids c current_time [] = pure []
  expired_ids c current_time ((id, tunnel) ∷ m) =
      age current_time tunnel >>= next_ids c id tunnel (expired_ids c current_time m)

  unfoldable pub clean_up_expired_tunnels : Exec State (Unit {0})
  clean_up_expired_tunnels s =
      (do
        current_time ← act (now host)
        ids ← act (expired_ids s.context.configuration current_time s.context.tunnels)
        remove_all ids)
        s

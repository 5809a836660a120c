-- ===== src/Context/Survivors.antt =====
-- The clean-up as a whole: its result, the invariant, the account of the processes, and that it ends.
use telco_vecchio.Prelude.{ℕ, ◌≤◌, ◌≡◌, ◌∙◌, List, [], ◌∷◌, arith, nat_eq, list_eq, All}
use telco_vecchio.Prelude.Map.{HasUniqueKeys}
use telco_vecchio.Effects.{ok, Exec}
use telco_vecchio.Effects.Keeps.{continue-ok, continue-keeps}
use telco_vecchio.Effects.World.{Effect, held, dropped, World, Host, Crates, emit, clock_read}
use telco_vecchio.Effects.Only.{Only, Only-pure, Only-map, Only-match}
use telco_vecchio.Sms.Effects.{IsPortUse}
use telco_vecchio.Context.{Tunnel, State, remove_tunnel}
use telco_vecchio.Context.Expiry.{secs, ignore, expired_ids, remove_all, clean_up_expired_tunnels}
use telco_vecchio.Context.Invariant.{IsValid}
use telco_vecchio.Context.Ledger.{IsNeutral, Only-Owes, Balances, drop-Balances}
use telco_vecchio.Context.Cleaning.{IsCleaning, expired_ids-Cleans}
use telco_vecchio.Context.Cleanup.{
  fresh, erase_all-expired, remove_all-tunnels, remove_all-IsValid, expired_ids_sound,
}

module _ (host : Host) (crates : Crates) where
  -- If the references are distinct, a clean-up that succeeds leaves exactly the tunnels that are
  -- not older than the limit, untouched and in their order, and has found no tunnel from the
  -- future.
  pub clean_up_result :
      (s : State)
      → HasUniqueKeys s.context.tunnels
      → (clean_up_expired_tunnels host crates s).0 ≡ ok tt
      → let time = host.clock s.world.trace in
        let limit = secs s.context.configuration.ssh_config.tunnel_timeout_sec in
        ((clean_up_expired_tunnels host crates s).1.context.tunnels
          ≡ fresh time limit s.context.tunnels)
        × All (λ (e : ℕ × Tunnel). e.1.creation_date ≤ time) s.context.tunnels
  unfolding clean_up_expired_tunnels
  clean_up_result s u h =
      let c = s.context.configuration in
      let time = host.clock s.world.trace in
      let start = emit clock_read s.world in
      let found = expired_ids host crates c time s.context.tunnels start in
      let (ids, e, _) = continue-ok found.0 remove_all (record s { world = found.1 }) h in
      let (same, past) = expired_ids_sound host crates c time s.context.tunnels start e in
      (
        rw e (
            remove_all-tunnels ids (record s { world = found.1 })
            ∙ rw same (
                erase_all-expired time (secs c.ssh_config.tunnel_timeout_sec) s.context.tunnels u)),
        past,
      )

  pub clean_up-IsValid :
      (s : State) → IsValid s.context → IsValid (clean_up_expired_tunnels host crates s).1.context
  unfolding clean_up_expired_tunnels
  clean_up-IsValid s v =
      let found =
        expired_ids host crates s.context.configuration (host.clock s.world.trace) s.context.tunnels
          (emit clock_read s.world) in
      continue-keeps (λ (x : State). IsValid x.context) found.0 _ (record s { world = found.1 }) v
        λ ids _. remove_all-IsValid ids (record s { world = found.1 }) v

pub port-IsNeutral : (e : Effect) → IsPortUse e → IsNeutral e
port-IsNeutral (held p) h = absurd h
port-IsNeutral (dropped p) h = absurd h
port-IsNeutral _ h = tt

pub ignore-IsNeutral : (m : Exec World (Unit {0})) → Only IsNeutral m → Only IsNeutral (ignore m)
ignore-IsNeutral m x = Only-match m x (λ a. Only-pure a) (λ _. Only-pure tt)

remove-Balances : (pid id : ℕ) (s : State) → Balances pid s → Balances pid (remove_tunnel id s).1
unfolding remove_tunnel
remove-Balances pid id s b = drop-Balances pid id s b

remove_all-Balances :
    (pid : ℕ) (ids : List ℕ) (s : State) → Balances pid s → Balances pid (remove_all ids s).1
unfolding remove_all remove_tunnel
remove_all-Balances pid [] s b = b
remove_all-Balances pid (id ∷ ids) s b =
    remove_all-Balances pid ids (remove_tunnel id s).1 (remove-Balances pid id s b)

cleaning-IsNeutral : (e : Effect) → IsCleaning e → IsNeutral e
cleaning-IsNeutral (held p) h = absurd h
cleaning-IsNeutral (dropped p) h = absurd h
cleaning-IsNeutral _ h = tt

module _ (host : Host) (crates : Crates) where
  -- If an ssh process is accounted for, so it is after a clean-up, however that ends: each process
  -- that is taken from the map is dropped.
  pub clean_up-Balances :
      (pid : ℕ) (s : State)
      → Balances pid s
      → Balances pid (clean_up_expired_tunnels host crates s).1
  unfolding clean_up_expired_tunnels
  clean_up-Balances pid s b =
      let m =
        expired_ids host crates s.context.configuration (host.clock s.world.trace)
          s.context.tunnels in
      let found = m (emit clock_read s.world) in
      let kept =
        Only-Owes pid m
          (Only-map cleaning-IsNeutral (
            expired_ids-Cleans host crates s.context.configuration (host.clock s.world.trace)
              s.context.tunnels))
          (emit clock_read s.world) in
      let here : Balances pid (record s { world = found.1 }) = omega (arith, kept) in
      continue-keeps (Balances pid) found.0 _ (record s { world = found.1 }) here
        λ ids _. remove_all-Balances pid ids (record s { world = found.1 }) here

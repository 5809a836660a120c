-- ===== src/Daemon/Clockless.antt =====
-- Where a round reads the clock: only the clean-up does, at its start.
use telco_vecchio.Prelude.{ℕ, nat_eq, Bool, true, false, [], ◌∷◌}
use telco_vecchio.Text.{text}
use telco_vecchio.Prelude.{List, Option, none, some}
use telco_vecchio.Effects.World.{
  Effect, clock_read, dropped, perform, World, Host, Crates, emit, timer, spawned,
}
use telco_vecchio.Sms.Receive.{wait_sms}
use telco_vecchio.Effects.Keeps.{continue-keeps}
use telco_vecchio.Effects.Only.{
  Extends, Extends-refl, Extends-emit, Extends-trans, Only, Only-pure, Only-perform, Only-bind,
  Only-match, Only-map,
}
use telco_vecchio.Sms.Effects.{IsPortUse}
use telco_vecchio.Sms.Effects.Reading.{wait_sms-UsesPort}
use telco_vecchio.Context.Cleaning.{IsCleaning, expired_ids-Cleans}
use telco_vecchio.Prelude.Map.{lookup}
use telco_vecchio.Context.{Tunnel, State, drop_old, remove_tunnel}
use telco_vecchio.Context.Expiry.{expired_ids, remove_all, clean_up_expired_tunnels}
use telco_vecchio.Daemon.Round.{reboot_if}

abbrev pub IsClockless : Effect → Type 0
IsClockless clock_read = ⊥
IsClockless _ = Unit

port-IsClockless : (e : Effect) → IsPortUse e → IsClockless e
port-IsClockless clock_read h = h
port-IsClockless _ h = tt

cleaning-IsClockless : (e : Effect) → IsCleaning e → IsClockless e
cleaning-IsClockless clock_read h = h
cleaning-IsClockless _ h = tt

drop_old-IsClockless : (o : Option Tunnel) (w : World) → Extends IsClockless w (drop_old o w)
drop_old-IsClockless none w = Extends-refl w
drop_old-IsClockless (some t) w = Extends-emit (dropped t.process) w tt

remove_all-IsClockless :
    (ids : List ℕ) (s : State) → Extends IsClockless s.world (remove_all ids s).1.world
unfolding remove_all remove_tunnel
remove_all-IsClockless [] s = Extends-refl s.world
remove_all-IsClockless (id ∷ ids) s =
    Extends-trans (drop_old-IsClockless (lookup id s.context.tunnels) s.world)
      (remove_all-IsClockless ids (remove_tunnel id s).1)

module _ (host : Host) (crates : Crates) where
  pub clean_up-IsClockless :
      (s : State)
      → Extends IsClockless
          (emit clock_read s.world)
          (clean_up_expired_tunnels host crates s).1.world
  unfolding clean_up_expired_tunnels
  clean_up-IsClockless s =
      let start = emit clock_read s.world in
      let time = host.clock s.world.trace in
      let m = expired_ids host crates s.context.configuration time s.context.tunnels in
      let found : Extends IsClockless start (m start).1 =
        (Only-map cleaning-IsClockless
            (expired_ids-Cleans host crates s.context.configuration time s.context.tunnels)).at
          start in
      let here : State = record s { world = (m start).1 } in
      continue-keeps (λ (x : State). Extends IsClockless start x.world) (m start).0 _ here found
        λ ids _. Extends-trans found (remove_all-IsClockless ids here)

  pub reboot_if-IsClockless :
      (connected : Bool) → Only IsClockless (reboot_if host crates connected)
  unfolding reboot_if
  reboot_if-IsClockless true = Only-pure tt
  reboot_if-IsClockless false =
      let line = text "reboot" ∷ [] in
      Only-match _
        (Only-bind (perform (spawned line) (λ t. host.spawn t line))
          (Only-perform (spawned line) (λ t. host.spawn t line) tt) λ _. Only-pure tt)
        (λ _. Only-pure tt) (λ _. Only-pure tt)

  -- Up to the end of the wait for a message the clock is not read.
  pub wait-IsClockless :
      (s : State)
      → Extends IsClockless s.world
          (wait_sms host crates s.context.configuration.sms_config
            (emit (timer s.context.configuration.ssh_config.tunnel_refresh_period_sec) s.world)).1
  wait-IsClockless s =
      let c = s.context.configuration in
      let start = emit (timer c.ssh_config.tunnel_refresh_period_sec) s.world in
      Extends-trans (Extends-emit (timer c.ssh_config.tunnel_refresh_period_sec) s.world tt)
        ((Only-map port-IsClockless (wait_sms-UsesPort host crates c.sms_config)).at start)

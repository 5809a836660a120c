-- ===== src/Daemon/Quiet.antt =====
-- A round in which no message comes.
use telco_vecchio.Prelude.{
  ℕ, ◌≤◌, ◌≡◌, ◌≢◌, refl, nat_eq, Bool, true, false, inl, inr, [], ◌∷◌, All,
}
use telco_vecchio.Prelude.Map.{HasUniqueKeys}
use telco_vecchio.Text.{Text, text}
use telco_vecchio.Prelude.{List, ◌++◌}
use telco_vecchio.Effects.{Outcome, ok, blocked, from_io, pure, continue, settle}
use telco_vecchio.Effects.World.{
  Effect, clock_read, World, Host, Crates, Trace, Child, Reply, done, failed, pending, answer, emit,
  timer, spawned,
}
use telco_vecchio.Sms.Receive.{wait_sms}
use telco_vecchio.Status.Qmi.{is_connected_to_internet}
use telco_vecchio.Status.Internet.{PingsReturn, is_connected_to_internet_returns}
use telco_vecchio.Status.Effects.{is_connected_to_internet-Only}
use telco_vecchio.Effects.Only.{Extends, Extends-trans}
use telco_vecchio.Context.{Tunnel, State, act}
use telco_vecchio.Context.Expiry.{secs}
use telco_vecchio.Context.Cleanup.{fresh}
use telco_vecchio.Context.Survivors.{clean_up_result}
use telco_vecchio.Context.Termination.{HasNumber, KillsReturn, clean_up_returns}
use telco_vecchio.Daemon.Clockless.{
  IsClockless, clean_up-IsClockless, reboot_if-IsClockless, wait-IsClockless,
}
use telco_vecchio.Daemon.Round.{reboot_if, periodic, dispatch, round}

-- Commands, pings and kills come back, with an answer or an error.
pub record Replies (host : Host) : Type 0 where
  pub kills : KillsReturn host
  pub pings : PingsReturn host
  pub spawns : (t : Trace) (line : List Text) → host.spawn t line ≢ pending

-- The clock was not set back: from now on, whatever is done, no reading of it lies before the creation of
-- a tunnel that is open now.
abbrev pub IsSteady : Host → State → Type 0
IsSteady host s =
    (later : List Effect)
    → All (λ (e : ℕ × Tunnel). e.1.creation_date ≤ host.clock (later ++ s.world.trace))
        s.context.tunnels

-- It ended. Meanwhile the clock was read once, and the tunnels that are left are those that were not too
-- old at this reading.
pub record EndsFresh (host : Host) (s : State) (r : Outcome (Unit {0}) × State) : Type 0 where
  pub ends : r.0 ≡ ok tt
  pub before : List Effect
  pub after : List Effect
  pub history : r.1.world.trace ≡ after ++ (clock_read ∷ (before ++ s.world.trace))
  pub read_once : All IsClockless before × All IsClockless after
  pub rest :
      r.1.context.tunnels
      ≡ fresh
          (host.clock (before ++ s.world.trace))
          (secs s.context.configuration.ssh_config.tunnel_timeout_sec)
          s.context.tunnels

by_reply :
    (r : Reply Child) (v : World)
    → r ≢ pending
    → let replied = answer {S = World} from_io r v in
      let x = continue {B = Unit {0}} replied.0 (λ _. pure tt) replied.1 in
      (settle {B = Unit {0}} x.0 pure (λ _. pure tt) x.1).0 ≡ ok tt
by_reply (done found) v h = refl
by_reply (failed t) v h = refl
by_reply pending v h = absurd (h refl)

module _ (host : Host) (crates : Crates) (back : Replies host) where
  reboot_if-ok : (connected : Bool) (w : World) → (reboot_if host crates connected w).0 ≡ ok tt
  unfolding reboot_if
  reboot_if-ok true w = refl
  reboot_if-ok false w =
      by_reply (host.spawn w.trace (text "reboot" ∷ [])) (emit (spawned (text "reboot" ∷ [])) w)
        (back.spawns w.trace (text "reboot" ∷ []))

  periodic_after :
      (s : State) (w : World) (connected : Bool)
      → Extends IsClockless s.world w
      → All HasNumber s.context.configuration.users
      → HasUniqueKeys s.context.tunnels
      → IsSteady host s
      → (is_connected_to_internet host s.context.configuration.email_config.internet_host w).0
        ≡ ok connected
      → EndsFresh host s (periodic host crates (record s { world = w }))
  unfolding periodic
  periodic_after s w connected since numbers u steady h =
      let ip = s.context.configuration.email_config.internet_host in
      let checked = is_connected_to_internet host ip w in
      let here : State = record s { world = checked.1 } in
      let rebooted = act (reboot_if host crates connected) here in
      let so_far : Extends IsClockless s.world rebooted.1.world = Extends-trans since (
        Extends-trans ((is_connected_to_internet-Only host ip tt tt).at w)
          ((reboot_if-IsClockless host crates connected).at checked.1)) in
      let past = steady so_far.added in
      let ends =
        clean_up_returns host crates back.kills rebooted.1 numbers (rw (so_far.split) past) in
      let cleaned = clean_up-IsClockless host crates rebooted.1 in
      let rest = (clean_up_result host crates rebooted.1 u ends).0 in
      rw h (
        rw (reboot_if-ok connected checked.1) (record {
          ends = ends;
          before = so_far.added;
          after = cleaned.added;
          history = rw (← so_far.split) cleaned.split;
          read_once = (so_far.each, cleaned.each);
          rest = rw (← so_far.split) rest;
        }))

  -- The periodic work ends, and leaves the tunnels that are not too old.
  pub periodic-EndsFresh :
      (s : State) (w : World)
      → Extends IsClockless s.world w
      → All HasNumber s.context.configuration.users
      → HasUniqueKeys s.context.tunnels
      → IsSteady host s
      → EndsFresh host s (periodic host crates (record s { world = w }))
  periodic-EndsFresh s w since numbers u steady =
      let ip = s.context.configuration.email_config.internet_host in
      elim (is_connected_to_internet_returns host ip w back.pings) [
        | inl up ↦ periodic_after s w true since numbers u steady up
        | inr down ↦ periodic_after s w false since numbers u steady down
      ]

  -- If commands, pings and kills come back, the users' numbers can be encoded, the references are
  -- distinct and from the round's start on no clock reading lies before the creation of a tunnel that is
  -- open then, a round in which no message comes ends, without a panic. The clock is read once in it, and
  -- exactly the tunnels that are not older than the limit at this reading are left, untouched and in
  -- their order.
  pub round_quiet :
      (s : State)
      → All HasNumber s.context.configuration.users
      → HasUniqueKeys s.context.tunnels
      → IsSteady host s
      → (wait_sms host crates s.context.configuration.sms_config
          (emit (timer s.context.configuration.ssh_config.tunnel_refresh_period_sec) s.world)).0
        ≡ blocked
      → EndsFresh host s (round host crates s)
  unfolding round dispatch
  round_quiet s numbers u steady h =
      let waited =
        wait_sms host crates s.context.configuration.sms_config
          (emit (timer s.context.configuration.ssh_config.tunnel_refresh_period_sec) s.world) in
      rw h (periodic-EndsFresh s waited.1 (wait-IsClockless host crates s) numbers u steady)

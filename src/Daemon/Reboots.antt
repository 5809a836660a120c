-- ===== src/Daemon/Reboots.antt =====
-- The commands that the periodic work starts.
use telco_vecchio.Prelude.{
  ◌≡◌, refl, ap, ◌∙◌, Bool, true, false, Option, none, some, List, [], ◌∷◌, ◌++◌, ℕ,
}
use telco_vecchio.Prelude.{nat_eq}
use telco_vecchio.Prelude.Map.{lookup}
use telco_vecchio.Text.{Text, text}
use telco_vecchio.Effects.{ok, from_io, pure, continue, settle}
use telco_vecchio.Effects.Keeps.{continue-keeps}
use telco_vecchio.Effects.Gathered.{gathered, IsSilent, Only-gathered}
use telco_vecchio.Effects.Only.{Only-map}
use telco_vecchio.Effects.World.{
  Effect, spawned, clock_read, Trace, World, Host, Crates, Child, Reply, done, failed, pending,
  answer, emit,
}
use telco_vecchio.Status.Qmi.{is_connected_to_internet}
use telco_vecchio.Status.Effects.{is_connected_to_internet-Only}
use telco_vecchio.Context.{Tunnel, State, act, drop_old, remove_tunnel}
use telco_vecchio.Context.Expiry.{expired_ids, remove_all, clean_up_expired_tunnels}
use telco_vecchio.Context.Cleaning.{IsCleaning, expired_ids-Cleans}
use telco_vecchio.Daemon.Round.{reboot_if, periodic}

abbrev command : Effect → List (List Text)
command (spawned line) = line ∷ []
command _ = []

-- The commands that were started, the latest first.
abbrev pub commands : Trace → List (List Text)
commands = gathered command

-- What is started for a check that came out this way.
abbrev pub rebooting_if : Bool → List (List Text)
rebooting_if true = []
rebooting_if false = (text "reboot" ∷ []) ∷ []

cleaning-IsSilent : (e : Effect) → IsCleaning e → IsSilent command e
cleaning-IsSilent (spawned line) h = absurd h
cleaning-IsSilent _ h = refl

drop_old-commands :
    (o : Option Tunnel) (w : World) → commands (drop_old o w).trace ≡ commands w.trace
drop_old-commands none w = refl
drop_old-commands (some t) w = refl

remove_all-commands :
    (ids : List ℕ) (s : State) → commands (remove_all ids s).1.world.trace ≡ commands s.world.trace
unfolding remove_all remove_tunnel
remove_all-commands [] s = refl
remove_all-commands (id ∷ ids) s =
    remove_all-commands ids (remove_tunnel id s).1
    ∙ drop_old-commands (lookup id s.context.tunnels) s.world

-- The reply to the command does not count.
by_reply :
    (r : Reply Child) (v : World)
    → let replied = answer {S = World} from_io r v in
      let x = continue {B = Unit {0}} replied.0 (λ _. pure tt) replied.1 in
      commands (settle {B = Unit {0}} x.0 pure (λ _. pure tt) x.1).1.trace ≡ commands v.trace
by_reply (done found) v = refl
by_reply (failed t) v = refl
by_reply pending v = refl

module _ (host : Host) (crates : Crates) where
  clean_up-commands :
      (s : State)
      → commands (clean_up_expired_tunnels host crates s).1.world.trace ≡ commands s.world.trace
  unfolding clean_up_expired_tunnels
  clean_up-commands s =
      let start = emit clock_read s.world in
      let m =
        expired_ids host crates s.context.configuration (host.clock s.world.trace)
          s.context.tunnels in
      let quiet = Only-gathered command m start (
        Only-map cleaning-IsSilent (
          expired_ids-Cleans host crates s.context.configuration (host.clock s.world.trace)
            s.context.tunnels)) in
      let here : State = record s { world = (m start).1 } in
      continue-keeps (λ (x : State). commands x.world.trace ≡ commands s.world.trace) (m start).0 _
        here quiet λ ids _. remove_all-commands ids here ∙ quiet

  reboot_if-commands :
      (connected : Bool) (w : World)
      → commands (reboot_if host crates connected w).1.trace
        ≡ rebooting_if connected ++ commands w.trace
  unfolding reboot_if
  reboot_if-commands true w = refl
  reboot_if-commands false w =
      by_reply (host.spawn w.trace (text "reboot" ∷ [])) (emit (spawned (text "reboot" ∷ [])) w)

  -- If the check of the connection that begins the periodic work comes to a verdict, the work starts the
  -- reboot command exactly if the verdict is negative, once, and starts no other command, whatever the
  -- clean-up that follows meets.
  pub periodic-commands :
      (s : State) (connected : Bool)
      → (is_connected_to_internet host s.context.configuration.email_config.internet_host s.world).0
        ≡ ok connected
      → commands (periodic host crates s).1.world.trace
        ≡ rebooting_if connected ++ commands s.world.trace
  unfolding periodic
  periodic-commands s connected h =
      let ip = s.context.configuration.email_config.internet_host in
      let checked = is_connected_to_internet host ip s.world in
      let quiet =
        Only-gathered command (is_connected_to_internet host ip) s.world
          (is_connected_to_internet-Only host ip refl refl) in
      let here : State = record s { world = checked.1 } in
      let rebooted = act (reboot_if host crates connected) here in
      let started =
        reboot_if-commands connected checked.1 ∙ ap (λ t. rebooting_if connected ++ t) quiet in
      rw h (
        continue-keeps
          (λ (x : State). commands x.world.trace ≡ rebooting_if connected ++ commands s.world.trace)
          rebooted.0 _ rebooted.1 started λ _ _. clean_up-commands rebooted.1 ∙ started)

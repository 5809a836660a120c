-- ===== src/Daemon/Start.antt =====
-- The rounds of a daemon that has started up.
use telco_vecchio.Prelude.{ℕ, ◌≡◌, ◌≢◌, refl, ap, Bool, arith}
use telco_vecchio.Config.{Configuration}
use telco_vecchio.Effects.{ok, blocked}
use telco_vecchio.Effects.Keeps.{continue-ok, continue-then}
use telco_vecchio.Effects.Only.{Extends-trans}
use telco_vecchio.Effects.Growth.{Grows, Grows-emit, Only-Grows}
use telco_vecchio.Daemon.Exit.{Configures, read_config_file_sound, read_config_file_complete}
use telco_vecchio.Effects.World.{
  World, Host, Crates, directory_created, file_opened, file_read, emit,
}
use telco_vecchio.Status.{Status}
use telco_vecchio.Context.{Context, State, new_context}
use telco_vecchio.Context.Invariant.{IsValid, new_context-IsValid}
use telco_vecchio.Init.Start.{
  can_text, read_config_file, reliable_status, start_texting, init, configuration_file,
  log_directory, share_directory, start_logging,
}
use telco_vecchio.Context.Ledger.{opened, closed, holders, Balances, Only-Owes}
use telco_vecchio.Init.Effects.{
  init-IsNeutral, start_logging-IsNeutral, reliable_status-IsNeutral, texting-IsNeutral,
}
use telco_vecchio.Daemon.Round.{rounds}
use telco_vecchio.Daemon.Balance.{rounds-Balances}
use telco_vecchio.Daemon.Invariant.{rounds-IsValid}

-- The start read the configuration from its file, as `--check-config` reads it, at a moment of the start: before it,
-- the start had only gone on from `w`, and after it, it only went on to `end`.
pub record ReadsFile (host : Host) (crates : Crates) (c : Configuration) (w end : World)
    : Type 0 where
  pub moment : World
  pub before : Grows w moment
  pub configures : Configures host crates configuration_file moment c
  pub after :
      Grows (emit (file_read configuration_file) (emit (file_opened configuration_file) moment)) end

-- The state in which the loop starts.
abbrev pub started : Host → Crates → Bool → World → Context → State
started host crates is_daemon w c = record { context = c; world = (init host crates is_daemon w).1 }

module _ (host : Host) (crates : Crates) where
  -- The context that a start makes is a new one.
  pub init-new :
      (is_daemon : Bool) (w : World) {c : Context}
      → (init host crates is_daemon w).0 ≡ ok c
      → (conf : Configuration) × (s : Status) × (c ≡ new_context conf s)
  unfolding init
  init-new is_daemon w {c} h =
      let v = emit (directory_created share_directory) (emit (directory_created log_directory) w) in
      let logging = start_logging host is_daemon v in
      let (_, _, h1) = continue-ok logging.0 _ logging.1 h in
      let read = read_config_file host crates configuration_file logging.1 in
      let (conf, _, h2) = continue-ok read.0 _ read.1 h1 in
      let found = reliable_status host crates conf read.1 in
      let (s, _, h3) = continue-ok found.0 _ found.1 h2 in
      let texting = start_texting host crates conf s (can_text s.device_status) found.1 in
      let (_, _, h4) = continue-ok texting.0 _ texting.1 h3 in (conf, s, ground arith)

  -- A start that succeeds runs on a configuration that the start itself read, as `--check-config`
  -- reads it, from the file at its fixed place: the reading lies between the world before the start and
  -- the one after it.
  pub init-Configures :
      (is_daemon : Bool) (w : World) {c : Context}
      → (init host crates is_daemon w).0 ≡ ok c
      → ReadsFile host crates c.configuration w (init host crates is_daemon w).1
  unfolding init
  init-Configures is_daemon w {c} h =
      let C = ReadsFile host crates c.configuration w in
      let logs = emit (directory_created log_directory) w in
      let v = emit (directory_created share_directory) logs in
      let logging = start_logging host is_daemon v in
      continue-then C logging.0 _ logging.1 h λ _ _ h1.
        let read = read_config_file host crates configuration_file logging.1 in
        continue-then C read.0 _ read.1 h1 λ conf e2 h2.
          let found = reliable_status host crates conf read.1 in
          continue-then C found.0 _ found.1 h2 λ s _ h3.
            let texting = start_texting host crates conf s (can_text s.device_status) found.1 in
            continue-then C texting.0 _ texting.1 h3 λ _ _ h4.
              let same : conf ≡ c.configuration = cc in
              let configures = read_config_file_sound host crates configuration_file logging.1 e2 in
              let whole : read ≡ _ =
                read_config_file_complete host crates configuration_file logging.1 configures in
              record {
                moment = logging.1;
                before = Extends-trans (Grows-emit (directory_created log_directory) w) (
                    Extends-trans (Grows-emit (directory_created share_directory) logs) (
                      Only-Grows (start_logging host is_daemon) v
                        (start_logging-IsNeutral host crates is_daemon)));
                configures = rw (← same) configures;
                after = rw (← ap (λ r. r.1) whole) (
                    Extends-trans
                      (Only-Grows (reliable_status host crates conf) read.1
                        (reliable_status-IsNeutral host crates conf))
                      (Only-Grows (start_texting host crates conf s (can_text s.device_status))
                        found.1 (texting-IsNeutral host crates conf s (can_text s.device_status))));
              }

  -- After a start that succeeds, any number of rounds keeps the tunnels' references distinct, their
  -- number within the configured one, the tunnels of a user to different applications, and each owned
  -- by a configured user, whatever messages come and however the outside answers.
  pub init-rounds :
      (is_daemon : Bool) (w : World) (n : ℕ) {c : Context}
      → (init host crates is_daemon w).0 ≡ ok c
      → IsValid (rounds host crates n (started host crates is_daemon w c)).1.context
  init-rounds is_daemon w n {c} h =
      let (conf, s, same) = init-new is_daemon w h in
      rounds-IsValid host crates n _ (rw same (new_context-IsValid conf s))

-- After a start that succeeds, any number of rounds that do not hang leaves every ssh process accounted
-- for, if it was before the start: as often as it was taken, it was dropped or is held by a tunnel.
pub init-rounds_balance :
    (host : Host) (crates : Crates) (is_daemon : Bool) (w : World) (pid n : ℕ) {c : Context}
    → opened pid w.trace ≡ closed pid w.trace
    → (init host crates is_daemon w).0 ≡ ok c
    → (rounds host crates n (started host crates is_daemon w c)).0 ≢ blocked
    → Balances pid (rounds host crates n (started host crates is_daemon w c)).1
init-rounds_balance host crates is_daemon w pid n {c} even h =
    let (conf, s, same) = init-new host crates is_daemon w h in
    let kept =
      Only-Owes pid (init host crates is_daemon) (init-IsNeutral host crates is_daemon) w in
    let none_held : holders pid c.tunnels ≡ 0 = rw same refl in
    rounds-Balances host crates pid n _ (omega (arith, none_held))

-- ===== src/Daemon/CommandLine.antt =====
-- `main` and `run`: what the arguments ask for, what is printed, and the exit codes.
use telco_vecchio.Prelude.{
  ℕ, zero, suc, Bool, true, false, Option, none, some, List, [], ◌∷◌, if◌then◌else◌, ◌==◌, nat_eq,
  list_eq,
}
use telco_vecchio.Text.{Text, text}
use telco_vecchio.Effects.{Exec, pure, ◌>>◌, match_result}
use telco_vecchio.Effects.World.{
  World, Host, Crates, Fork, parent, child, fork_failed, printed, forked, emit, note,
}
use telco_vecchio.Context.{Context, State}
use telco_vecchio.Init.Start.{init, read_config_file}
use telco_vecchio.Daemon.Round.{endless}

pub data ExitCode : Type 0 where
  success failure : ExitCode

-- `args.get(n)`
abbrev pub get : List Text → ℕ → Option Text
get [] n = none
get (arg ∷ args) zero = some arg
get (arg ∷ args) (suc n) = get args n

-- a line on the standard output, before the exit
abbrev pub leave_with : Text → ExitCode → Exec World ExitCode
leave_with line code = note (printed line) >> pure code

-- the context that `init` made, with the world as it left it
abbrev pub with_context : Context → World → State
with_context c w = record { context = c; world = w }

module _ (host : Host) (crates : Crates) where
  -- The loop, with its context as a local variable.
  unfoldable pub run_rounds : ℕ → Context → Exec World (Unit {0})
  run_rounds n c w = let (r, s) = endless host crates n (with_context c w) in (r, s.world)

  -- A failed start is only logged.
  unfoldable pub run : ℕ → Bool → Exec World (Unit {0})
  run n is_daemon = match_result (init host crates is_daemon) (run_rounds n) (λ e. pure tt)

  -- Only the child process runs.
  unfoldable pub run_if_child : ℕ → Fork → Exec World (Unit {0})
  run_if_child n child = run n true
  run_if_child n parent = pure tt
  run_if_child n fork_failed = pure tt

  unfoldable pub run_daemon : ℕ → Exec World ExitCode
  run_daemon n w = (run_if_child n (host.fork w.trace) >> pure success) (emit forked w)

  -- `--check-config`
  unfoldable pub check_config_file : Option Text → Exec World ExitCode
  check_config_file none = leave_with (text "No configuration provided") failure
  check_config_file (some path) =
      match_result (read_config_file host crates path)
        (λ _. leave_with (text "Valid configuration") success)
        (λ _. leave_with (text "Invalid configuration") failure)

  unfoldable pub on_arg : ℕ → List Text → Option Text → Exec World ExitCode
  on_arg n args none = run n false >> pure success
  on_arg n args (some arg) =
      if arg == text "--daemon"
      then run_daemon n
      else if arg == text "--check-config"
      then check_config_file (get args 2)
      else leave_with (text "invalid input arguments") failure

  -- The first argument is the program's name. The number is the fuel of the loop.
  unfoldable pub main : ℕ → List Text → Exec World ExitCode
  main n args = on_arg n args (get args 1)

-- ===== src/Request/Ends.antt =====
-- The end of a request, if the outside comes back.
use telco_vecchio.Prelude.{ℕ, Option-cases, inl, inr, List, [], ◌∷◌, ◌==◌, nat_eq, list_eq, find}
use telco_vecchio.Prelude.Map.{Map, lookup}
use telco_vecchio.Text.{Text}
use telco_vecchio.Text.Decimal.{parse_u32}
use telco_vecchio.Text.Words.{split_whitespace}
use telco_vecchio.Config.{User, Application}
use telco_vecchio.Effects.{Outcome, ok, err, from_io, panic, blocked, invalid_request_error}
use telco_vecchio.Effects.Ends.{
  Ends, continue-Ends, settle-Ends, ok_or-Ends, answer-Ends, drop_unless_ok-Ends,
}
use telco_vecchio.Effects.World.{
  World, Host, Crates, answer, emit, killed, register_opened, register_written, holding,
}
use telco_vecchio.Email.{send_email}
use telco_vecchio.Ssh.{setup_ssh_tunnel}
use telco_vecchio.Context.{Tunnel, Context, State, act, insert_tunnel}
use telco_vecchio.Status.Ends.{get_status-Ends}
use telco_vecchio.Context.Termination.{KillsReturn}
use telco_vecchio.Request.Outside.{ComesBack, RegisterReturns}
use telco_vecchio.Email.Ends.{send_email-Ends}
use telco_vecchio.Ssh.Ends.{setup_ssh_tunnel-Ends}
use telco_vecchio.Status.Resolve.{get_status}
use telco_vecchio.Request.{
  Command, open_tunnel, close_tunnel, resolve_status, reboot, shutdown, unknown, command_of,
}
use telco_vecchio.Request.Open.{check_open, start_tunnel, record_tunnel, open_request}
use telco_vecchio.Request.Close.{
  references_of, some_references, references, drop_at_end, kill_entry, kill_found, close_one,
  close_all, close_request,
}
use telco_vecchio.Request.Handle.{
  open_words, status_request, reboot_request, shutdown_request, run_command, run_words,
  handle_request,
}
use telco_vecchio.Init.Register.{register_init_listener, put_register}
use telco_vecchio.Effects.World.{holds}
use telco_vecchio.Request.Message.{bad_reference}
use telco_vecchio.Request.Open.Ends.{check_open-Ends}

module _ {ℓ} {S : Type ℓ} where
  some_references-Ends : (ids : List ℕ) (s : S) → Ends (some_references ids s).0
  unfolding some_references
  some_references-Ends [] s = tt
  some_references-Ends (id ∷ ids) s = tt

  references-Ends :
      (name : Text) (m : Map ℕ Tunnel) (args : List Text) (s : S)
      → Ends (references name m args s).0
  unfolding references
  references-Ends name m [] s = some_references-Ends (references_of name m) s
  references-Ends name m (arg ∷ args) s =
      continue-Ends _ _ _ (ok_or-Ends (invalid_request_error (bad_reference arg)) (parse_u32 arg) s)
        λ _ _. tt

drop_at_end-Ends :
    (pid : ℕ) (r : Outcome (Unit {0}) × World) → Ends r.0 → Ends (drop_at_end pid r).0
drop_at_end-Ends pid (ok a, w) h = tt
drop_at_end-Ends pid (err e, w) h = tt
drop_at_end-Ends pid (panic, w) h = h
drop_at_end-Ends pid (blocked, w) h = h

module _ (host : Host) (crates : Crates) where
  start_tunnel-Ends :
      (c : Context) (user : User) (app : Application) (w : World)
      → ComesBack host crates c.configuration
      → Ends (start_tunnel host crates c user app w).0
  unfolding start_tunnel
  start_tunnel-Ends c user app w back =
      let set = setup_ssh_tunnel host crates c.configuration.ssh_config app.host_ip app.port w in
      continue-Ends set.0 _ set.1
        (setup_ssh_tunnel-Ends host crates c.configuration app.host_ip app.port w back)
        λ tunnel _.
          let sent = holding tunnel.1 (send_email host c.configuration.email_config _) set.1 in
          continue-Ends sent.0 _ sent.1
            (drop_unless_ok-Ends tunnel.1 _
              (send_email-Ends host c.configuration.email_config _ set.1))
            λ _ _. tt

  open_request-Ends :
      (user : User) (name : Text) (s : State)
      → ComesBack host crates s.context.configuration
      → Ends (open_request host crates user name s).0
  unfolding open_request record_tunnel insert_tunnel
  open_request-Ends user name s back =
      let checked = check_open s.context user name s in
      continue-Ends checked.0 _ checked.1 (check_open-Ends s.context user name s) λ app _.
        let started = act (start_tunnel host crates s.context user app) checked.1 in
        continue-Ends started.0 _ started.1
          (start_tunnel-Ends s.context user app checked.1.world back) λ _ _. tt

  close_one-Ends : (id : ℕ) (s : State) → KillsReturn host → Ends (close_one host id s).0
  unfolding close_one kill_found kill_entry
  close_one-Ends id s kills = elim (Option-cases (lookup id s.context.tunnels)) [
    | inl missing ↦ rw missing tt
    | inr (t, found) ↦ rw found (
        drop_at_end-Ends t.process _ (
          answer-Ends from_io (host.kill s.world.trace t.process) (emit (killed t.process) s.world)
            (kills s.world.trace t.process)))
  ]

  close_all-Ends : (ids : List ℕ) (s : State) → KillsReturn host → Ends (close_all host ids s).0
  unfolding close_all
  close_all-Ends [] s kills = tt
  close_all-Ends (id ∷ ids) s kills =
      let closed = close_one host id s in
      continue-Ends closed.0 _ closed.1 (close_one-Ends id s kills)
        λ _ _. close_all-Ends ids closed.1 kills

  close_request-Ends :
      (user : User) (args : List Text) (s : State)
      → KillsReturn host
      → Ends (close_request host user args s).0
  unfolding close_request
  close_request-Ends user args s kills =
      let found = references user.name s.context.tunnels args s in
      continue-Ends found.0 _ found.1 (references-Ends user.name s.context.tunnels args s) λ ids _.
        let closed = close_all host ids found.1 in
        continue-Ends closed.0 _ closed.1 (close_all-Ends ids found.1 kills) λ _ _. tt

  status_request-Ends :
      (s : State)
      → ComesBack host crates s.context.configuration
      → Ends (status_request host crates s).0
  unfolding status_request
  status_request-Ends s back =
      let status = act (get_status host crates s.context.configuration) s in
      continue-Ends status.0 _ status.1
        (get_status-Ends host crates s.context.configuration back.status s.world) λ _ _. tt

  register-Ends :
      (user : User) (w : World) → RegisterReturns host → Ends (register_init_listener host user w).0
  unfolding register_init_listener
  register-Ends user w back =
      let opened =
        answer {S = World} from_io (host.open_register w.trace) (emit register_opened w) in
      settle-Ends opened.0 _ _ opened.1
        (answer-Ends from_io (host.open_register w.trace) _ (back.opens w.trace))
        (λ _.
          let emptied = (put_register (holds []) opened.1).1 in
          let written =
            answer {S = World} from_io (host.write_register emptied.trace)
              (emit register_written emptied) in
          settle-Ends written.0 _ _ written.1
            (answer-Ends from_io (host.write_register emptied.trace) _ (back.writes emptied.trace))
            (λ _. tt) (λ _. tt))
        (λ _. tt)

  reboot_request-Ends :
      (user : User) (s : State) → RegisterReturns host → Ends (reboot_request host crates user s).0
  unfolding reboot_request
  reboot_request-Ends user s back =
      let registered = register_init_listener host user s.world in
      continue-Ends registered.0 _ registered.1 (register-Ends user s.world back) λ _ _. tt

  run_command-Ends :
      (user : User) (request word : Text) (args : List Text) (s : State) (command : Command)
      → ComesBack host crates s.context.configuration
      → Ends (run_command host crates user request word args command s).0
  unfolding run_command open_words shutdown_request
  run_command-Ends user request word [] s open_tunnel back = tt
  run_command-Ends user request word (name ∷ args) s open_tunnel back =
      open_request-Ends user name s back
  run_command-Ends user request word args s close_tunnel back =
      close_request-Ends user args s back.kills
  run_command-Ends user request word args s resolve_status back = status_request-Ends s back
  run_command-Ends user request word args s reboot back = reboot_request-Ends user s back.register
  run_command-Ends user request word args s shutdown back = tt
  run_command-Ends user request word args s unknown back = tt

  run_words-Ends :
      (user : User) (request : Text) (words : List Text) (s : State)
      → ComesBack host crates s.context.configuration
      → Ends (run_words host crates user request words s).0
  unfolding run_words
  run_words-Ends user request [] s back = tt
  run_words-Ends user request (word ∷ args) s back =
      run_command-Ends user request word args s (command_of word) back

  -- If the outside comes back, every request of anyone comes to an end, with an answer or an error.
  pub handle_request-Ends :
      (sender request : Text) (s : State)
      → ComesBack host crates s.context.configuration
      → Ends (handle_request host crates sender request s).0
  unfolding handle_request
  handle_request-Ends sender request s back =
      elim (Option-cases (find (λ u. u.phone_number == sender) s.context.configuration.users)) [
        | inl missing ↦ rw missing tt
        | inr (user, found) ↦
            rw found (run_words-Ends user request (split_whitespace request) s back)
      ]

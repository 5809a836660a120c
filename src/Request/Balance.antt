-- ===== src/Request/Balance.antt =====
-- No ssh process is lost: whatever a request does, each process in the daemon's care is held by a
-- tunnel or has been dropped.
use telco_vecchio.Prelude.{
  ℕ, ◌≡◌, ◌≢◌, some, Option-cases, inl, inr, List, [], ◌∷◌, arith, ◌==◌, nat_eq, list_eq, find,
}
use telco_vecchio.Prelude.Map.{lookup, erase}
use telco_vecchio.Text.{Text, text, slice_to}
use telco_vecchio.Config.{User, Application, Configuration}
use telco_vecchio.Effects.{Outcome, ok, err, panic, blocked, continue}
use telco_vecchio.Effects.World.{
  Effect, World, Host, Crates, emit, held, dropped, killed, perform, note,
}
use telco_vecchio.Effects.Only.{Only, Only-perform, Only-map}
use telco_vecchio.Context.{Tunnel, State, act, insert_tunnel}
use telco_vecchio.Context.Accounts.{
  Accounts, settled, continue-Accounts, act-Accounts, unless_blocked,
}
use telco_vecchio.Context.Ledger.{
  one_if, Owes, Balances, IsNeutral, Only-Owes, insert-Balances, erase-Balances,
}
use telco_vecchio.Request.Open.{start_tunnel, check_open, record_tunnel, open_request, new_id}
use telco_vecchio.Request.Open.Parts.{check_open-state}
use telco_vecchio.Request.Processes.{Brings, start-Brings}
use telco_vecchio.Text.Words.{split_whitespace}
use telco_vecchio.Effects.World.{holds, scheduled, register_opened, register_written}
use telco_vecchio.Effects.Only.{Only-pure, Only-note, Only-put, Only-bind, Only-match}
use telco_vecchio.Status.Effects.{IsProbe, get_status-Probes}
use telco_vecchio.Status.Resolve.{get_status}
use telco_vecchio.Init.Register.{written_prefix, put_register, register_init_listener}
use telco_vecchio.Context.{set_tunnels}
use telco_vecchio.Request.{
  Command, open_tunnel, close_tunnel, resolve_status, reboot, shutdown, unknown, command_of,
}
use telco_vecchio.Request.Close.{
  references, kill_entry, kill_found, close_one, close_all, close_request, drop_at_end,
}
use telco_vecchio.Request.Keeps.{references-state}
use telco_vecchio.Request.Message.{rebooting}
use telco_vecchio.Request.Handle.{
  open_words, status_request, reboot_request, shutdown_request, run_command, run_words,
  handle_request,
}

pub probe-IsNeutral : (c : Configuration) (e : Effect) → IsProbe c e → IsNeutral e
probe-IsNeutral c (held p) h = absurd h
probe-IsNeutral c (dropped p) h = absurd h
probe-IsNeutral c _ h = tt

module _ (pid : ℕ) where
  module _ (host : Host) (crates : Crates) where
    record_from-Accounts :
        (user : User) (app : Application) (s : State) (r : Outcome ℕ × World)
        → Balances pid s
        → Brings pid (one_if pid) s.world r
        → Accounts pid (continue r.0 (record_tunnel host user app) (record s { world = r.1 }))
    unfolding record_tunnel insert_tunnel
    record_from-Accounts user app s (ok p, v) b o =
        insert-Balances pid (new_id s.context) _ s _ b (omega arith)
    record_from-Accounts user app s (err e, v) b o = omega arith
    record_from-Accounts user app s (panic, v) b o = omega arith
    record_from-Accounts user app s (blocked, v) b o = tt

    open_request-Accounts :
        (user : User) (name : Text) (s : State)
        → Balances pid s
        → Accounts pid (open_request host crates user name s)
    unfolding open_request
    open_request-Accounts user name s b =
        let checked = check_open s.context user name s in
        continue-Accounts pid checked.0 _ checked.1
          (rw (check_open-state s.context user name s) (settled pid checked.0 s b))
          λ app _. rw (check_open-state s.context user name s) (
            record_from-Accounts user app s (start_tunnel host crates s.context user app s.world) b
              (start-Brings pid host crates s.context user app s.world))

    drop_at_end-Accounts :
        (id : ℕ) (t : Tunnel) (s : State) (r : Outcome (Unit {0}) × World)
        → lookup id s.context.tunnels ≡ some t
        → Balances pid s
        → Owes pid 0 s.world r.1
        → Accounts pid (
          (drop_at_end t.process r).0,
          record (set_tunnels (erase id s.context.tunnels) s) {
            world = (drop_at_end t.process r).1;
          },
        )
    drop_at_end-Accounts id t s (ok a, v) e b o =
        erase-Balances pid id s (emit (dropped t.process) v) b (rw e (omega arith))
    drop_at_end-Accounts id t s (err x, v) e b o =
        erase-Balances pid id s (emit (dropped t.process) v) b (rw e (omega arith))
    drop_at_end-Accounts id t s (panic, v) e b o =
        erase-Balances pid id s (emit (dropped t.process) v) b (rw e (omega arith))
    drop_at_end-Accounts id t s (blocked, v) e b o = tt

    close_one-Accounts : (id : ℕ) (s : State) → Balances pid s → Accounts pid (close_one host id s)
    unfolding close_one kill_found kill_entry
    close_one-Accounts id s b = elim (Option-cases (lookup id s.context.tunnels)) [
      | inl e ↦ rw e b
      | inr (t, e) ↦ rw e (
          let kill = perform (killed t.process) (λ tr. host.kill tr t.process) in
          drop_at_end-Accounts id t s (kill s.world) e b (
            Only-Owes pid kill (Only-perform (killed t.process) (λ tr. host.kill tr t.process) tt)
              s.world))
    ]

    close_all-Accounts :
        (ids : List ℕ) (s : State) → Balances pid s → Accounts pid (close_all host ids s)
    unfolding close_all
    close_all-Accounts [] s b = b
    close_all-Accounts (id ∷ ids) s b =
        let closed_one = close_one host id s in
        continue-Accounts pid closed_one.0 _ closed_one.1 (close_one-Accounts id s b)
          λ _ b'. close_all-Accounts ids closed_one.1 b'

    close_request-Accounts :
        (user : User) (args : List Text) (s : State)
        → Balances pid s
        → Accounts pid (close_request host user args s)
    unfolding close_request
    close_request-Accounts user args s b =
        let found = references user.name s.context.tunnels args s in
        continue-Accounts pid found.0 _ found.1
          (rw (references-state user.name s args) (settled pid found.0 s b))
          λ ids _. rw (references-state user.name s args) (
            let all = close_all host ids s in
            continue-Accounts pid all.0 _ all.1 (close_all-Accounts ids s b) λ _ b'. b')

    status_request-Accounts :
        (s : State) → Balances pid s → Accounts pid (status_request host crates s)
    unfolding status_request
    status_request-Accounts s b =
        let status = act (get_status host crates s.context.configuration) s in
        continue-Accounts pid status.0 _ status.1
          (act-Accounts pid _ s
            (Only-map (probe-IsNeutral s.context.configuration)
              (get_status-Probes s.context.configuration host crates))
            b)
          λ new b'. b'

    register-IsNeutral : (user : User) → Only IsNeutral (register_init_listener host user)
    unfolding register_init_listener
    register-IsNeutral user =
        Only-match (perform register_opened host.open_register)
          (Only-perform register_opened host.open_register tt)
          (λ _. Only-bind (put_register (holds [])) (Only-put (holds [])) λ _.
            Only-match (perform register_written host.write_register)
              (Only-perform register_written host.write_register tt)
              (λ n. Only-put (written_prefix (slice_to n user.name))) (λ _. Only-pure tt))
          (λ _. Only-pure tt)

    reboot_request-Accounts :
        (user : User) (s : State)
        → Balances pid s
        → Accounts pid (reboot_request host crates user s)
    unfolding reboot_request
    reboot_request-Accounts user s b =
        act-Accounts pid _ s
          (Only-bind (register_init_listener host user) (register-IsNeutral user) λ _.
            Only-bind (note (scheduled 5 (text "reboot" ∷ [])))
              (Only-note (scheduled 5 (text "reboot" ∷ [])) tt) λ _. Only-pure rebooting)
          b

    run_command-Accounts :
        (user : User) (request word : Text) (args : List Text) (s : State)
        → Balances pid s
        → (command : Command)
        → Accounts pid (run_command host crates user request word args command s)
    unfolding run_command open_words shutdown_request
    run_command-Accounts user request word [] s b open_tunnel = b
    run_command-Accounts user request word (name ∷ args) s b open_tunnel =
        open_request-Accounts user name s b
    run_command-Accounts user request word args s b close_tunnel =
        close_request-Accounts user args s b
    run_command-Accounts user request word args s b resolve_status = status_request-Accounts s b
    run_command-Accounts user request word args s b reboot = reboot_request-Accounts user s b
    run_command-Accounts user request word args s b shutdown = omega arith
    run_command-Accounts user request word args s b unknown = b

    run_words-Accounts :
        (user : User) (request : Text) (words : List Text) (s : State)
        → Balances pid s
        → Accounts pid (run_words host crates user request words s)
    unfolding run_words
    run_words-Accounts user request [] s b = b
    run_words-Accounts user request (word ∷ args) s b =
        run_command-Accounts user request word args s b (command_of word)

    pub handle_request-Accounts :
        (sender request : Text) (s : State)
        → Balances pid s
        → Accounts pid (handle_request host crates sender request s)
    unfolding handle_request
    handle_request-Accounts sender request s b =
        elim (Option-cases (find (λ u. u.phone_number == sender) s.context.configuration.users)) [
          | inl e ↦ rw e b
          | inr (user, e) ↦ rw e (run_words-Accounts user request (split_whitespace request) s b)
        ]

-- If an ssh process is accounted for, so it is after a request of anyone that does not hang for
-- ever: as often as it came under the daemon's care, it was dropped or is held by a tunnel.
pub handle_request-Balances :
    (host : Host) (crates : Crates) (pid : ℕ) (sender request : Text) (s : State)
    → Balances pid s
    → (handle_request host crates sender request s).0 ≢ blocked
    → Balances pid (handle_request host crates sender request s).1
handle_request-Balances host crates pid sender request s b =
    unless_blocked pid (handle_request host crates sender request s)
      (handle_request-Accounts pid host crates sender request s b)

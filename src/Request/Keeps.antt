-- ===== src/Request/Keeps.antt =====
-- The invariant of the context over requests.
use telco_vecchio.Prelude.{
  ℕ, ◌≡◌, ◌≢◌, none, some, Option-cases, inl, inr, List, [], ◌∷◌, arith, ◌==◌, nat_eq, list_eq,
  ==-refl, find,
}
use telco_vecchio.Prelude.Map.{lookup}
use telco_vecchio.Text.{Text}
use telco_vecchio.Text.Words.{split_whitespace}
use telco_vecchio.Config.{User, Application}
use telco_vecchio.Effects.Keeps.{continue-keeps}
use telco_vecchio.Effects.World.{Host, Crates}
use telco_vecchio.Status.Resolve.{get_status}
use telco_vecchio.Context.{State, act, insert_tunnel}
use telco_vecchio.Context.Invariant.{IsValid, insert-IsValid, erase-IsValid, status-IsValid}
use telco_vecchio.Request.{
  Command, open_tunnel, close_tunnel, resolve_status, reboot, shutdown, unknown, command_of,
}
use telco_vecchio.Request.Open.{check_open, start_tunnel, record_tunnel, open_request, new_id}
use telco_vecchio.Request.Open.Parts.{MayOpen, check_open-state, check_open_sound}
use telco_vecchio.Request.Close.{
  references, kill_found, some_references, close_one, close_all, close_request,
}
use telco_vecchio.Request.Handle.{
  open_words, status_request, reboot_request, shutdown_request, run_command, run_words,
  handle_request,
}

abbrev Holds : State → Type 0
Holds s = IsValid s.context

-- A user who is found by the number is found by the name.
pub named :
    (users : List User) (sender : Text) {user : User}
    → find (λ u. u.phone_number == sender) users ≡ some user
    → find (λ u. u.name == user.name) users ≢ none
named [] sender h = cc
named (u ∷ users) sender {user} h =
    ground (arith, ==-refl user.name, named users sender {user = user})

-- Finding the references changes nothing.
pub references-state :
    (name : Text) (s : State) (args : List Text) → (references name s.context.tunnels args s).1 ≡ s
unfolding references some_references
references-state name s [] = ground arith
references-state name s (arg ∷ args) = ground arith

module _ (host : Host) (crates : Crates) where
  record_tunnel-IsValid :
      (user : User) (app : Application) (process : ℕ) (name : Text) (s : State)
      → IsValid s.context
      → MayOpen s.context user name app
      → find (λ u. u.name == user.name) s.context.configuration.users ≢ none
      → IsValid (record_tunnel host user app process s).1.context
  unfolding record_tunnel insert_tunnel
  record_tunnel-IsValid user app process name s v m owner =
      insert-IsValid s.context (new_id s.context) _ v m.below_max m.not_open owner (omega arith)

  open_request-IsValid :
      (user : User) (name : Text) (s : State)
      → IsValid s.context
      → find (λ u. u.name == user.name) s.context.configuration.users ≢ none
      → IsValid (open_request host crates user name s).1.context
  unfolding open_request
  open_request-IsValid user name s v owner =
      let c = s.context in
      let checked = check_open c user name s in
      continue-keeps Holds checked.0 _ checked.1 (rw (check_open-state c user name s) v) λ app e.
        rw (check_open-state c user name s) (
          let started = act (start_tunnel host crates c user app) s in
          continue-keeps Holds started.0 _ started.1 v λ process _.
            record_tunnel-IsValid user app process name started.1 v
              (check_open_sound c user name s app e) owner)

  close_one-IsValid :
      (id : ℕ) (s : State) → IsValid s.context → IsValid (close_one host id s).1.context
  unfolding close_one kill_found
  close_one-IsValid id s v = elim (Option-cases (lookup id s.context.tunnels)) [
    | inl e ↦ rw e v
    | inr (t, e) ↦ rw e (erase-IsValid s.context id v)
  ]

  close_all-IsValid :
      (ids : List ℕ) (s : State) → IsValid s.context → IsValid (close_all host ids s).1.context
  unfolding close_all
  close_all-IsValid [] s v = v
  close_all-IsValid (id ∷ ids) s v =
      let closed = close_one host id s in
      continue-keeps Holds closed.0 _ closed.1 (close_one-IsValid id s v)
        λ _ _. close_all-IsValid ids closed.1 (close_one-IsValid id s v)

  close_request-IsValid :
      (user : User) (args : List Text) (s : State)
      → IsValid s.context
      → IsValid (close_request host user args s).1.context
  unfolding close_request
  close_request-IsValid user args s v =
      let found = references user.name s.context.tunnels args s in
      continue-keeps Holds found.0 _ found.1 (rw (references-state user.name s args) v) λ ids _.
        rw (references-state user.name s args) (
          let closed = close_all host ids s in
          continue-keeps Holds closed.0 _ closed.1 (close_all-IsValid ids s v)
            λ _ _. close_all-IsValid ids s v)

  status_request-IsValid :
      (s : State) → IsValid s.context → IsValid (status_request host crates s).1.context
  unfolding status_request
  status_request-IsValid s v =
      let status = act (get_status host crates s.context.configuration) s in
      continue-keeps Holds status.0 _ status.1 v λ new _. status-IsValid s.context new v

  run_command-IsValid :
      (user : User) (request word : Text) (args : List Text) (s : State)
      → IsValid s.context
      → find (λ u. u.name == user.name) s.context.configuration.users ≢ none
      → (command : Command)
      → IsValid (run_command host crates user request word args command s).1.context
  unfolding run_command open_words reboot_request shutdown_request
  run_command-IsValid user request word [] s v owner open_tunnel = v
  run_command-IsValid user request word (name ∷ args) s v owner open_tunnel =
      open_request-IsValid user name s v owner
  run_command-IsValid user request word args s v owner close_tunnel =
      close_request-IsValid user args s v
  run_command-IsValid user request word args s v owner resolve_status = status_request-IsValid s v
  run_command-IsValid user request word args s v owner reboot = v
  run_command-IsValid user request word args s v owner shutdown = v
  run_command-IsValid user request word args s v owner unknown = v

  -- Whatever the command, and however it ends, the invariant is kept.
  run_words-IsValid :
      (user : User) (request : Text) (words : List Text) (s : State)
      → IsValid s.context
      → find (λ u. u.name == user.name) s.context.configuration.users ≢ none
      → IsValid (run_words host crates user request words s).1.context
  unfolding run_words
  run_words-IsValid user request [] s v owner = v
  run_words-IsValid user request (word ∷ args) s v owner =
      run_command-IsValid user request word args s v owner (command_of word)

  -- A request of anyone keeps the invariant of the context, whatever it says and however it is
  -- answered.
  pub handle_request-IsValid :
      (sender request : Text) (s : State)
      → IsValid s.context
      → IsValid (handle_request host crates sender request s).1.context
  unfolding handle_request
  handle_request-IsValid sender request s v =
      elim (Option-cases (find (λ u. u.phone_number == sender) s.context.configuration.users)) [
        | inl e ↦ rw e v
        | inr (user, e) ↦ rw e (
            run_words-IsValid user request (split_whitespace request) s v
              (named s.context.configuration.users sender e))
      ]

-- ===== src/Table/Refines.antt =====
-- The requests as steps of the table.
use telco_vecchio.Prelude.{
  ℕ, ◌≡◌, ◌≢◌, refl, ◌∙◌, none, Option-cases, inl, inr, List, [], ◌∷◌, ◌==◌, nat_eq, list_eq, find,
}
use mathlib.Core.Path.{subst}
use telco_vecchio.Prelude.Map
use telco_vecchio.Prelude.Map.{lookup, HasUniqueKeys}
use telco_vecchio.Text.{Text}
use telco_vecchio.Config.{User, Application}
use telco_vecchio.Effects.Keeps.{continue-keeps}
use telco_vecchio.Effects.World.{Host, Crates}
use telco_vecchio.Status.Resolve.{get_status}
use telco_vecchio.Context.{State, act, insert_tunnel}
use telco_vecchio.Request.{
  Command, open_tunnel, close_tunnel, resolve_status, reboot, shutdown, unknown, command_of,
}
use telco_vecchio.Request.Open.{check_open, start_tunnel, record_tunnel, open_request, new_id}
use telco_vecchio.Request.Open.Parts.{MayOpen, check_open-state, check_open_sound}
use telco_vecchio.Request.Close.{references, kill_found, close_one, close_all, close_request}
use telco_vecchio.Request.Handle.{
  open_words, status_request, reboot_request, shutdown_request, run_command, run_words,
}
use telco_vecchio.Request.Keeps.{references-state}
use telco_vecchio.Table.{view, Cause, by_user, Steps, stay}
use telco_vecchio.Table.Moves.{Steps-trans, erase-Steps, insert-Steps}

-- A state that follows another for some cause: the configuration stays, and the table moves by steps.
pub record Follows (cause : Cause) (s s' : State) : Type 0 where
  pub kept : s'.context.configuration ≡ s.context.configuration
  pub unique : HasUniqueKeys s'.context.tunnels
  pub steps : Steps s.context.configuration cause (view s) (view s')

module _ {cause : Cause} where
  pub Follows-refl : (s : State) → HasUniqueKeys s.context.tunnels → Follows cause s s
  Follows-refl s u = record { kept = refl; unique = u; steps = stay refl }

  pub Follows-trans : (s t v : State) → Follows cause s t → Follows cause t v → Follows cause s v
  Follows-trans s t v f g = record {
    kept = g.kept ∙ f.kept;
    unique = g.unique;
    steps = Steps-trans f.steps (subst (λ c. Steps c cause (view t) (view v)) f.kept g.steps);
  }

  -- Only the context counts.
  pub Follows-same :
      (s t : State) → HasUniqueKeys s.context.tunnels → t.context ≡ s.context → Follows cause s t
  Follows-same s t u e = record { kept = rw e refl; unique = rw e u; steps = stay (rw e refl) }

-- The owner is configured.
abbrev IsKnown : User → State → Type 0
IsKnown user s = find (λ (u : User). u.name == user.name) s.context.configuration.users ≢ none

module _ (host : Host) (crates : Crates) where
  record_tunnel-Follows :
      (user : User) (app : Application) (process : ℕ) (name : Text) (s : State)
      → HasUniqueKeys s.context.tunnels
      → MayOpen s.context user name app
      → IsKnown user s
      → Follows (by_user user.name) s (record_tunnel host user app process s).1
  unfolding record_tunnel insert_tunnel
  record_tunnel-Follows user app process name s u m owner = record {
    kept = refl;
    unique = Map.insert-HasUniqueKeys (new_id s.context) _ s.context.tunnels u;
    steps =
        insert-Steps name (new_id s.context) _ s.context.tunnels owner m.configured refl m.not_open;
  }

  open_request-Follows :
      (user : User) (name : Text) (s : State)
      → HasUniqueKeys s.context.tunnels
      → IsKnown user s
      → Follows (by_user user.name) s (open_request host crates user name s).1
  unfolding open_request
  open_request-Follows user name s u owner =
      let c = s.context in
      let After = Follows (by_user user.name) s in
      let checked = check_open c user name s in
      continue-keeps After checked.0 _ checked.1
        (rw (check_open-state c user name s) (Follows-refl s u))
        λ app e. rw (check_open-state c user name s) (
          let started = act (start_tunnel host crates c user app) s in
          continue-keeps After started.0 _ started.1 (Follows-same s started.1 u refl) λ process _.
            Follows-trans s started.1 _ (Follows-same s started.1 u refl) (
              record_tunnel-Follows user app process name started.1 u
                (check_open_sound c user name s app e) owner))

  module _ {cause : Cause} where
    close_one-Follows :
        (id : ℕ) (s : State)
        → HasUniqueKeys s.context.tunnels
        → Follows cause s (close_one host id s).1
    unfolding close_one kill_found
    close_one-Follows id s u = elim (Option-cases (lookup id s.context.tunnels)) [
      | inl e ↦ rw e (Follows-refl s u)
      | inr (t, e) ↦ rw e (record {
        kept = refl;
        unique = Map.erase-HasUniqueKeys id s.context.tunnels u;
        steps = erase-Steps id s.context.tunnels u;
      })
    ]

    close_all-Follows :
        (ids : List ℕ) (s : State)
        → HasUniqueKeys s.context.tunnels
        → Follows cause s (close_all host ids s).1
    unfolding close_all
    close_all-Follows [] s u = Follows-refl s u
    close_all-Follows (id ∷ ids) s u =
        let closed = close_one host id s in
        let first = close_one-Follows id s u in
        continue-keeps (Follows cause s) closed.0 _ closed.1 first
          λ _ _. Follows-trans s closed.1 _ first (close_all-Follows ids closed.1 first.unique)

    close_request-Follows :
        (user : User) (args : List Text) (s : State)
        → HasUniqueKeys s.context.tunnels
        → Follows cause s (close_request host user args s).1
    unfolding close_request
    close_request-Follows user args s u =
        let After = Follows cause s in
        let found = references user.name s.context.tunnels args s in
        continue-keeps After found.0 _ found.1
          (rw (references-state user.name s args) (Follows-refl s u))
          λ ids _. rw (references-state user.name s args) (
            let closed = close_all host ids s in
            continue-keeps After closed.0 _ closed.1 (close_all-Follows ids s u)
              λ _ _. close_all-Follows ids s u)

    status_request-Follows :
        (s : State)
        → HasUniqueKeys s.context.tunnels
        → Follows cause s (status_request host crates s).1
    unfolding status_request
    status_request-Follows s u =
        let status = act (get_status host crates s.context.configuration) s in
        continue-keeps (Follows cause s) status.0 _ status.1 (Follows-same s status.1 u refl)
          λ new _. record { kept = refl; unique = u; steps = stay refl }

  run_command-Follows :
      (user : User) (request word : Text) (args : List Text) (s : State)
      → HasUniqueKeys s.context.tunnels
      → IsKnown user s
      → (command : Command)
      → Follows (by_user user.name) s (run_command host crates user request word args command s).1
  unfolding run_command open_words reboot_request shutdown_request
  run_command-Follows user request word [] s u owner open_tunnel = Follows-refl s u
  run_command-Follows user request word (name ∷ args) s u owner open_tunnel =
      open_request-Follows user name s u owner
  run_command-Follows user request word args s u owner close_tunnel =
      close_request-Follows user args s u
  run_command-Follows user request word args s u owner resolve_status = status_request-Follows s u
  run_command-Follows user request word args s u owner reboot = Follows-same s _ u refl
  run_command-Follows user request word args s u owner shutdown = Follows-same s _ u refl
  run_command-Follows user request word args s u owner unknown = Follows-refl s u

  -- A request that a user's words make moves the table by steps of that user.
  pub run_words-Follows :
      (user : User) (request : Text) (words : List Text) (s : State)
      → HasUniqueKeys s.context.tunnels
      → IsKnown user s
      → Follows (by_user user.name) s (run_words host crates user request words s).1
  unfolding run_words
  run_words-Follows user request [] s u owner = Follows-refl s u
  run_words-Follows user request (word ∷ args) s u owner =
      run_command-Follows user request word args s u owner (command_of word)

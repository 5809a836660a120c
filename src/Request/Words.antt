-- ===== src/Request/Words.antt =====
-- What of a request counts.
use telco_vecchio.Prelude.{
  ◌≡◌, ◌≢◌, refl, Option-cases, inl, inr, List, ◌∷◌, map, ◌==◌, nat_eq, list_eq, find,
}
use telco_vecchio.Text.{Text, lower}
use telco_vecchio.Text.Words.{split_whitespace}
use telco_vecchio.Config.{User}
use telco_vecchio.Effects.World.{Host, Crates}
use telco_vecchio.Context.{State}
use telco_vecchio.Request.{
  Command, open_tunnel, close_tunnel, resolve_status, reboot, shutdown, unknown, command_of,
}
use telco_vecchio.Request.Close.{references, close_request}
use telco_vecchio.Request.Handle.{open_words, run_command, run_words, handle_request}

command_of-lower :
    (word word' : Text) → map lower word ≡ map lower word' → command_of word ≡ command_of word'
unfolding command_of
command_of-lower word word' h = rw h refl

module _ (host : Host) (crates : Crates) where
  run_command-words :
      (user : User) (request request' word word' arg : Text) (args args' : List Text) (s : State)
      → (command : Command) → command ≢ unknown
      → run_command host crates user request word (arg ∷ args) command s
        ≡ run_command host crates user request' word' (arg ∷ args') command s
  unfolding run_command open_words close_request references
  run_command-words user request request' word word' arg args args' s open_tunnel h = refl
  run_command-words user request request' word word' arg args args' s close_tunnel h = refl
  run_command-words user request request' word word' arg args args' s resolve_status h = refl
  run_command-words user request request' word word' arg args args' s reboot h = refl
  run_command-words user request request' word word' arg args args' s shutdown h = refl
  run_command-words user request request' word word' arg args args' s unknown h = absurd (h refl)

  -- Two requests of one sender are carried out and answered alike if they agree in the first word, up
  -- to capitals, and in the second, and the first is a command: the spaces and the words behind do
  -- not count.
  pub handle_request-words :
      (sender request request' : Text) (s : State) {word word' arg : Text} {args args' : List Text}
      → split_whitespace request ≡ word ∷ arg ∷ args
      → split_whitespace request' ≡ word' ∷ arg ∷ args'
      → map lower word ≡ map lower word'
      → command_of word ≢ unknown
      → handle_request host crates sender request s ≡ handle_request host crates sender request' s
  unfolding handle_request run_words
  handle_request-words sender request request' s {word} {word'} {arg} {args} {args'} e e' same
        known =
      elim (Option-cases (find (λ u. u.phone_number == sender) s.context.configuration.users)) [
        | inl missing ↦ rw missing refl
        | inr (user, found) ↦ rw found (
            rw e (
              rw e' (
                rw (← command_of-lower word word' same) (
                  run_command-words user request request' word word' arg args args' s
                    (command_of word) known))))
      ]

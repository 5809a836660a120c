-- ===== src/Request/Handle.antt =====
-- `handle_request`: who asks, what is asked, and the five commands.
use telco_vecchio.Prelude.{List, [], ◌∷◌, ◌==◌, nat_eq, list_eq, find}
use telco_vecchio.Text.{Text, text}
use telco_vecchio.Text.Words.{split_whitespace}
use telco_vecchio.Config.{User}
use telco_vecchio.Effects.{
  sender_not_allowed, invalid_request_error, Exec, pure, raise, ◌>>=◌, ◌>>◌,
}
use telco_vecchio.Effects.World.{Host, Crates, scheduled, note, ok_or}
use telco_vecchio.Status.Display.{show_status}
use telco_vecchio.Status.Resolve.{get_status}
use telco_vecchio.Context.{State, act, update_status}
use telco_vecchio.Init.Register.{register_init_listener}
use telco_vecchio.Request.{
  Command, open_tunnel, close_tunnel, resolve_status, reboot, shutdown, unknown, command_of,
}
use telco_vecchio.Request.Message.{
  no_command, no_application, rebooting, shutting_down, unknown_command,
}
use telco_vecchio.Request.Open.{open_request}
use telco_vecchio.Request.Close.{close_request}

module _ (host : Host) (crates : Crates) where
  unfoldable pub status_request : Exec State Text
  status_request s =
      (do
        status ← act (get_status host crates s.context.configuration)
        update_status status
        pure (show_status status))
        s

  unfoldable pub reboot_request : User → Exec State Text
  reboot_request user =
      act
        do register_init_listener host user; note (scheduled 5 (text "reboot" ∷ [])); pure rebooting

  unfoldable pub shutdown_request : Exec State Text
  shutdown_request = act do note (scheduled 5 (text "poweroff" ∷ [])); pure shutting_down

  -- the first word behind `open`
  unfoldable pub open_words : User → Text → List Text → Exec State Text
  open_words user request [] = raise (invalid_request_error (no_application request))
  open_words user request (name ∷ args) = open_request host crates user name

  unfoldable pub run_command : User → Text → Text → List Text → Command → Exec State Text
  run_command user request word args open_tunnel = open_words user request args
  run_command user request word args close_tunnel = close_request host user args
  run_command user request word args resolve_status = status_request
  run_command user request word args reboot = reboot_request user
  run_command user request word args shutdown = shutdown_request
  run_command user request word args unknown = raise (invalid_request_error (unknown_command word))

  unfoldable pub run_words : User → Text → List Text → Exec State Text
  run_words user request [] = raise (invalid_request_error (no_command request))
  run_words user request (word ∷ args) = run_command user request word args (command_of word)

  unfoldable pub handle_request : Text → Text → Exec State Text
  handle_request sender request s =
      (do
        user ←
            ok_or (sender_not_allowed sender)
              (find (λ u. u.phone_number == sender) s.context.configuration.users)
        run_words user request (split_whitespace request))
        s

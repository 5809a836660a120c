-- ===== src/Daemon/Access.antt =====
-- Messages of strangers.
use telco_vecchio.Prelude.{
  ◌≡◌, ◌≢◌, refl, none, List, [], ◌∷◌, arith, ◌==◌, nat_eq, list_eq, ==-eq, find, All,
}
use telco_vecchio.Text.{Text}
use telco_vecchio.Config.{User}
use telco_vecchio.Effects.{sender_not_allowed, ok, err}
use telco_vecchio.Effects.World.{Host, Crates}
use telco_vecchio.Sms.{IncomingSms}
use telco_vecchio.Context.{State}
use telco_vecchio.Request.Handle.{handle_request}
use telco_vecchio.Daemon.Round.{error_response, send_response, answer_sms}

-- No configured user has this number.
abbrev pub IsStranger : List User → Text → Type 0
IsStranger users number = All (λ (u : User). u.phone_number ≢ number) users

find_stranger :
    (users : List User) (number : Text)
    → IsStranger users number
    → find (λ u. u.phone_number == number) users ≡ none
find_stranger [] number h = refl
find_stranger (u ∷ users) number h =
    ground (arith, ==-eq u.phone_number number, find_stranger users number h.1)

module _ (host : Host) (crates : Crates) where
  -- A request from a number of no user is refused before anything is done.
  pub handle_request-stranger :
      (sender request : Text) (s : State)
      → IsStranger s.context.configuration.users sender
      → handle_request host crates sender request s ≡ (err (sender_not_allowed sender), s)
  unfolding handle_request
  handle_request-stranger sender request s h =
      rw (find_stranger s.context.configuration.users sender h)

  -- A message from a number of no user is not answered, and leaves the context and the world as they
  -- were: no effect follows its reception.
  pub answer_sms-stranger :
      (sms : IncomingSms) (s : State)
      → IsStranger s.context.configuration.users sms.from
      → answer_sms host crates sms s ≡ (ok tt, s)
  unfolding answer_sms error_response send_response
  answer_sms-stranger sms s h = rw (handle_request-stranger sms.from sms.msg s h)

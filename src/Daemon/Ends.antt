-- ===== src/Daemon/Ends.antt =====
-- The end of every round, if the outside comes back.
use telco_vecchio.Prelude.{
  Bool, ◌≡◌, ◌≢◌, refl, nat_eq, list_eq, ◌==◌, ==-eq, Bool-cases, Option, none, some, Option-cases,
  inl, inr, List, [], ◌∷◌, All, find, arith,
}
use telco_vecchio.Prelude.{find_sound}
use telco_vecchio.Prelude.Map.{HasUniqueKeys}
use mathlib.Core.Path.{subst}
use telco_vecchio.Text.{Text}
use telco_vecchio.Config.{User, Configuration}
use telco_vecchio.Effects.{Error, Outcome, ok, err, panic, blocked, Exec, settle}
use telco_vecchio.Effects.Ends.{Ends}
use telco_vecchio.Effects.World.{World, Host, Crates, emit, timer}
use telco_vecchio.Sms.{IncomingSms}
use telco_vecchio.Sms.Phone.{encode_phone_number}
use telco_vecchio.Sms.Receive.{wait_sms}
use telco_vecchio.Sms.Outcome.{send_sms_returns}
use telco_vecchio.Context.{State}
use telco_vecchio.Context.Termination.{HasNumber}
use telco_vecchio.Request.Handle.{handle_request}
use telco_vecchio.Request.Outside.{ComesBack}
use telco_vecchio.Request.Ends.{handle_request-Ends}
use telco_vecchio.Daemon.Round.{error_response, send_response, answer_sms, dispatch, round}
use telco_vecchio.Daemon.Quiet.{Replies, IsSteady, periodic-EndsFresh}
use telco_vecchio.Daemon.Clockless.{IsClockless, wait-IsClockless}
use telco_vecchio.Effects.Only.{Extends}

settle_both :
    {A : Type 0} (r : Outcome A) (f : A → Exec State (Unit {0})) (g : Error → Exec State (Unit {0}))
    (s : State)
    → Ends r
    → ((a : A) → (f a s).0 ≡ ok tt)
    → ((e : Error) → (g e s).0 ≡ ok tt)
    → (settle r f g s).0 ≡ ok tt
settle_both (ok a) f g s h k l = k a
settle_both (err e) f g s h k l = l e
settle_both panic f g s h k l = absurd h
settle_both blocked f g s h k l = absurd h

All-found :
    (p : User → Bool) (users : List User) {user : User}
    → All HasNumber users
    → find p users ≡ some user
    → HasNumber user
All-found p [] h e = cc
All-found p (u ∷ users) {user} h e = elim (Bool-cases (p u)) [
  | inl hit ↦ let same : u ≡ user = ground arith in subst HasNumber same h.0
  | inr miss ↦ All-found p users {user = user} h.1 (rw miss at e)
]

module _ (host : Host) (crates : Crates) where
  send_response-ok :
      (to : Text) (message : Option Text) (s : State)
      → encode_phone_number to ≢ none
      → (send_response host crates to message s).0 ≡ ok tt
  unfolding send_response
  send_response-ok to none s h = refl
  send_response-ok to (some message) s h =
      elim (send_sms_returns host crates s.context.configuration.sms_config
        (record { to = to; msg = message }) s.world h) [
          | inl sent ↦ rw sent refl
          | inr lost ↦ rw lost refl
        ]

  unknown_sender :
      (sms : IncomingSms) (s : State)
      → find (λ (u : User). u.phone_number == sms.from) s.context.configuration.users ≡ none
      → (answer_sms host crates sms s).0 ≡ ok tt
  unfolding answer_sms handle_request error_response send_response
  unknown_sender sms s missing = rw missing refl

module _ (host : Host) (crates : Crates) where
  answer_sms-ok :
      (sms : IncomingSms) (s : State)
      → ComesBack host crates s.context.configuration
      → All HasNumber s.context.configuration.users
      → (answer_sms host crates sms s).0 ≡ ok tt
  unfolding answer_sms
  answer_sms-ok sms s back numbers =
      elim (Option-cases
        (find (λ (u : User). u.phone_number == sms.from) s.context.configuration.users)) [
          | inl missing ↦ unknown_sender host crates sms s missing
          | inr (user, found) ↦
              let encodes =
                subst (λ n. encode_phone_number n ≢ none)
                  (==-eq user.phone_number sms.from
                    (find_sound _ s.context.configuration.users {a = user} found))
                  (All-found _ s.context.configuration.users {user = user} numbers found) in
              let handled = handle_request host crates sms.from sms.msg s in
              settle_both handled.0 _ _ handled.1
                (handle_request-Ends host crates sms.from sms.msg s back)
                (λ message. send_response-ok host crates sms.from (some message) handled.1 encodes)
                (λ e. send_response-ok host crates sms.from (error_response e) handled.1 encodes)
        ]

  replies : (c : Configuration) → ComesBack host crates c → Replies host
  replies c back = record {
    kills = back.kills;
    pings = back.status.network.pings;
    spawns = back.status.spawns;
  }

  dispatch-ok :
      (r : Outcome IncomingSms) (s : State) (w : World)
      → ComesBack host crates s.context.configuration
      → Extends IsClockless s.world w
      → All HasNumber s.context.configuration.users
      → HasUniqueKeys s.context.tunnels
      → IsSteady host s
      → r ≢ panic
      → (dispatch host crates r (record s { world = w })).0 ≡ ok tt
  unfolding dispatch
  dispatch-ok (ok sms) s w back since numbers u steady calm =
      answer_sms-ok sms (record s { world = w }) back numbers
  dispatch-ok (err e) s w back since numbers u steady calm = refl
  dispatch-ok panic s w back since numbers u steady calm = absurd (calm refl)
  dispatch-ok blocked s w back since numbers u steady calm =
      (periodic-EndsFresh host crates (replies s.context.configuration back) s w since numbers u
        steady).ends

  -- Suppose that commands, pings, look-ups, kills and the uses of the register file come back, with an
  -- answer or an error, that a query of the modem which prints JSON prints the value asked for, and that
  -- an ssh process that is started has a pipe for its errors, which gives text when it is read; that the
  -- users' numbers can be encoded, the references are distinct, and from now on no clock reading lies
  -- before the creation of a tunnel that is open now. Then a round comes to its end and the loop goes on,
  -- whatever message comes, if any, and whatever it asks for, unless the reading of the message panics.
  pub round_returns :
      (s : State)
      → ComesBack host crates s.context.configuration
      → All HasNumber s.context.configuration.users
      → HasUniqueKeys s.context.tunnels
      → IsSteady host s
      → (wait_sms host crates s.context.configuration.sms_config
          (emit (timer s.context.configuration.ssh_config.tunnel_refresh_period_sec) s.world)).0
        ≢ panic
      → (round host crates s).0 ≡ ok tt
  unfolding round
  round_returns s back numbers u steady calm =
      dispatch-ok _ s _ back (wait-IsClockless host crates s) numbers u steady calm

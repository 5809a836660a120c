-- ===== src/Request/Open/Parts.antt =====
-- What the checks of `open` say when they let a request through, and what they leave alone.
use telco_vecchio.Prelude.{◌≡◌, ◌↔◌, ap, false, none, some, ◌==◌, nat_eq, list_eq, find, length}
use telco_vecchio.Prelude.Map.{lookup}
use telco_vecchio.Prelude.{arith}
use telco_vecchio.Text.{Text}
use telco_vecchio.Config.{User, Application}
use telco_vecchio.Effects.{Outcome, ok}
use telco_vecchio.Status.{reachable, ready}
use telco_vecchio.Context.{Context, is_tunnel_of, max_reached}
use telco_vecchio.Request.Open.{check_open}

-- All that is true of a request to open a tunnel that passes the checks.
pub record MayOpen (c : Context) (user : User) (name : Text) (app : Application) : Type 0 where
  pub device : c.status.device_status ≡ ready
  pub email : c.status.email_service_status ≡ reachable
  pub ssh : c.status.ssh_tunnel_service_status ≡ reachable
  pub configured : find (λ a. a.name == name) c.configuration.applications ≡ some app
  pub answers : lookup name c.status.applications_status ≡ some reachable
  pub below_max :
      max_reached c.configuration.ssh_config.tunnel_max_number (length c.tunnels) ≡ false
  pub not_open : find (is_tunnel_of user.name app.name) c.tunnels ≡ none

module _ {ℓ} {S : Type ℓ} where
  -- The checks change nothing.
  pub check_open-state :
      (c : Context) (user : User) (name : Text) (s : S) → (check_open c user name s).1 ≡ s
  unfolding check_open
  check_open-state c user name s = ground arith

  -- What passes the checks of `open` meets all the conditions.
  pub check_open_sound :
      (c : Context) (user : User) (name : Text) (s : S) (app : Application)
      → (check_open c user name s).0 ≡ ok app
      → MayOpen c user name app
  unfolding check_open
  check_open_sound c user name s app h = ground arith

  -- A request that meets all the conditions passes the checks of `open`, which change nothing.
  pub check_open_complete :
      (c : Context) (user : User) (name : Text) (s : S) (app : Application)
      → MayOpen c user name app
      → check_open c user name s ≡ (ok app, s)
  unfolding check_open
  check_open_complete c user name s app m = ground arith

  -- A request to open a tunnel passes the checks with an application, and leaves all as it was, exactly if
  -- the device is ready, both services are reachable, the application is the configured one of the name
  -- and was reachable, the maximum is not reached and the user has no tunnel to the application.
  pub check_open_iff :
      (c : Context) (user : User) (name : Text) (s : S) (app : Application)
      → (check_open c user name s ≡ (ok app, s)) ↔ MayOpen c user name app
  check_open_iff c user name s app = (
    λ h. check_open_sound c user name s app (ap (λ (r : Outcome Application × S). r.0) h),
    check_open_complete c user name s app,
  )

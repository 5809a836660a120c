-- ===== src/Request/Open/Ends.antt =====
-- The end of the checks of `open`.
use telco_vecchio.Prelude.{ℕ, not, Option, none, some, ◌==◌, nat_eq, list_eq, find}
use telco_vecchio.Prelude.Map.{lookup}
use telco_vecchio.Text.{Text}
use telco_vecchio.Config.{User}
use telco_vecchio.Effects.{invalid_request_error}
use telco_vecchio.Effects.Ends.{Ends, continue-Ends, ok_or-Ends, fail_if-Ends}
use telco_vecchio.Effects.World.{ok_or}
use telco_vecchio.Context.{Tunnel, Context}
use telco_vecchio.Status.{is_ready, is_reachable}
use telco_vecchio.Context.{max_reached, is_tunnel_of}
use telco_vecchio.Prelude.{length}
use telco_vecchio.Request.Open.{fail_if_open, check_open, status_or}
use telco_vecchio.Request.Message.{unknown_application}

module _ {ℓ} {S : Type ℓ} where
  fail_if_open-Ends : (o : Option (ℕ × Tunnel)) (s : S) → Ends (fail_if_open o s).0
  fail_if_open-Ends none s = tt
  fail_if_open-Ends (some (id, t)) s = tt

  pub check_open-Ends :
      (c : Context) (user : User) (name : Text) (s : S) → Ends (check_open c user name s).0
  unfolding check_open
  check_open-Ends c user name s =
      continue-Ends _ _ _ (fail_if-Ends (not (is_ready c.status.device_status)) _ s) λ _ _.
        continue-Ends _ _ _ (fail_if-Ends (not (is_reachable c.status.email_service_status)) _ s)
          λ _ _.
            continue-Ends _ _ _
              (fail_if-Ends (not (is_reachable c.status.ssh_tunnel_service_status)) _ s)
              λ _ _.
                continue-Ends _ _ _
                  (ok_or-Ends _ (find (λ a. a.name == name) c.configuration.applications) s)
                  λ app _.
                    let s' =
                      (ok_or (invalid_request_error (unknown_application name))
                        (find (λ a. a.name == name) c.configuration.applications) s).1 in
                    continue-Ends _ _ _
                      (fail_if-Ends
                        (not (is_reachable (status_or (lookup name c.status.applications_status))))
                        _ s')
                      λ _ _.
                        continue-Ends _ _ _
                          (fail_if-Ends
                            (max_reached c.configuration.ssh_config.tunnel_max_number
                              (length c.tunnels))
                            _ s')
                          λ _ _.
                            continue-Ends _ _ _
                              (fail_if_open-Ends (find (is_tunnel_of user.name app.name) c.tunnels)
                                s')
                              λ _ _. tt

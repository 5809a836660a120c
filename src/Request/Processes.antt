-- ===== src/Request/Processes.antt =====
-- The process that is started for a request: handed over at a success, dropped otherwise.
use telco_vecchio.Prelude.{ℕ, ◌≡◌, refl, arith, nat_eq, list_eq}
use telco_vecchio.Text.{Text}
use telco_vecchio.Text.Decimal.{ℤ}
use telco_vecchio.Config.{User, Application, SshConfig, EmailConfig, IpAddr}
use telco_vecchio.Effects.{Outcome, ok, err, panic, blocked, Exec, pure, continue, ◌>>◌}
use telco_vecchio.Effects.World.{
  Effect, World, Host, Crates, emit, spawned, held, dropped, perform, holding, drop_unless_ok,
}
use telco_vecchio.Effects.Only.{Only-perform, Only-map}
use telco_vecchio.Email.{OutgoingEmail, send_email}
use telco_vecchio.Email.Effects.{IsMailing, send_email-Mails}
use telco_vecchio.Ssh.{setup_ssh_tunnel, read_tunnel_url, ssh_line}
use telco_vecchio.Ssh.Effects.{IsPipeRead, read_tunnel_url-ReadsPipes}
use telco_vecchio.Context.{Context}
use telco_vecchio.Context.Ledger.{one_if, Owes, IsNeutral, Only-Owes}
use telco_vecchio.Request.Open.{start_tunnel}

mailing-IsNeutral : (e : Effect) → IsMailing e → IsNeutral e
mailing-IsNeutral (held p) h = absurd h
mailing-IsNeutral (dropped p) h = absurd h
mailing-IsNeutral _ h = tt

pipe-IsNeutral : (e : Effect) → IsPipeRead e → IsNeutral e
pipe-IsNeutral (held p) h = absurd h
pipe-IsNeutral (dropped p) h = absurd h
pipe-IsNeutral _ h = tt

module _ (pid : ℕ) where
  -- What a computation that may hand over the process owes by its end: `count` of them at a success,
  -- none at an error or a panic.
  abbrev pub Brings : {A : Type 0} → (A → ℕ) → World → Outcome A × World → Type 0
  Brings count w (ok a, v) = Owes pid (count a) w v
  Brings count w (err e, v) = Owes pid 0 w v
  Brings count w (panic, v) = Owes pid 0 w v
  Brings count w (blocked, v) = Unit

  shift :
      {A : Type 0} (count : A → ℕ) (w v : World) (r : Outcome A × World)
      → Owes pid 0 w v
      → Brings count v r
      → Brings count w r
  shift count w v (ok a, u) o b = omega arith
  shift count w v (err e, u) o b = omega arith
  shift count w v (panic, u) o b = omega arith
  shift count w v (blocked, u) o b = tt

  continue-Brings :
      {A B : Type 0} (count : B → ℕ) (r : Outcome A) (f : A → Exec World B) (w v : World)
      → Owes pid 0 w v
      → ((a : A) (u : World) → Brings count u (f a u))
      → Brings count w (continue r f v)
  continue-Brings count (ok a) f w v o k = shift count w v (f a v) o (k a v)
  continue-Brings count (err e) f w v o k = o
  continue-Brings count panic f w v o k = o
  continue-Brings count blocked f w v o k = tt

  -- A process that is taken is handed on at a success of what follows, and dropped otherwise.
  kept-Brings :
      {A B : Type 0} (count : B → ℕ) (p : ℕ) (g : A → B) (w v : World) (r : Outcome A × World)
      → Owes pid (one_if pid p) w v
      → Owes pid 0 v r.1
      → ((a : A) → count (g a) ≡ one_if pid p)
      → Brings count w (continue (drop_unless_ok p r).0 (λ a. pure (g a)) (drop_unless_ok p r).1)
  kept-Brings count p g w v (ok a, u) o z h = omega (arith, h a)
  kept-Brings count p g w v (err e, u) o z h = omega arith
  kept-Brings count p g w v (panic, u) o z h = omega arith
  kept-Brings count p g w v (blocked, u) o z h = tt

  module _ (host : Host) (crates : Crates) where
    setup-Brings :
        (c : SshConfig) (ip : IpAddr) (port : ℤ) (w : World)
        → Brings (λ (x : Text × ℕ). one_if pid x.1) w (setup_ssh_tunnel host crates c ip port w)
    unfolding setup_ssh_tunnel
    setup-Brings c ip port w =
        let spawn =
          perform (spawned (ssh_line c ip port)) (λ t. host.spawn t (ssh_line c ip port)) in
        continue-Brings (λ x. one_if pid x.1) (spawn w).0 _ w (spawn w).1
          (Only-Owes pid spawn (Only-perform _ _ tt) w)
          λ child u.
            let v = emit (held child.pid) u in
            let read = read_tunnel_url host crates c child in
            kept-Brings (λ x. one_if pid x.1) child.pid (λ a. (a, child.pid)) u v (read v)
              (omega arith)
              (Only-Owes pid read
                (Only-map pipe-IsNeutral (read_tunnel_url-ReadsPipes host crates c child)) v)
              (λ a. refl)

    start_from-Brings :
        (c : EmailConfig) (email : Text × ℕ → OutgoingEmail) (w : World)
        (r : Outcome (Text × ℕ) × World)
        → Brings (λ (x : Text × ℕ). one_if pid x.1) w r
        → Brings
            (one_if pid)
            w
            (continue r.0 (λ x. holding x.1 (send_email host c (email x)) >> pure x.1) r.1)
    start_from-Brings c email w (ok (u, p), v) b =
        let send = send_email host c (email (u, p)) in
        kept-Brings (one_if pid) p (λ _. p) w v (send v) b
          (Only-Owes pid send (Only-map mailing-IsNeutral (send_email-Mails host c (email (u, p))))
            v)
          (λ _. refl)
    start_from-Brings c email w (err e, v) b = b
    start_from-Brings c email w (panic, v) b = b
    start_from-Brings c email w (blocked, v) b = tt

    -- A process that is started for a request is handed over, or dropped if its mail is not sent.
    pub start-Brings :
        (c : Context) (user : User) (app : Application) (w : World)
        → Brings (one_if pid) w (start_tunnel host crates c user app w)
    unfolding start_tunnel
    start-Brings c user app w =
        start_from-Brings c.configuration.email_config _ w
          (setup_ssh_tunnel host crates c.configuration.ssh_config app.host_ip app.port w)
          (setup-Brings c.configuration.ssh_config app.host_ip app.port w)

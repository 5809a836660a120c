-- ===== src/Request/Delivery.antt =====
-- What the user gets for a successful `open`: the address of the tunnel, by mail.
use telco_vecchio.Prelude.{ℕ, ◌≡◌, Option, none, some, ◌++◌, nat_eq, list_eq}
use telco_vecchio.Prelude.Map
use telco_vecchio.Prelude.Map.{lookup}
use telco_vecchio.Text.{Text, text}
use telco_vecchio.Config.{User, Application}
use telco_vecchio.Effects.{ok}
use telco_vecchio.Effects.Keeps.{continue-then, drop_unless_ok-ok}
use telco_vecchio.Effects.World.{dropped, clock_read, emit, World, Host, Crates, holding}
use telco_vecchio.Effects.Growth.{Grows, Grows-refl, Grows-emit}
use telco_vecchio.Effects.Only.{Extends-trans}
use telco_vecchio.Email.{OutgoingEmail, send_email}
use telco_vecchio.Email.Delivered.{IsMailed, send_email-IsMailed}
use telco_vecchio.Ssh.{setup_ssh_tunnel, ssh_line}
use telco_vecchio.Ssh.Address.{Connects, setup_ssh_tunnel-Connects}
use telco_vecchio.Context.{Tunnel, Context, State, act, drop_old, insert_tunnel}
use telco_vecchio.Request.Message.{url_mail}
use telco_vecchio.Request.Open.{check_open, start_tunnel, record_tunnel, open_request, new_id}
use telco_vecchio.Request.Open.Parts.{MayOpen, check_open-state, check_open_sound}

-- The mail of a tunnel's address.
abbrev pub address_mail : User → Application → Text → OutgoingEmail
address_mail user app u = record {
  to = user.email;
  title = text "Tunnel URL";
  msg = url_mail user app (u ++ app.end_point);
}

-- An ssh process for the application was started and printed an address on its standard output, and
-- right after this a mail of this address was given to the command that sends mails, which ended well.
pub record Delivers (host : Host) (crates : Crates) (c : Context) (user : User) (app : Application)
    (process : ℕ) (w v : World) : Type 0 where
  pub address : Text
  pub connected : World
  pub mailed : World
  pub connects :
      let ssh = c.configuration.ssh_config in
      Connects host crates ssh (ssh_line ssh app.host_ip app.port) process address w connected
  pub mails :
      IsMailed host c.configuration.email_config (address_mail user app address) connected mailed
  pub later : Grows mailed v

-- The tunnel that stands under the new reference, and what was done for it.
abbrev pub Gives : Host → Crates → User → Text → State → State → Type 0
Gives host crates user name s s' =
    (app : Application) × (t : Tunnel) × MayOpen s.context user name app
    × (lookup (new_id s.context) s'.context.tunnels ≡ some t)
    × Delivers host crates s.context user app t.process s.world s'.world

drop_old-Grows : (o : Option Tunnel) (w : World) → Grows w (drop_old o w)
drop_old-Grows none w = Grows-refl w
drop_old-Grows (some t) w = Grows-emit (dropped t.process) w

module _ (host : Host) (crates : Crates) where
  start_tunnel-Delivers :
      (c : Context) (user : User) (app : Application) (w : World) {process : ℕ}
      → (start_tunnel host crates c user app w).0 ≡ ok process
      → Delivers host crates c user app process w (start_tunnel host crates c user app w).1
  unfolding start_tunnel
  start_tunnel-Delivers c user app w {process} h =
      let C = Delivers host crates c user app process w in
      let set = setup_ssh_tunnel host crates c.configuration.ssh_config app.host_ip app.port w in
      continue-then C set.0 _ set.1 h λ tunnel e h1.
        let mail = address_mail user app tunnel.0 in
        let sending = send_email host c.configuration.email_config mail in
        let sent = holding tunnel.1 sending set.1 in
        continue-then C sent.0 _ sent.1 h1 λ _ e1 h2.
          let (in_time, kept) = drop_unless_ok-ok tunnel.1 (sending set.1) e1 in
          let same : tunnel.1 ≡ process = cc in
          record {
            address = tunnel.0;
            connected = set.1;
            mailed = (sending set.1).1;
            connects = rw (← same) (
                setup_ssh_tunnel-Connects host crates c.configuration.ssh_config app.host_ip
                  app.port w {u = tunnel.0} {pid = tunnel.1} e);
            mails = send_email-IsMailed host c.configuration.email_config mail set.1 in_time;
            later = rw kept (Grows-refl (sending set.1).1);
          }

  record_tunnel-Gives :
      (user : User) (name : Text) (app : Application) (process : ℕ) (s : State) (w : World)
      → MayOpen s.context user name app
      → Delivers host crates s.context user app process s.world w
      → Gives host crates user name s
          (record_tunnel host user app process (record s { world = w })).1
  unfolding record_tunnel insert_tunnel
  record_tunnel-Gives user name app process s w may d =
      let c = s.context in
      let t : Tunnel = record {
        user = user.name;
        application = app.name;
        process = process;
        creation_date = host.clock w.trace;
      } in
      (
        app,
        t,
        may,
        Map.lookup-insert_self (new_id c) t c.tunnels,
        record {
          address = d.address;
          connected = d.connected;
          mailed = d.mailed;
          connects = d.connects;
          mails = d.mails;
          later = Extends-trans d.later (
              Extends-trans (Grows-emit clock_read w)
                (drop_old-Grows (lookup (new_id c) c.tunnels) (emit clock_read w)));
        },
      )

  -- A successful `open` met all the conditions. It started an ssh process for the application and read
  -- that process's standard output, piece by piece, until what it had read named an address. Right
  -- after this it started the command that sends mails for the user, offered it, in one write of which
  -- some bytes were taken, the mail with this address and the application's end point, and the command
  -- ended with success. The ssh process is the one of the tunnel under the new reference afterwards.
  pub open_request-Delivers :
      (user : User) (name : Text) (s : State) {answer : Text}
      → (open_request host crates user name s).0 ≡ ok answer
      → Gives host crates user name s (open_request host crates user name s).1
  unfolding open_request
  open_request-Delivers user name s h =
      let c = s.context in
      let C : State → Type 0 = Gives host crates user name s in
      let checked = check_open c user name s in
      continue-then C checked.0 _ checked.1 h λ app e h1. rw (check_open-state c user name s) (
        let started = act (start_tunnel host crates c user app) s in
        continue-then C started.0 _ started.1 (rw (check_open-state c user name s) at h1)
          λ process e1 _.
            record_tunnel-Gives user name app process s started.1.world
              (check_open_sound c user name s app e)
              (start_tunnel-Delivers c user app s.world {process = process} e1))

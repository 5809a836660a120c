-- ===== src/Status/Network.antt =====
-- The part of a status that only pings come to.
use telco_vecchio.Prelude.{
  ◌≡◌, ◌≢◌, refl, ◌⊎◌, inl, inr, Bool, true, false, List, [], ◌∷◌, if◌then◌else◌, nat_eq, list_eq,
}
use telco_vecchio.Prelude.Map.{Map, insert}
use telco_vecchio.Text.{Text}
use telco_vecchio.Config.{Application, Configuration, IpAddr}
use telco_vecchio.Effects.{Error, ping_error, io_error, ok, err, Exec, pure, continue, ◌>>=◌}
use telco_vecchio.Effects.World.{
  Trace, World, Host, Reply, done, failed, pending, answer, emit, resolved, pinged, ping,
}
use telco_vecchio.Status.{ServiceStatus, reachable, unreachable}
use telco_vecchio.Status.Qmi.{is_connected_to_internet}
use telco_vecchio.Status.Internet.{PingsReturn, is_connected_to_internet_returns}
use telco_vecchio.Status.Resolve.{
  reaches, ping_first, ping_domain, applications_from, services_status,
}

-- Pings and name look-ups come back, with an answer or an error.
pub record Network (host : Host) : Type 0 where
  pub pings : PingsReturn host
  pub resolves : (t : Trace) (domain : Text) → host.lookup_host t domain ≢ pending

-- The computation succeeds from any world.
abbrev pub Succeeds : {A : Type 0} → Exec World A → Type 0
Succeeds {A} m = (w : World) → (a : A) × ((m w).0 ≡ ok a)

module _ {A : Type 0} where
  pub succeed : (a : A) → Succeeds (pure {S = World} a)
  succeed a w = (a, refl)

  pub then_succeed :
      {B : Type 0} (m : Exec World A) (f : A → Exec World B)
      → Succeeds m
      → ((a : A) → Succeeds (f a))
      → Succeeds (m >>= f)
  then_succeed m f x k w = let (a, e) = x w in let (b, e') = k a (m w).1 in (b, rw e e')

-- A ping that is only looked at.
abbrev Returns : Exec World (Unit {0}) → Type 0
Returns m = (w : World) → ((m w).0 ≡ ok tt) ⊎ ((e : Error) × ((m w).0 ≡ err e))

reaches-Succeeds : (m : Exec World (Unit {0})) → Returns m → Succeeds (reaches m)
reaches-Succeeds m x w = elim (x w) [
  | inl e ↦ (reachable, rw e refl)
  | inr (error, e) ↦ (unreachable, rw e refl)
]

answer_returns :
    (wrap : Text → Error) (r : Reply (Unit {0})) (w : World)
    → r ≢ pending
    → ((answer wrap r w).0 ≡ ok tt) ⊎ ((e : Error) × ((answer wrap r w).0 ≡ err e))
answer_returns wrap (done a) w h = inl refl
answer_returns wrap (failed t) w h = inr (wrap t, refl)
answer_returns wrap pending w h = absurd (h refl)

pub if-Succeeds :
    {A : Type 0} (b : Bool) (m n : Exec World A)
    → Succeeds m
    → Succeeds n
    → Succeeds (if b then m else n)
if-Succeeds true m n x y = x
if-Succeeds false m n x y = y

module _ (host : Host) (network : Network host) where
  ping-Returns : (ip : IpAddr) → Returns (ping host ip)
  ping-Returns ip w =
      answer_returns ping_error (host.ping w.trace ip) (emit (pinged ip) w)
        (network.pings w.trace ip)

  ping_first-Returns : (ips : List IpAddr) → Returns (ping_first host ips)
  unfolding ping_first
  ping_first-Returns [] w = inr (_, refl)
  ping_first-Returns (ip ∷ ips) w = ping-Returns ip w

  ping_from_reply :
      (r : Reply (List IpAddr)) (w : World)
      → r ≢ pending
      → let found = answer {S = World} io_error r w in
        ((continue found.0 (ping_first host) found.1).0 ≡ ok tt)
        ⊎ ((e : Error) × ((continue found.0 (ping_first host) found.1).0 ≡ err e))
  ping_from_reply (done ips) w h = ping_first-Returns ips w
  ping_from_reply (failed t) w h = inr (_, refl)
  ping_from_reply pending w h = absurd (h refl)

  ping_domain-Returns : (domain : Text) → Returns (ping_domain host domain)
  unfolding ping_domain
  ping_domain-Returns domain w =
      ping_from_reply (host.lookup_host w.trace domain) (emit (resolved domain) w)
        (network.resolves w.trace domain)

  pub applications-Succeeds :
      (apps : List Application) (m : Map Text ServiceStatus)
      → Succeeds (applications_from host apps m)
  unfolding applications_from
  applications-Succeeds [] m = succeed m
  applications-Succeeds (app ∷ apps) m =
      then_succeed (reaches (ping host app.host_ip)) _
        (reaches-Succeeds _ (ping-Returns app.host_ip))
        λ s. applications-Succeeds apps (insert app.name s m)

  pub services-Succeeds : (c : Configuration) (b : Bool) → Succeeds (services_status host c b)
  unfolding services_status
  services-Succeeds c false = succeed _
  services-Succeeds c true =
      then_succeed (reaches (ping_domain host c.email_config.server_domain)) _
        (reaches-Succeeds _ (ping_domain-Returns c.email_config.server_domain))
        λ email.
          then_succeed (reaches (ping_domain host c.ssh_config.service_host)) _
            (reaches-Succeeds _ (ping_domain-Returns c.ssh_config.service_host))
            λ ssh. succeed (email, ssh)

  pub internet-Succeeds : (ip : IpAddr) → Succeeds (is_connected_to_internet host ip)
  internet-Succeeds ip w = elim (is_connected_to_internet_returns host ip w network.pings) [
    | inl e ↦ (true, e)
    | inr e ↦ (false, e)
  ]

-- ===== src/Context.antt =====
-- The daemon's state: `Context` and `Tunnel` of daemon/src/common.rs, with the world around them.
pub mod Expiry
pub mod Invariant
pub mod Ledger
pub mod Accounts
pub mod Cleaning
pub mod Cleanup
pub mod Survivors
pub mod Termination
pub mod Clock
use telco_vecchio.Prelude.{ℕ, [], none, some}
use telco_vecchio.Prelude.Map.{Map, lookup, insert, erase}
use telco_vecchio.Prelude.{nat_eq, list_eq, Option, Bool, false, ◌&&◌, ◌==◌, leb}
use telco_vecchio.Text.{Text}
use telco_vecchio.Config.{Configuration}
use telco_vecchio.Effects.{Exec, ok}
use telco_vecchio.Effects.World.{World, Host, clock_read, dropped, emit}
use telco_vecchio.Status.{Status}

-- The process is known by its pid.
pub record Tunnel : Type 0 where
  pub user : Text
  pub application : Text
  pub process : ℕ
  pub creation_date : ℕ

pub record Context : Type 0 where
  pub configuration : Configuration
  pub status : Status
  pub tunnels : Map ℕ Tunnel

-- `Context::new`
abbrev pub new_context : Configuration → Status → Context
new_context c s = record { configuration = c; status = s; tunnels = [] }

pub record State : Type 0 where
  pub context : Context
  pub world : World

-- a computation that does not touch the context
abbrev pub act {ℓ} : {A : Type ℓ} → Exec World A → Exec State A
act m s = let (r, w) = m s.world in (r, record s { world = w })

abbrev pub update_status : Status → Exec State (Unit {0})
update_status status s = (ok tt, record s { context = record (s.context) { status = status } })

abbrev pub set_tunnels : Map ℕ Tunnel → State → State
set_tunnels m s = record s { context = record (s.context) { tunnels = m } }

-- `SystemTime::now()`
abbrev pub now : Host → Exec World ℕ
now host w = (ok (host.clock w.trace), emit clock_read w)

-- a value that leaves the map is dropped
abbrev pub drop_old : Option Tunnel → World → World
drop_old none w = w
drop_old (some t) w = emit (dropped t.process) w

unfoldable pub insert_tunnel : ℕ → Tunnel → Exec State (Unit {0})
insert_tunnel id t s = (
  ok tt,
  record {
    context = record (s.context) { tunnels = insert id t s.context.tunnels };
    world = drop_old (lookup id s.context.tunnels) s.world;
  },
)

unfoldable pub remove_tunnel : ℕ → Exec State (Unit {0})
remove_tunnel id s = (
  ok tt,
  record {
    context = record (s.context) { tunnels = erase id s.context.tunnels };
    world = drop_old (lookup id s.context.tunnels) s.world;
  },
)

-- `tunnel.user == user.name && tunnel.application == application.name`
abbrev pub is_tunnel_of : Text → Text → ℕ × Tunnel → Bool
is_tunnel_of user application e = e.1.user == user && e.1.application == application

abbrev pub max_reached : Option ℕ → ℕ → Bool
max_reached none n = false
max_reached (some max) n = leb max n

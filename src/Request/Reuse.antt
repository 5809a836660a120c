-- ===== src/Request/Reuse.antt =====
-- `open` under a reference that is in use: the tunnel that had it is lost.
use telco_vecchio.Prelude.{ℕ, ◌≡◌, refl, some, [], ◌∷◌, arith, nat_eq, length}
use telco_vecchio.Prelude.Map
use telco_vecchio.Prelude.Map.{Map, lookup, insert}
use telco_vecchio.Text.{Text}
use telco_vecchio.Config.{User, Application}
use telco_vecchio.Effects.{ok}
use telco_vecchio.Effects.Keeps.{continue-ok}
use telco_vecchio.Effects.World.{Effect, dropped, Trace, Host, Crates}
use telco_vecchio.Context.{Tunnel, State, act, insert_tunnel}
use telco_vecchio.Request.Open.{check_open, start_tunnel, record_tunnel, open_request, new_id}
use telco_vecchio.Request.Open.Parts.{check_open-state}
use telco_vecchio.Request.RoundTrip.{open_request-opened}

length-insert_old :
    (id : ℕ) (t : Tunnel) (m : Map ℕ Tunnel) {old : Tunnel}
    → lookup id m ≡ some old
    → length (insert id t m) ≡ length m
length-insert_old id t [] h = cc
length-insert_old id t ((j, u) ∷ m) {old} h = ground (arith, length-insert_old id t m {old = old})

-- The last effect is this one.
abbrev pub EndsWith : Effect → Trace → Type 0
EndsWith e t = (rest : Trace) × (t ≡ e ∷ rest)

module _ (host : Host) (crates : Crates) where
  record_tunnel-drops :
      (user : User) (app : Application) (process : ℕ) (s : State) {old : Tunnel}
      → lookup (new_id s.context) s.context.tunnels ≡ some old
      → EndsWith (dropped old.process) (record_tunnel host user app process s).1.world.trace
  unfolding record_tunnel insert_tunnel
  record_tunnel-drops user app process s h = rw h (_, refl)

  open_request-drops :
      (user : User) (name : Text) (s : State) {old : Tunnel} {answer : Text}
      → lookup (new_id s.context) s.context.tunnels ≡ some old
      → (open_request host crates user name s).0 ≡ ok answer
      → EndsWith (dropped old.process) (open_request host crates user name s).1.world.trace
  unfolding open_request
  open_request-drops user name s used h =
      let checked = check_open s.context user name s in
      let (app, e, last) = continue-ok checked.0 _ checked.1 h in
      rw e (
        rw (check_open-state s.context user name s) (
          let started = act (start_tunnel host crates s.context user app) s in
          let (process, e', _) =
            continue-ok started.0 (record_tunnel host user app) started.1
              (rw (check_open-state s.context user name s) at last) in
          rw e' (record_tunnel-drops user app process started.1 used)))

  -- If the number of the open tunnels is the reference of one of them, as it is when an older one was
  -- closed, a successful `open` drops that tunnel's process and puts its own tunnel in its place: the
  -- reference leads to the new tunnel, and there are no more tunnels than before.
  pub open_request-replaces :
      (user : User) (name : Text) (s : State) {old : Tunnel} {answer : Text}
      → lookup (new_id s.context) s.context.tunnels ≡ some old
      → (open_request host crates user name s).0 ≡ ok answer
      → let s' = (open_request host crates user name s).1 in
        EndsWith (dropped old.process) s'.world.trace
        × ((t : Tunnel) × (t.user ≡ user.name)
            × (lookup (new_id s.context) s'.context.tunnels ≡ some t))
        × (length s'.context.tunnels ≡ length s.context.tunnels)
  open_request-replaces user name s used h =
      let (app, t, may, owner, target, same, new) = open_request-opened host crates user name s h in
      let id = new_id s.context in
      (
        open_request-drops user name s used h,
        (t, owner, rw new (Map.lookup-insert_self id t s.context.tunnels)),
        rw new (length-insert_old id t s.context.tunnels used),
      )

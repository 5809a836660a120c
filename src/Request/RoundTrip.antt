-- ===== src/Request/RoundTrip.antt =====
-- `open` and then `close` with the reference that the answer names.
use telco_vecchio.Prelude.{
  ℕ, ◌<◌, ◌≡◌, refl, ◌∙◌, none, some, List, [], ◌∷◌, arith, nat_eq, ==-refl,
}
use telco_vecchio.Prelude.Map
use telco_vecchio.Prelude.Map.{Map, lookup, insert, erase}
use telco_vecchio.Text.{Text}
use telco_vecchio.Text.Decimal.{show, u32_mod}
use telco_vecchio.Text.Decimal.RoundTrip.{parse_u32-show}
use telco_vecchio.Config.{User, Application}
use telco_vecchio.Effects.{Outcome, ok, err, panic, blocked, Exec, continue}
use telco_vecchio.Effects.Keeps.{continue-ok}
use telco_vecchio.Effects.World.{Host, Crates}
use telco_vecchio.Context.{Tunnel, Context, State, act, insert_tunnel}
use telco_vecchio.Request.Message.{tunnel_open}
use telco_vecchio.Request.Open.{check_open, start_tunnel, record_tunnel, open_request, new_id}
use telco_vecchio.Request.Open.Parts.{MayOpen, check_open-state, check_open_sound}
use telco_vecchio.Request.Close.{references, kill_found, close_one, close_all, close_request}

erase-insert_new :
    (id : ℕ) (t : Tunnel) (m : Map ℕ Tunnel) → lookup id m ≡ none → erase id (insert id t m) ≡ m
erase-insert_new id t [] h = ground (arith, ==-refl id)
erase-insert_new id t ((j, u) ∷ m) h = ground (arith, erase-insert_new id t m)

-- A reference that is printed in an answer is understood when it comes back.
references-show :
    (name : Text) (m : Map ℕ Tunnel) (id : ℕ) (args : List Text) (s : State)
    → id < u32_mod
    → references name m (show id ∷ args) s ≡ (ok (id ∷ []), s)
unfolding references
references-show name m id args s h = rw (parse_u32-show id h)

-- The tunnel that a successful `open` enters, and what it met.
abbrev pub HasOpened : User → Text → Text → Context → Context → Type 0
HasOpened user name answer c c' =
    (app : Application) × (t : Tunnel) × MayOpen c user name app
    × (t.user ≡ user.name)
    × (t.application ≡ app.name)
    × (answer ≡ tunnel_open (new_id c))
    × (c' ≡ record c { tunnels = insert (new_id c) t c.tunnels })

module _ (host : Host) (crates : Crates) where
  record_tunnel-opened :
      (user : User) (app : Application) (process : ℕ) (s : State) {answer : Text}
      → (record_tunnel host user app process s).0 ≡ ok answer
      → (t : Tunnel) × (t.user ≡ user.name)
        × (t.application ≡ app.name)
        × (answer ≡ tunnel_open (new_id s.context))
        × ((record_tunnel host user app process s).1.context
            ≡ record (s.context) { tunnels = insert (new_id s.context) t s.context.tunnels })
  unfolding record_tunnel insert_tunnel
  record_tunnel-opened user app process s h = (_, refl, refl, ground arith, refl)

  start_tunnel-opened :
      (user : User) (name : Text) (app : Application) (s : State) {answer : Text}
      → MayOpen s.context user name app
      → let started = act (start_tunnel host crates s.context user app) s in
        (continue started.0 (record_tunnel host user app) started.1).0 ≡ ok answer
        → HasOpened user name answer s.context
            (continue started.0 (record_tunnel host user app) started.1).1.context
  start_tunnel-opened user name app s may h =
      let started = act (start_tunnel host crates s.context user app) s in
      let (process, e, last) = continue-ok started.0 (record_tunnel host user app) started.1 h in
      let (t, owner, target, same, new) = record_tunnel-opened user app process started.1 last in
      rw e (app, t, may, owner, target, same, new)

  -- A successful `open` met all the conditions; it enters one tunnel of the user to the application
  -- under a reference that the answer names, and changes nothing else in the context.
  pub open_request-opened :
      (user : User) (name : Text) (s : State) {answer : Text}
      → (open_request host crates user name s).0 ≡ ok answer
      → HasOpened user name answer s.context (open_request host crates user name s).1.context
  unfolding open_request
  open_request-opened user name s {answer} h =
      let checked = check_open s.context user name s in
      let (app, e, last) = continue-ok checked.0 _ checked.1 h in
      rw e (
        rw (check_open-state s.context user name s) (
          start_tunnel-opened user name app s (check_open_sound s.context user name s app e)
            (rw (check_open-state s.context user name s) at last)))

continue-context :
    {A B : Type 0} (r : Outcome A) (f : A → Exec State B) (v : State)
    → ((a : A) → (f a v).1.context ≡ v.context)
    → (continue r f v).1.context ≡ v.context
continue-context (ok a) f v h = h a
continue-context (err e) f v h = refl
continue-context panic f v h = refl
continue-context blocked f v h = refl

module _ (host : Host) where
  close_one-closed :
      (id : ℕ) (s : State) {t : Tunnel}
      → lookup id s.context.tunnels ≡ some t
      → (close_one host id s).1.context
        ≡ record (s.context) { tunnels = erase id s.context.tunnels }
  unfolding close_one kill_found
  close_one-closed id s h = rw h

  close_all-closed :
      (id : ℕ) (s : State) {t : Tunnel}
      → lookup id s.context.tunnels ≡ some t
      → (close_all host (id ∷ []) s).1.context
        ≡ record (s.context) { tunnels = erase id s.context.tunnels }
  unfolding close_all
  close_all-closed id s h =
      let closed = close_one host id s in
      continue-context closed.0 _ closed.1 (λ _. refl) ∙ close_one-closed id s h

  -- A `close` with the decimal text of a reference below 2 ^ 32 that is in use removes this tunnel
  -- and no other, and leaves the rest of the context, even if the kill fails or hangs.
  pub close_request-shown :
      (user : User) (id : ℕ) (args : List Text) (s : State) {t : Tunnel}
      → id < u32_mod
      → lookup id s.context.tunnels ≡ some t
      → (close_request host user (show id ∷ args) s).1.context
        ≡ record (s.context) { tunnels = erase id s.context.tunnels }
  unfolding close_request
  close_request-shown user id args s small h =
      let all = close_all host (id ∷ []) s in
      rw (references-show user.name s.context.tunnels id args s small)
        (continue-context all.0 _ all.1 (λ _. refl) ∙ close_all-closed id s h)

-- If the reference of the new tunnel is free and the `open` succeeds, a `close` with this
-- reference by any user then gives back the context as it was before, even if the kill fails or
-- hangs.
pub open_request-close :
    (host : Host) (crates : Crates) (user other : User) (name : Text) (s : State) {answer : Text}
    → lookup (new_id s.context) s.context.tunnels ≡ none
    → (open_request host crates user name s).0 ≡ ok answer
    → (close_request host other
        (show (new_id s.context) ∷ [])
        (open_request host crates user name s).1).1.context
      ≡ s.context
open_request-close host crates user other name s free h =
    let s1 = (open_request host crates user name s).1 in
    let (app, t, may, owner, target, same, new) = open_request-opened host crates user name s h in
    let id = new_id s.context in
    let entered : lookup id s1.context.tunnels ≡ some t =
      rw new (Map.lookup-insert_self id t s.context.tunnels) in
    close_request-shown host other id [] s1 (omega arith) entered
    ∙ rw new (rw (erase-insert_new id t s.context.tunnels free) refl)

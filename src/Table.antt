-- ===== src/Table.antt =====
-- The abstract view of the open tunnels: which user has a tunnel to which application, by reference. It
-- forgets the order of the map, the processes and the dates.
pub mod Moves
pub mod Refines
pub mod Rounds
use telco_vecchio.Prelude.{
  ℕ, Bool, Option, none, some, ◌≡◌, ◌≢◌, refl, if◌then◌else◌, ◌==◌, Eq, nat_eq, list_eq, find,
}
use mathlib.Core.Option
use telco_vecchio.Prelude.Map.{Map, lookup}
use telco_vecchio.Text.{Text}
use telco_vecchio.Config.{User, Application, Configuration}
use telco_vecchio.Context.{Tunnel, State}

pub record Entry : Type 0 where
  pub user : Text
  pub application : Text

abbrev pub Table : Type 0
Table = ℕ → Option Entry

abbrev pub entry_of : Tunnel → Entry
entry_of t = record { user = t.user; application = t.application }

abbrev pub table_of : Map ℕ Tunnel → Table
table_of m id = Option.map entry_of (lookup id m)

abbrev pub view : State → Table
view s = table_of s.context.tunnels

abbrev pub put : ℕ → Option Entry → Table → Table
put id e t j = if id == j then e else t j

-- Who makes the table change.
pub data Cause : Type 0 where
  by_user : Text → Cause
  by_expiry : Cause

-- A configured user gets a tunnel to a configured application, if there was none of the two, under a
-- free reference. An entry is removed for anyone, and for its age.
pub data Step (c : Configuration) : Cause → Table → Table → Type 0 where
  enter :
      (user name : Text) (id : ℕ) {app : Application} {t u : Table}
      → find (λ (x : User). x.name == user) c.users ≢ none
      → find (λ (a : Application). a.name == name) c.applications ≡ some app
      → ((j : ℕ) → t j ≢ some (record { user = user; application = app.name }))
      → t id ≡ none
      → u ≡ put id (some (record { user = user; application = app.name })) t
      → Step c (by_user user) t u
  leave :
      (cause : Cause) (id : ℕ) {e : Entry} {t u : Table}
      → t id ≡ some e
      → u ≡ put id none t
      → Step c cause t u

-- Any number of steps for one cause.
pub data Steps (c : Configuration) (cause : Cause) : Table → Table → Type 0 where
  stay : {t u : Table} → u ≡ t → Steps c cause t u
  move : {t u v : Table} → Step c cause t u → Steps c cause u v → Steps c cause t v

-- What follows, over time, from requests of configured users and from clean-ups.
pub data History (c : Configuration) : Table → Table → Type 0 where
  start : {t u : Table} → u ≡ t → History c t u
  request :
      {t u v : Table} (user : User)
      → find (λ x. x.name == user.name) c.users ≢ none
      → Steps c (by_user user.name) t u
      → History c u v
      → History c t v
  expiry : {t u v : Table} → Steps c by_expiry t u → History c u v → History c t v

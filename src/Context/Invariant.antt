-- ===== src/Context/Invariant.antt =====
-- What holds of the tunnels at all times, and its preservation by the changes of the map.
use telco_vecchio.Prelude.{
  ℕ, suc, ◌≤◌, ◌<◌, ◌≡◌, ◌≢◌, sym, true, false, Option, none, some, List, [], ◌∷◌, arith, ◌==◌,
  nat_eq, list_eq, find, length, All, find-none, if-both, All-map, eq_list_iff,
}
use telco_vecchio.Prelude.Map
use telco_vecchio.Prelude.Map.{Map, lookup, insert, erase, HasUniqueKeys, All-insert, All-erase}
use telco_vecchio.Text.{Text}
use telco_vecchio.Text.Decimal.{u32_mod}
use telco_vecchio.Config.{User, Configuration}
use telco_vecchio.Status.{Status}
use telco_vecchio.Context.{new_context, Tunnel, Context, is_tunnel_of, max_reached}

-- The tunnel is of another user or to another application.
abbrev pub IsOther : Text → Text → ℕ × Tunnel → Type 0
IsOther user application e = ¬ ((e.1.user ≡ user) × (e.1.application ≡ application))

-- No two tunnels are of one user to one application.
abbrev pub HasDistinctOwners : Map ℕ Tunnel → Type 0
HasDistinctOwners [] = Unit
HasDistinctOwners ((id, t) ∷ m) = All (IsOther t.user t.application) m × HasDistinctOwners m

abbrev pub IsWithin : Option ℕ → ℕ → Type 0
IsWithin none n = Unit
IsWithin (some max) n = n ≤ max

-- A user with the tunnel's owner's name is configured.
abbrev pub HasOwner : List User → ℕ × Tunnel → Type 0
HasOwner users e = find (λ u. u.name == e.1.user) users ≢ none

pub record IsValid (c : Context) : Type 0 where
  pub unique : HasUniqueKeys c.tunnels
  pub bounded : IsWithin c.configuration.ssh_config.tunnel_max_number (length c.tunnels)
  pub distinct : HasDistinctOwners c.tunnels
  pub owned : All (HasOwner c.configuration.users) c.tunnels
  pub ids : All (λ (e : ℕ × Tunnel). e.0 < u32_mod) c.tunnels

list_beq_of : (a b : Text) → a ≡ b → (a == b) ≡ true
list_beq_of a b h = (eq_list_iff a b).1 h

IsOther-sym :
    (t u : Tunnel) (i j : ℕ)
    → IsOther t.user t.application (j, u)
    → IsOther u.user u.application (i, t)
IsOther-sym t u i j h e = h (sym e.0, sym e.1)

HasDistinctOwners-insert :
    (id : ℕ) (t : Tunnel) (m : Map ℕ Tunnel)
    → All (IsOther t.user t.application) m
    → HasDistinctOwners m
    → HasDistinctOwners (insert id t m)
HasDistinctOwners-insert id t [] new h = (tt, tt)
HasDistinctOwners-insert id t ((j, u) ∷ m) new h =
    if-both HasDistinctOwners (j == id) _ _ (new.1, h.1)
      (
        All-insert (IsOther u.user u.application) id t m (IsOther-sym t u j id new.0) h.0,
        HasDistinctOwners-insert id t m new.1 h.1,
      )

HasDistinctOwners-erase :
    (id : ℕ) (m : Map ℕ Tunnel) → HasDistinctOwners m → HasDistinctOwners (erase id m)
HasDistinctOwners-erase id [] h = tt
HasDistinctOwners-erase id ((j, u) ∷ m) h =
    if-both HasDistinctOwners (j == id) _ _ h.1
      (All-erase (IsOther u.user u.application) id m h.0, HasDistinctOwners-erase id m h.1)

is_not_of :
    (user application : Text) (e : ℕ × Tunnel)
    → is_tunnel_of user application e ≡ false
    → IsOther user application e
is_not_of user application e h same =
    ground (arith, list_beq_of e.1.user user same.0, list_beq_of e.1.application application same.1)

-- `find` looks for the tunnel of the user to the application.
not_open :
    (user application : Text) (m : Map ℕ Tunnel)
    → find (is_tunnel_of user application) m ≡ none
    → All (IsOther user application) m
not_open user application m h =
    All-map _ (IsOther user application) m (λ e p same. is_not_of user application e p same)
      (find-none _ m h)

IsWithin-insert :
    (max : Option ℕ) (n k : ℕ) → max_reached max n ≡ false → k ≤ suc n → IsWithin max k
IsWithin-insert none n k h le = tt
IsWithin-insert (some max) n k h le = ground arith

IsWithin-le : (max : Option ℕ) (n k : ℕ) → IsWithin max n → k ≤ n → IsWithin max k
IsWithin-le none n k h le = tt
IsWithin-le (some max) n k h le = omega arith

-- A tunnel that passes the checks keeps the invariant, whatever its reference.
pub insert-IsValid :
    (c : Context) (id : ℕ) (t : Tunnel)
    → IsValid c
    → max_reached c.configuration.ssh_config.tunnel_max_number (length c.tunnels) ≡ false
    → find (is_tunnel_of t.user t.application) c.tunnels ≡ none
    → find (λ u. u.name == t.user) c.configuration.users ≢ none
    → id < u32_mod
    → IsValid (record c { tunnels = insert id t c.tunnels })
insert-IsValid c id t v room new owner small = record {
  unique = Map.insert-HasUniqueKeys id t c.tunnels v.unique;
  bounded =
      IsWithin-insert c.configuration.ssh_config.tunnel_max_number (length c.tunnels) _ room
        (Map.length-insert-le id t c.tunnels);
  distinct =
      HasDistinctOwners-insert id t c.tunnels (not_open t.user t.application c.tunnels new)
        v.distinct;
  owned = All-insert (HasOwner c.configuration.users) id t c.tunnels owner v.owned;
  ids = All-insert (λ e. e.0 < u32_mod) id t c.tunnels small v.ids;
}

-- A tunnel that is removed leaves the invariant.
pub erase-IsValid :
    (c : Context) (id : ℕ) → IsValid c → IsValid (record c { tunnels = erase id c.tunnels })
erase-IsValid c id v = record {
  unique = Map.erase-HasUniqueKeys id c.tunnels v.unique;
  bounded =
      IsWithin-le c.configuration.ssh_config.tunnel_max_number (length c.tunnels) _ v.bounded
        (Map.length-erase-le id c.tunnels);
  distinct = HasDistinctOwners-erase id c.tunnels v.distinct;
  owned = All-erase (HasOwner c.configuration.users) id c.tunnels v.owned;
  ids = All-erase (λ e. e.0 < u32_mod) id c.tunnels v.ids;
}

-- The invariant says nothing of the status.
pub status-IsValid : (c : Context) (s : Status) → IsValid c → IsValid (record c { status = s })
status-IsValid c s v = record {
  unique = v.unique;
  bounded = v.bounded;
  distinct = v.distinct;
  owned = v.owned;
  ids = v.ids;
}

zero_IsWithin : (max : Option ℕ) → IsWithin max 0
zero_IsWithin none = tt
zero_IsWithin (some max) = omega arith

-- A fresh context has no tunnel.
pub new_context-IsValid : (c : Configuration) (s : Status) → IsValid (new_context c s)
new_context-IsValid c s = record {
  unique = tt;
  bounded = zero_IsWithin c.ssh_config.tunnel_max_number;
  distinct = tt;
  owned = tt;
  ids = tt;
}

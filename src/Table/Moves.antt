-- ===== src/Table/Moves.antt =====
-- The changes of the map, as steps of the table.
use mathlib.Core.Option
use mathlib.Core.Path.{fun_ext, subst}
use telco_vecchio.Prelude.{
  ℕ, ◌≡◌, ◌≢◌, refl, sym, ap, ◌∙◌, Bool-cases, inl, inr, Option, none, some, Option-cases, [], ◌∷◌,
  arith, ◌==◌, nat_eq, list_eq, ==-refl, ==-eq, find,
}
use telco_vecchio.Prelude.Map
use telco_vecchio.Prelude.Map.{Map, lookup, insert, erase, HasUniqueKeys}
use telco_vecchio.Text.{Text}
use telco_vecchio.Config.{User, Application, Configuration}
use telco_vecchio.Context.{Tunnel, is_tunnel_of}
use telco_vecchio.Table.{
  Entry, Table, entry_of, table_of, put, Cause, by_user, enter, leave, Steps, stay, move,
}

table-insert :
    (id : ℕ) (t : Tunnel) (m : Map ℕ Tunnel)
    → table_of (insert id t m) ≡ put id (some (entry_of t)) (table_of m)
table-insert id t m = fun_ext λ j. elim (Bool-cases (id == j)) [
  | inl same ↦ rw (← ==-eq id j same) (ground (arith, ==-refl id, Map.lookup-insert_self id t m))
  | inr other ↦ ground (arith, ==-refl id, Map.lookup-insert_ne id j t m)
]

table-erase :
    (id : ℕ) (m : Map ℕ Tunnel) → HasUniqueKeys m → table_of (erase id m) ≡ put id none (table_of m)
table-erase id m u = fun_ext λ j. elim (Bool-cases (id == j)) [
  | inl same ↦ rw (← ==-eq id j same) (ground (arith, ==-refl id, Map.lookup-erase_self id m u))
  | inr other ↦ ground (arith, ==-refl id, Map.lookup-erase_ne id j m)
]

erase-missing : (id : ℕ) (m : Map ℕ Tunnel) → lookup id m ≡ none → erase id m ≡ m
erase-missing id [] h = refl
erase-missing id ((j, u) ∷ m) h = ground (arith, erase-missing id m)

-- The user has no tunnel to the application.
abbrev Lacks : Text → Text → Table → Type 0
Lacks user application t = (j : ℕ) → t j ≢ some (record { user = user; application = application })

pair_of :
    (user application : Text) (o : Option Tunnel)
    → Option.map entry_of o ≡ some (record { user = user; application = application })
    → (t : Tunnel) × (o ≡ some t) × (t.user ≡ user) × (t.application ≡ application)
pair_of user application none h = cc
pair_of user application (some t) h = (t, refl, cc, cc)

find-misses :
    (user application : Text) (j : ℕ) (m : Map ℕ Tunnel) (t : Tunnel)
    → find (is_tunnel_of user application) m ≡ none
    → lookup j m ≡ some t
    → t.user ≡ user
    → t.application ≢ application
find-misses user application j [] t h e same = cc
find-misses user application j ((i, u) ∷ m) t h e same =
    λ same'. ground (arith, ==-refl user, ==-refl application, find-misses user application j m t)

table-Lacks :
    (user application : Text) (m : Map ℕ Tunnel)
    → find (is_tunnel_of user application) m ≡ none
    → Lacks user application (table_of m)
table-Lacks user application m h j e =
    let (t, found, same, same') = pair_of user application (lookup j m) e in
    find-misses user application j m t h found same same'

put-Lacks :
    (user application : Text) (id : ℕ) (t : Table)
    → Lacks user application t
    → Lacks user application (put id none t)
put-Lacks user application id t h j = elim (Bool-cases (id == j)) [
  | inl same ↦ rw same (λ e. cc)
  | inr other ↦ rw other (h j)
]

put-put : (id : ℕ) (e f : Option Entry) (t : Table) → put id e (put id f t) ≡ put id e t
put-put id e f t =
    fun_ext λ j. elim (Bool-cases (id == j)) [ inl same ↦ rw same refl | inr other ↦ rw other refl ]

put_self : (id : ℕ) (e : Option Entry) (t : Table) → put id e t id ≡ e
put_self id e t = rw (==-refl id) refl

module _ {c : Configuration} {cause : Cause} where
  pub Steps-trans : {t u v : Table} → Steps c cause t u → Steps c cause u v → Steps c cause t v
  Steps-trans {v} (stay e) r = subst (λ x. Steps c cause x v) e r
  Steps-trans (move s r) r' = move s (Steps-trans r r')

  -- Removing a reference, in use or not, is a step or none.
  pub erase-Steps :
      (id : ℕ) (m : Map ℕ Tunnel)
      → HasUniqueKeys m
      → Steps c cause (table_of m) (table_of (erase id m))
  erase-Steps id m u = elim (Option-cases (lookup id m)) [
    | inl free ↦ stay (ap table_of (erase-missing id m free))
    | inr (t, e) ↦
        move
          (leave cause id {e = entry_of t} (ap (λ o. Option.map entry_of o) e) (table-erase id m u))
          (stay refl)
  ]

module _ {c : Configuration} where
  -- A new tunnel enters under a free reference; one in use is left first.
  pub insert-Steps :
      (name : Text) (id : ℕ) (t : Tunnel) (m : Map ℕ Tunnel) {app : Application}
      → find (λ (x : User). x.name == t.user) c.users ≢ none
      → find (λ (a : Application). a.name == name) c.applications ≡ some app
      → t.application ≡ app.name
      → find (is_tunnel_of t.user app.name) m ≡ none
      → Steps c (by_user t.user) (table_of m) (table_of (insert id t m))
  insert-Steps name id t m {app} owner configured target new =
      let lacks = table-Lacks t.user app.name m new in
      let entered : Entry = record { user = t.user; application = app.name } in
      let last : table_of (insert id t m) ≡ put id (some entered) (table_of m) =
        rw (← target) (table-insert id t m) in
      elim (Option-cases (lookup id m)) [
        | inl free ↦
            move
              (enter t.user name id owner configured lacks (ap (λ o. Option.map entry_of o) free)
                last)
              (stay refl)
        | inr (old, e) ↦
            move
              (leave (by_user t.user) id {e = entry_of old} (ap (λ o. Option.map entry_of o) e)
                refl)
              (move
                (enter t.user name id owner configured
                  (put-Lacks t.user app.name id (table_of m) lacks) (put_self id none (table_of m))
                  (last ∙ sym (put-put id _ none (table_of m))))
                (stay refl))
      ]

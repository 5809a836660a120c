-- ===== src/Context/Ledger.antt =====
-- The account of the ssh processes: those that came under the daemon's care, those that were
-- dropped, and those that the tunnels hold.
use telco_vecchio.Prelude.{
  ℕ, ◌+◌, ◌≡◌, refl, Option, none, some, List, [], ◌∷◌, ◌++◌, arith, eqb, if◌then◌else◌, nat_eq,
  All,
}
use telco_vecchio.Prelude.Map.{Map, lookup, insert, erase}
use telco_vecchio.Effects.{Exec}
use telco_vecchio.Effects.World.{Effect, held, dropped, Trace, World}
use telco_vecchio.Effects.Only.{Only}
use telco_vecchio.Context.{Tunnel, State, drop_old}

-- 1 for the process, 0 for another
abbrev pub one_if : ℕ → ℕ → ℕ
one_if pid p = if eqb p pid then 1 else 0

module _ (pid : ℕ) where
  abbrev taken : Effect → ℕ
  taken (held p) = one_if pid p
  taken _ = 0

  abbrev given : Effect → ℕ
  given (dropped p) = one_if pid p
  given _ = 0

  -- how often the process came under the daemon's care, and was dropped
  abbrev pub opened : Trace → ℕ
  opened [] = 0
  opened (e ∷ t) = taken e + opened t

  abbrev pub closed : Trace → ℕ
  closed [] = 0
  closed (e ∷ t) = given e + closed t

  -- how many tunnels hold it
  abbrev pub holders : Map ℕ Tunnel → ℕ
  holders [] = 0
  holders ((id, t) ∷ m) = one_if pid t.process + holders m

  abbrev held_by : Option Tunnel → ℕ
  held_by none = 0
  held_by (some t) = one_if pid t.process

  -- Every process in the daemon's care is held by a tunnel or was dropped, as often as it was taken.
  abbrev pub Balances : State → Type 0
  Balances s = opened s.world.trace ≡ closed s.world.trace + holders s.context.tunnels

  -- Between the worlds, `n` more were taken than dropped.
  abbrev pub Owes : ℕ → World → World → Type 0
  Owes n w v = opened v.trace + closed w.trace ≡ opened w.trace + closed v.trace + n

  holders-insert :
      (id : ℕ) (t : Tunnel) (m : Map ℕ Tunnel)
      → holders (insert id t m) + held_by (lookup id m) ≡ holders m + one_if pid t.process
  holders-insert id t [] = omega arith
  holders-insert id t ((j, u) ∷ m) = ground (arith, holders-insert id t m)

  holders-erase :
      (id : ℕ) (m : Map ℕ Tunnel) → holders (erase id m) + held_by (lookup id m) ≡ holders m
  holders-erase id [] = omega arith
  holders-erase id ((j, u) ∷ m) = ground (arith, holders-erase id m)

  closed-drop_old :
      (o : Option Tunnel) (w : World)
      → (closed (drop_old o w).trace ≡ held_by o + closed w.trace)
        × (opened (drop_old o w).trace ≡ opened w.trace)
  closed-drop_old none w = omega arith
  closed-drop_old (some t) w = omega arith

-- Effects that concern no process in the daemon's care.
abbrev pub IsNeutral : Effect → Type 0
IsNeutral (held p) = ⊥
IsNeutral (dropped p) = ⊥
IsNeutral _ = Unit

neutral_taken : (pid : ℕ) (e : Effect) → IsNeutral e → (taken pid e ≡ 0) × (given pid e ≡ 0)
neutral_taken pid (held p) h = absurd h
neutral_taken pid (dropped p) h = absurd h
neutral_taken pid _ h = (refl, refl)

neutral_counts :
    (pid : ℕ) (es : List Effect) (t : Trace)
    → All IsNeutral es
    → (opened pid (es ++ t) ≡ opened pid t) × (closed pid (es ++ t) ≡ closed pid t)
neutral_counts pid [] t h = (refl, refl)
neutral_counts pid (e ∷ es) t h =
    omega (arith, neutral_taken pid e h.0, neutral_counts pid es t h.1)

-- A computation with such effects only leaves the account as it is.
pub Only-Owes :
    (pid : ℕ) {A : Type 0} (m : Exec World A)
    → Only IsNeutral m
    → (w : World) → Owes pid 0 w (m w).1
Only-Owes pid m x w =
    let y = x.at w in
    let counts = neutral_counts pid y.added w.trace y.each in rw y.split (omega (arith, counts))

module _ (pid : ℕ) where
  -- A tunnel that is put into the map, over an old one or not, is one more to account for.
  pub insert-Balances :
      (id : ℕ) (t : Tunnel) (s : State) (w : World)
      → Balances pid s
      → Owes pid (one_if pid t.process) s.world w
      → opened pid (drop_old (lookup id s.context.tunnels) w).trace
        ≡ closed pid (drop_old (lookup id s.context.tunnels) w).trace
          + holders pid (insert id t s.context.tunnels)
  insert-Balances id t s w b o = omega (
    arith,
    holders-insert pid id t s.context.tunnels,
    closed-drop_old pid (lookup id s.context.tunnels) w,
  )

  -- A tunnel that leaves the map is dropped.
  pub erase-Balances :
      (id : ℕ) (s : State) (w : World)
      → Balances pid s
      → Owes pid (held_by pid (lookup id s.context.tunnels)) w s.world
      → opened pid w.trace ≡ closed pid w.trace + holders pid (erase id s.context.tunnels)
  erase-Balances id s w b o = omega (arith, holders-erase pid id s.context.tunnels)

  pub drop-Balances :
      (id : ℕ) (s : State)
      → Balances pid s
      → opened pid (drop_old (lookup id s.context.tunnels) s.world).trace
        ≡ closed pid (drop_old (lookup id s.context.tunnels) s.world).trace
          + holders pid (erase id s.context.tunnels)
  drop-Balances id s b = omega (
    arith,
    holders-erase pid id s.context.tunnels,
    closed-drop_old pid (lookup id s.context.tunnels) s.world,
  )

-- ===== src/Context/Accounts.antt =====
-- The account of the ssh processes along a chain of steps.
use telco_vecchio.Prelude.{ℕ, ◌≢◌, refl, arith}
use telco_vecchio.Effects.{Outcome, ok, err, panic, blocked, Exec, continue}
use telco_vecchio.Effects.World.{World}
use telco_vecchio.Effects.Only.{Only}
use telco_vecchio.Context.{State, act}
use telco_vecchio.Context.Ledger.{Balances, IsNeutral, Only-Owes}

module _ (pid : ℕ) where
  -- The account is in order unless the computation hangs.
  abbrev pub Accounts : {A : Type 0} → Outcome A × State → Type 0
  Accounts (ok a, s) = Balances pid s
  Accounts (err e, s) = Balances pid s
  Accounts (panic, s) = Balances pid s
  Accounts (blocked, s) = Unit

  pub settled : {A : Type 0} (r : Outcome A) (s : State) → Balances pid s → Accounts (r, s)
  settled (ok a) s b = b
  settled (err e) s b = b
  settled panic s b = b
  settled blocked s b = tt

  pub continue-Accounts :
      {A B : Type 0} (r : Outcome A) (f : A → Exec State B) (s : State)
      → Accounts (r, s)
      → ((a : A) → Balances pid s → Accounts (f a s))
      → Accounts (continue r f s)
  continue-Accounts (ok a) f s b k = k a b
  continue-Accounts (err e) f s b k = b
  continue-Accounts panic f s b k = b
  continue-Accounts blocked f s b k = tt

  -- A neutral computation on the world leaves the account in order.
  pub act-Accounts :
      {A : Type 0} (m : Exec World A) (s : State)
      → Only IsNeutral m
      → Balances pid s
      → Accounts (act m s)
  act-Accounts m s x b = settled (m s.world).0 _ (omega (arith, Only-Owes pid m x s.world))

  pub unless_blocked :
      {A : Type 0} (r : Outcome A × State) → Accounts r → r.0 ≢ blocked → Balances pid r.1
  unless_blocked (ok a, s) b h = b
  unless_blocked (err e, s) b h = b
  unless_blocked (panic, s) b h = b
  unless_blocked (blocked, s) b h = absurd (h refl)

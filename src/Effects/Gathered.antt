-- ===== src/Effects/Gathered.antt =====
-- What the effects of a trace say in one respect, and the computations that say nothing.
use telco_vecchio.Prelude.{◌≡◌, refl, List, [], ◌∷◌, ◌++◌, All}
use telco_vecchio.Effects.{Exec}
use telco_vecchio.Effects.World.{Effect, Trace, World}
use telco_vecchio.Effects.Only.{Only}

module _ {A : Type 0} (said : Effect → List A) where
  -- The latest stands first.
  abbrev pub gathered : Trace → List A
  gathered [] = []
  gathered (e ∷ t) = said e ++ gathered t

  abbrev pub IsSilent : Effect → Type 0
  IsSilent e = said e ≡ []

  gathered-silent : (es t : Trace) → All IsSilent es → gathered (es ++ t) ≡ gathered t
  gathered-silent [] t h = refl
  gathered-silent (e ∷ es) t h = rw h.0 (gathered-silent es t h.1)

  -- What adds silent effects only leaves what was gathered.
  pub Only-gathered :
      {B : Type 0} (m : Exec World B) (w : World)
      → Only IsSilent m
      → gathered (m w).1.trace ≡ gathered w.trace
  Only-gathered m w x = let y = x.at w in rw y.split (gathered-silent y.added w.trace y.each)

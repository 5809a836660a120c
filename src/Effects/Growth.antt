-- ===== src/Effects/Growth.antt =====
-- One world lies behind another: only effects were added.
use telco_vecchio.Effects.{Exec}
use telco_vecchio.Effects.World.{Effect, World, emit}
use telco_vecchio.Effects.Only.{Extends, Extends-refl, Extends-emit, Only, Only-map}

abbrev pub Anything : Effect → Type 0
Anything e = Unit

-- The trace has only grown.
abbrev pub Grows : World → World → Type 0
Grows = Extends Anything

pub Grows-refl : (w : World) → Grows w w
Grows-refl w = Extends-refl w

pub Grows-emit : (e : Effect) (w : World) → Grows w (emit e w)
Grows-emit e w = Extends-emit e w tt

pub Only-Grows :
    {P : Effect → Type 0} {A : Type 0} (m : Exec World A) (w : World) → Only P m → Grows w (m w).1
Only-Grows m w x = (Only-map (λ e _. tt) x).at w

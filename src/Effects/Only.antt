-- ===== src/Effects/Only.antt =====
-- Bounds on the effects of a computation: what it adds to the trace, whatever its end.
use mathlib.Core.List.{append_assoc}
use telco_vecchio.Prelude.{
  ◌≡◌, refl, ◌∙◌, ap, sym, Bool, true, false, Option, none, some, List, [], ◌∷◌, ◌++◌, All,
  All-append, All-map, if◌then◌else◌,
}
use telco_vecchio.Text.{Text}
use telco_vecchio.Prelude.{ℕ}
use telco_vecchio.Effects.{
  Error, io_error, Outcome, ok, err, panic, blocked, Exec, pure, lift, continue, settle, ◌>>=◌,
  match_result,
}
use telco_vecchio.Effects.World.{
  Effect, timer, dropped, Trace, Register, World, Reply, done, failed, pending, answer, emit,
  perform, note, timeout, unwrap, ok_or, drop_unless_ok, holding,
}

-- The second world's trace is the first one's behind effects that all satisfy `P`.
pub record Extends (P : Effect → Type 0) (w w' : World) : Type 0 where
  pub added : List Effect
  pub split : w'.trace ≡ added ++ w.trace
  pub each : All P added

-- Whatever it starts from, the computation adds effects that satisfy `P` only.
pub record Only (P : Effect → Type 0) {A : Type 0} (m : Exec World A) : Type 0 where
  pub at : (w : World) → Extends P w (m w).1

module _ {P : Effect → Type 0} where
  pub Extends-refl : (w : World) → Extends P w w
  Extends-refl w = record { added = []; split = refl; each = tt }

  pub Extends-emit : (e : Effect) (w : World) → P e → Extends P w (emit e w)
  Extends-emit e w p = record { added = e ∷ []; split = refl; each = (p, tt) }

  pub Extends-trans : {u v w : World} → Extends P u v → Extends P v w → Extends P u w
  Extends-trans {u} {v} {w} x y = record {
    added = y.added ++ x.added;
    split = y.split ∙ (ap (λ t. y.added ++ t) x.split ∙ sym (append_assoc y.added x.added u.trace));
    each = All-append P y.added x.added y.each x.each;
  }

  module _ {A : Type 0} where
    pub Only-pure : (a : A) → Only P (pure {S = World} a)
    Only-pure a = record { at = λ w. Extends-refl w }

    pub Only-lift : (r : Outcome A) → Only P (lift {S = World} r)
    Only-lift r = record { at = λ w. Extends-refl w }

    pub Only-answer :
        (e : Effect) (wrap : Text → Error) (reply : World → Reply A)
        → P e
        → Only P (λ w. answer wrap (reply w) (emit e w))
    Only-answer e wrap reply p = record { at = λ w. go (reply w) w }
      where
        go : (r : Reply A) (w : World) → Extends P w (answer wrap r (emit e w)).1
        go (done a) w = Extends-emit e w p
        go (failed t) w = Extends-emit e w p
        go pending w = Extends-emit e w p

    pub Only-perform : (e : Effect) (reply : Trace → Reply A) → P e → Only P (perform e reply)
    Only-perform e reply p = Only-answer e io_error (λ w. reply w.trace) p

    pub Only-unwrap : (o : Option A) → Only P (unwrap {S = World} o)
    Only-unwrap none = record { at = λ w. Extends-refl w }
    Only-unwrap (some a) = record { at = λ w. Extends-refl w }

    pub Only-ok_or : (e : Error) (o : Option A) → Only P (ok_or {S = World} e o)
    Only-ok_or e none = record { at = λ w. Extends-refl w }
    Only-ok_or e (some a) = record { at = λ w. Extends-refl w }

    pub Only-if :
        (b : Bool) (m n : Exec World A) → Only P m → Only P n → Only P (if b then m else n)
    Only-if true m n x y = x
    Only-if false m n x y = y

    pub Only-timeout :
        (secs : ℕ) (r : Outcome A) (m : Exec World A)
        → P (timer secs)
        → Only P m
        → Only P (timeout secs r m)
    Only-timeout secs r m p x = record {
      at = λ w. Extends-trans (Extends-emit (timer secs) w p) (x.at (emit (timer secs) w));
    }

    drop_unless_ok-Extends :
        (pid : ℕ) (r : Outcome A × World) (w : World)
        → P (dropped pid)
        → Extends P w r.1
        → Extends P w (drop_unless_ok pid r).1
    drop_unless_ok-Extends pid (ok a, v) w p x = x
    drop_unless_ok-Extends pid (err e, v) w p x = Extends-trans x (Extends-emit (dropped pid) v p)
    drop_unless_ok-Extends pid (panic, v) w p x = Extends-trans x (Extends-emit (dropped pid) v p)
    drop_unless_ok-Extends pid (blocked, v) w p x = x

    pub Only-holding :
        (pid : ℕ) (m : Exec World A) → P (dropped pid) → Only P m → Only P (holding pid m)
    Only-holding pid m p x = record { at = λ w. drop_unless_ok-Extends pid (m w) w p (x.at w) }

  pub Only-note : (e : Effect) → P e → Only P (note e)
  Only-note e p = record { at = λ w. Extends-emit e w p }

  -- The register file is no part of the trace.
  pub Only-put : (r : Register) → Only P (λ w. (ok tt, record w { register = r }))
  Only-put r = record { at = λ w. record { added = []; split = refl; each = tt } }

  module _ {A B : Type 0} where
    continue-Extends :
        (r : Outcome A) (f : A → Exec World B) {w v : World}
        → Extends P w v
        → ((a : A) → Only P (f a))
        → Extends P w (continue r f v).1
    continue-Extends (ok a) f {w} {v} x k = Extends-trans x ((k a).at v)
    continue-Extends (err e) f x k = x
    continue-Extends panic f x k = x
    continue-Extends blocked f x k = x

    settle-Extends :
        (r : Outcome A) (f : A → Exec World B) (g : Error → Exec World B) {w v : World}
        → Extends P w v
        → ((a : A) → Only P (f a))
        → ((e : Error) → Only P (g e))
        → Extends P w (settle r f g v).1
    settle-Extends (ok a) f g {w} {v} x k l = Extends-trans x ((k a).at v)
    settle-Extends (err e) f g {w} {v} x k l = Extends-trans x ((l e).at v)
    settle-Extends panic f g x k l = x
    settle-Extends blocked f g x k l = x

    pub Only-bind :
        (m : Exec World A) {f : A → Exec World B}
        → Only P m
        → ((a : A) → Only P (f a))
        → Only P (m >>= f)
    Only-bind m {f} x k = record { at = λ w. continue-Extends (m w).0 f (x.at w) k }

    pub Only-match :
        (m : Exec World A) {f : A → Exec World B} {g : Error → Exec World B}
        → Only P m
        → ((a : A) → Only P (f a))
        → ((e : Error) → Only P (g e))
        → Only P (match_result m f g)
    Only-match m {f} {g} x k l = record { at = λ w. settle-Extends (m w).0 f g (x.at w) k l }

-- A weaker bound.
pub Only-map :
    {P Q : Effect → Type 0} {A : Type 0} {m : Exec World A}
    → ((e : Effect) → P e → Q e)
    → Only P m
    → Only Q m
Only-map {P} {Q} f x = record {
  at = λ w.
      let y = x.at w in
      record { added = y.added; split = y.split; each = All-map P Q y.added f y.each };
}

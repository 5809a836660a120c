-- ===== src/Effects/Ends.antt =====
-- Computations that end with `Ok` or `Err`.
use telco_vecchio.Prelude.{ℕ, ◌≡◌, ◌≢◌, refl, Bool, true, false, Option, none, some}
use telco_vecchio.Text.{Text}
use telco_vecchio.Effects.{
  Error, Outcome, ok, err, panic, blocked, on_elapsed, Exec, continue, settle,
}
use telco_vecchio.Effects.World.{
  World, Reply, done, failed, pending, answer, fail_if, ok_or, drop_unless_ok,
}

-- Neither a panic nor a wait for ever.
abbrev pub Ends {ℓ} : {A : Type ℓ} → Outcome A → Type 0
Ends (ok a) = Unit
Ends (err e) = Unit
Ends panic = ⊥
Ends blocked = ⊥

-- No panic.
abbrev pub IsCalm {ℓ} : {A : Type ℓ} → Outcome A → Type 0
IsCalm panic = ⊥
IsCalm _ = Unit

module _ {ℓ κ μ} {S : Type ℓ} {A : Type κ} {B : Type μ} where
  pub continue-Ends :
      (r : Outcome A) (f : A → Exec S B) (s : S)
      → Ends r
      → ((a : A) → r ≡ ok a → Ends (f a s).0)
      → Ends (continue r f s).0
  continue-Ends (ok a) f s h k = k a refl
  continue-Ends (err e) f s h k = tt
  continue-Ends panic f s h k = h
  continue-Ends blocked f s h k = h

  pub settle-Ends :
      (r : Outcome A) (f : A → Exec S B) (g : Error → Exec S B) (s : S)
      → Ends r
      → ((a : A) → Ends (f a s).0)
      → ((e : Error) → Ends (g e s).0)
      → Ends (settle r f g s).0
  settle-Ends (ok a) f g s h k l = k a
  settle-Ends (err e) f g s h k l = l e
  settle-Ends panic f g s h k l = h
  settle-Ends blocked f g s h k l = h

  pub continue-IsCalm :
      (r : Outcome A) (f : A → Exec S B) (s : S)
      → IsCalm r
      → ((a : A) → IsCalm (f a s).0)
      → IsCalm (continue r f s).0
  continue-IsCalm (ok a) f s h k = k a
  continue-IsCalm (err e) f s h k = tt
  continue-IsCalm panic f s h k = h
  continue-IsCalm blocked f s h k = tt

  pub settle-IsCalm :
      (r : Outcome A) (f : A → Exec S B) (g : Error → Exec S B) (s : S)
      → IsCalm r
      → ((a : A) → IsCalm (f a s).0)
      → ((e : Error) → IsCalm (g e s).0)
      → IsCalm (settle r f g s).0
  settle-IsCalm (ok a) f g s h k l = k a
  settle-IsCalm (err e) f g s h k l = l e
  settle-IsCalm panic f g s h k l = h
  settle-IsCalm blocked f g s h k l = tt

module _ {ℓ κ} {S : Type ℓ} {A : Type κ} where
  pub ok_or-Ends : (e : Error) (o : Option A) (s : S) → Ends (ok_or {S = S} e o s).0
  ok_or-Ends e none s = tt
  ok_or-Ends e (some a) s = tt

  pub ok_or-IsCalm : (e : Error) (o : Option A) (s : S) → IsCalm (ok_or {S = S} e o s).0
  ok_or-IsCalm e none s = tt
  ok_or-IsCalm e (some a) s = tt

module _ {ℓ} {S : Type ℓ} where
  pub fail_if-Ends : (b : Bool) (e : Error) (s : S) → Ends (fail_if {S = S} b e s).0
  fail_if-Ends true e s = tt
  fail_if-Ends false e s = tt

  pub fail_if-IsCalm : (b : Bool) (e : Error) (s : S) → IsCalm (fail_if {S = S} b e s).0
  fail_if-IsCalm true e s = tt
  fail_if-IsCalm false e s = tt

  pub answer-Ends :
      {A : Type 0} (wrap : Text → Error) (r : Reply A) (s : S)
      → r ≢ pending
      → Ends (answer {S = S} wrap r s).0
  answer-Ends wrap (done a) s h = tt
  answer-Ends wrap (failed t) s h = tt
  answer-Ends wrap pending s h = absurd (h refl)

  pub answer-IsCalm :
      {A : Type 0} (wrap : Text → Error) (r : Reply A) (s : S) → IsCalm (answer {S = S} wrap r s).0
  answer-IsCalm wrap (done a) s = tt
  answer-IsCalm wrap (failed t) s = tt
  answer-IsCalm wrap pending s = tt

module _ {ℓ} {A : Type ℓ} where
  -- A deadline ends the wait.
  pub on_elapsed-Ends : (e : Error) (r : Outcome A) → IsCalm r → Ends (on_elapsed (err e) r)
  on_elapsed-Ends e (ok a) h = tt
  on_elapsed-Ends e (err x) h = tt
  on_elapsed-Ends e panic h = h
  on_elapsed-Ends e blocked h = tt

  pub drop_unless_ok-Ends :
      (pid : ℕ) (r : Outcome A × World) → Ends r.0 → Ends (drop_unless_ok pid r).0
  drop_unless_ok-Ends pid (ok a, w) h = tt
  drop_unless_ok-Ends pid (err e, w) h = tt
  drop_unless_ok-Ends pid (panic, w) h = h
  drop_unless_ok-Ends pid (blocked, w) h = h

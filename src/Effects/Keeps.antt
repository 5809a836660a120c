-- ===== src/Effects/Keeps.antt =====
-- Preservation of an invariant by a chain of steps, whatever its end.
use telco_vecchio.Prelude.{ℕ, ◌≡◌, refl, ◌⊎◌, inl, inr, Option, none, some, Bool, true, false, not}
use telco_vecchio.Text.{Text}
use telco_vecchio.Effects.World.{
  Reply, done, failed, pending, answer, ok_or, fail_if, World, drop_unless_ok,
}
use telco_vecchio.Effects.{
  Error, Outcome, ok, err, panic, blocked, Exec, continue, settle, on_elapsed,
}

module _ {ℓ κ μ ν} {S : Type ℓ} {A : Type κ} {B : Type μ} (I : S → Type ν) where
  pub continue-keeps :
      (r : Outcome A) (f : A → Exec S B) (s : S)
      → I s
      → ((a : A) → r ≡ ok a → I (f a s).1)
      → I (continue r f s).1
  continue-keeps (ok a) f s h k = k a refl
  continue-keeps (err e) f s h k = h
  continue-keeps panic f s h k = h
  continue-keeps blocked f s h k = h

  pub settle-keeps :
      (r : Outcome A) (f : A → Exec S B) (g : Error → Exec S B) (s : S)
      → I s
      → ((a : A) → I (f a s).1)
      → ((e : Error) → I (g e s).1)
      → I (settle r f g s).1
  settle-keeps (ok a) f g s h k l = k a
  settle-keeps (err e) f g s h k l = l e
  settle-keeps panic f g s h k l = h
  settle-keeps blocked f g s h k l = h

-- A successful chain is made of successful steps.
pub continue-ok {ℓ κ μ} :
    {S : Type ℓ} {A : Type κ} {B : Type μ} (r : Outcome A) (f : A → Exec S B) (s : S) {b : B}
    → (continue r f s).0 ≡ ok b
    → (a : A) × (r ≡ ok a) × ((f a s).0 ≡ ok b)
continue-ok (ok a) f s h = (a, refl, h)
continue-ok (err e) f s h = cc
continue-ok panic f s h = cc
continue-ok blocked f s h = cc

-- A match that succeeds took one of its branches.
pub settle-ok {ℓ κ μ} :
    {S : Type ℓ} {A : Type κ} {B : Type μ} (r : Outcome A) (f : A → Exec S B) (g : Error → Exec S B)
    (s : S) {b : B}
    → (settle r f g s).0 ≡ ok b
    → ((a : A) × (r ≡ ok a) × ((f a s).0 ≡ ok b)) ⊎ ((e : Error) × (r ≡ err e) × ((g e s).0 ≡ ok b))
settle-ok (ok a) f g s h = inl (a, refl, h)
settle-ok (err e) f g s h = inr (e, refl, h)
settle-ok panic f g s h = cc
settle-ok blocked f g s h = cc

pub answer-ok {ℓ κ} :
    {S : Type ℓ} {A : Type 0} {B : Type κ} (wrap : Text → Error) (r : Reply A) (f : A → Exec S B)
    (s : S) {b : B}
    → (continue (answer {S = S} wrap r s).0 f (answer {S = S} wrap r s).1).0 ≡ ok b
    → (a : A) × (r ≡ done a) × ((f a s).0 ≡ ok b)
answer-ok wrap (done a) f s h = (a, refl, h)
answer-ok wrap (failed t) f s h = cc
answer-ok wrap pending f s h = cc

pub answer-done {ℓ} :
    {S : Type ℓ} {A : Type 0} (wrap : Text → Error) (r : Reply A) (s : S) {a : A}
    → (answer {S = S} wrap r s).0 ≡ ok a
    → r ≡ done a
answer-done wrap (done a) s h = cc
answer-done wrap (failed t) s h = cc
answer-done wrap pending s h = cc

pub ok_or-ok {ℓ κ μ} :
    {S : Type ℓ} {A : Type κ} {B : Type μ} (e : Error) (o : Option A) (f : A → Exec S B) (s : S)
    {b : B}
    → (continue (ok_or {S = S} e o s).0 f (ok_or {S = S} e o s).1).0 ≡ ok b
    → (a : A) × (o ≡ some a) × ((f a s).0 ≡ ok b)
ok_or-ok e none f s h = cc
ok_or-ok e (some a) f s h = (a, refl, h)

-- What holds of a chain that succeeds, as it does behind each step that succeeds.
pub continue-then {ℓ κ μ ν} :
    {S : Type ℓ} {A : Type κ} {B : Type μ} (C : S → Type ν) (r : Outcome A) (f : A → Exec S B)
    (s : S) {b : B}
    → (continue r f s).0 ≡ ok b
    → ((a : A) → r ≡ ok a → (f a s).0 ≡ ok b → C (f a s).1)
    → C (continue r f s).1
continue-then C (ok a) f s h k = k a refl h
continue-then C (err e) f s h k = cc
continue-then C panic f s h k = cc
continue-then C blocked f s h k = cc

-- The host's reply is no part of the state.
pub answer-state {ℓ} :
    {S : Type ℓ} {A : Type 0} (wrap : Text → Error) (r : Reply A) (s : S) → (answer wrap r s).1 ≡ s
answer-state wrap (done a) s = refl
answer-state wrap (failed t) s = refl
answer-state wrap pending s = refl

pub ok_or-some {ℓ κ} :
    {S : Type ℓ} {A : Type κ} (e : Error) (o : Option A) (s : S) {a : A}
    → (ok_or {S = S} e o s).0 ≡ ok a
    → o ≡ some a
ok_or-some e none s h = cc
ok_or-some e (some a) s h = cc

-- An early return that was not taken.
pub fail_if-ok {ℓ} :
    {S : Type ℓ} (b : Bool) (e : Error) (s : S) {u : Unit {0}}
    → (fail_if {S = S} (not b) e s).0 ≡ ok u
    → b ≡ true
fail_if-ok true e s h = refl
fail_if-ok false e s h = cc

-- The state behind a test for a value.
pub ok_or-state {ℓ κ} :
    {S : Type ℓ} {A : Type κ} (e : Error) (o : Option A) (s : S) → (ok_or {S = S} e o s).1 ≡ s
ok_or-state e none s = refl
ok_or-state e (some a) s = refl

-- The same for a step that the host answers.
pub answer-then {ℓ κ μ} :
    {S : Type ℓ} {A : Type 0} {B : Type κ} (C : S → Type μ) (wrap : Text → Error) (r : Reply A)
    (f : A → Exec S B) (s : S) {b : B}
    → (continue (answer {S = S} wrap r s).0 f (answer {S = S} wrap r s).1).0 ≡ ok b
    → ((a : A) → r ≡ done a → (f a s).0 ≡ ok b → C (f a s).1)
    → C (continue (answer {S = S} wrap r s).0 f (answer {S = S} wrap r s).1).1
answer-then C wrap (done a) f s h k = k a refl h
answer-then C wrap (failed t) f s h k = cc
answer-then C wrap pending f s h k = cc

-- The same for a match, and for a match on the host's answer.
pub settle-then {ℓ κ μ ν} :
    {S : Type ℓ} {A : Type κ} {B : Type μ} (C : S → Type ν) (r : Outcome A) (f : A → Exec S B)
    (g : Error → Exec S B) (s : S) {b : B}
    → (settle r f g s).0 ≡ ok b
    → ((a : A) → r ≡ ok a → (f a s).0 ≡ ok b → C (f a s).1)
    → ((e : Error) → (g e s).0 ≡ ok b → C (g e s).1)
    → C (settle r f g s).1
settle-then C (ok a) f g s h k l = k a refl h
settle-then C (err e) f g s h k l = l e h
settle-then C panic f g s h k l = cc
settle-then C blocked f g s h k l = cc

pub answer-settle {ℓ κ μ} :
    {S : Type ℓ} {A : Type 0} {B : Type κ} (C : S → Type μ) (wrap : Text → Error) (r : Reply A)
    (f : A → Exec S B) (g : Error → Exec S B) (s : S) {b : B}
    → (settle (answer {S = S} wrap r s).0 f g (answer {S = S} wrap r s).1).0 ≡ ok b
    → ((a : A) → r ≡ done a → (f a s).0 ≡ ok b → C (f a s).1)
    → ((e : Error) → (g e s).0 ≡ ok b → C (g e s).1)
    → C (settle (answer {S = S} wrap r s).0 f g (answer {S = S} wrap r s).1).1
answer-settle C wrap (done a) f g s h k l = k a refl h
answer-settle C wrap (failed t) f g s h k l = l (wrap t) h
answer-settle C wrap pending f g s h k l = cc

-- What succeeds before the deadline succeeds without one.
pub on_elapsed-ok {ℓ} :
    {A : Type ℓ} (e : Error) (r : Outcome A) {a : A} → on_elapsed (err e) r ≡ ok a → r ≡ ok a
on_elapsed-ok e (ok b) h = h
on_elapsed-ok e (err x) h = cc
on_elapsed-ok e panic h = cc
on_elapsed-ok e blocked h = cc

-- A process that is kept after a success.
pub drop_unless_ok-ok {ℓ} :
    {A : Type ℓ} (pid : ℕ) (r : Outcome A × World) {a : A}
    → (drop_unless_ok pid r).0 ≡ ok a
    → (r.0 ≡ ok a) × ((drop_unless_ok pid r).1 ≡ r.1)
drop_unless_ok-ok pid (ok b, w) h = (h, refl)
drop_unless_ok-ok pid (err e, w) h = cc
drop_unless_ok-ok pid (panic, w) h = cc
drop_unless_ok-ok pid (blocked, w) h = cc

-- ===== src/Request/Scope.antt =====
-- `close` without a reference: the tunnels that it removes; and `open` under a reference in use.
use telco_vecchio.Prelude.{
  ℕ, ◌≡◌, ◌≢◌, refl, ◌∙◌, none, List, [], ◌∷◌, arith, ◌==◌, nat_eq, list_eq, All, if◌then◌else◌,
}
use telco_vecchio.Prelude.Map.{Map, lookup, erase, HasUniqueKeys}
use telco_vecchio.Text.{Text}
use telco_vecchio.Config.{User}
use telco_vecchio.Effects.{ok, Exec, continue}
use telco_vecchio.Effects.Keeps.{continue-ok}
use telco_vecchio.Effects.World.{Host}
use telco_vecchio.Context.{Tunnel, State}
use telco_vecchio.Context.Cleanup.{erase_all, erase_all-others}
use telco_vecchio.Request.Close.{
  references_of, some_references, references, kill_found, close_one, close_all, close_request,
}
use telco_vecchio.Request.Keeps.{references-state}

-- The tunnels of the other users.
abbrev pub tunnels_of_others : Text → Map ℕ Tunnel → Map ℕ Tunnel
tunnels_of_others name [] = []
tunnels_of_others name ((id, t) ∷ m) =
    if t.user == name then tunnels_of_others name m else (id, t) ∷ tunnels_of_others name m

references_of-All :
    (name : Text) (id : ℕ) (m : Map ℕ Tunnel)
    → lookup id m ≡ none
    → All (λ j. j ≢ id) (references_of name m)
unfolding references_of
references_of-All name id [] h = tt
references_of-All name id ((j, t) ∷ m) h = ground (arith, references_of-All name id m)

-- Erasing the user's references leaves the tunnels of the others, in their order.
erase_all-references_of :
    (name : Text) (m : Map ℕ Tunnel)
    → HasUniqueKeys m
    → erase_all (references_of name m) m ≡ tunnels_of_others name m
unfolding references_of
erase_all-references_of name [] u = refl
erase_all-references_of name ((id, t) ∷ m) u = ground (
  arith,
  erase_all-references_of name m u.1,
  erase_all-others (references_of name m) id t m,
  references_of-All name id m u.0,
)

module _ (host : Host) where
  close_one-ok :
      (id : ℕ) (s : State)
      → (close_one host id s).0 ≡ ok tt
      → (close_one host id s).1.context
        ≡ record (s.context) { tunnels = erase id s.context.tunnels }
  unfolding close_one kill_found
  close_one-ok id s h = ground arith

  close_all-ok :
      (ids : List ℕ) (s : State)
      → (close_all host ids s).0 ≡ ok tt
      → (close_all host ids s).1.context
        ≡ record (s.context) { tunnels = erase_all ids s.context.tunnels }
  unfolding close_all
  close_all-ok [] s h = refl
  close_all-ok (id ∷ ids) s h =
      let closed = close_one host id s in
      let (_, e, rest) = continue-ok closed.0 _ closed.1 h in
      rw e (close_all-ok ids closed.1 rest ∙ rw (close_one-ok id s e) refl)

  own_references :
      (name : Text) (s : State) {ids : List ℕ}
      → (references name s.context.tunnels [] s).0 ≡ ok ids
      → ids ≡ references_of name s.context.tunnels
  unfolding references some_references
  own_references name s h = ground arith

  close_all-own :
      {A : Type 0} (name : Text) (ids : List ℕ) (s : State) (f : Unit {0} → Exec State A)
      {answer : A}
      → HasUniqueKeys s.context.tunnels
      → ids ≡ references_of name s.context.tunnels
      → ((u : Unit {0}) (v : State) → (f u v).1 ≡ v)
      → let all = close_all host ids s in
        (continue all.0 f all.1).0 ≡ ok answer
        → (continue all.0 f all.1).1.context
          ≡ record (s.context) { tunnels = tunnels_of_others name s.context.tunnels }
  close_all-own name ids s f u same keeps h =
      let all = close_all host ids s in
      let (_, e, _) = continue-ok all.0 f all.1 h in
      rw e (
        rw (keeps tt all.1) (
          close_all-ok ids s e
          ∙ rw same (rw (erase_all-references_of name s.context.tunnels u) refl)))

  -- If the references are distinct, a `close` without a reference that succeeds removes all the
  -- tunnels of the user and leaves those of the others, in their order, and the rest of the
  -- context.
  pub close_request-own :
      (user : User) (s : State) {answer : Text}
      → HasUniqueKeys s.context.tunnels
      → (close_request host user [] s).0 ≡ ok answer
      → (close_request host user [] s).1.context
        ≡ record (s.context) { tunnels = tunnels_of_others user.name s.context.tunnels }
  unfolding close_request
  close_request-own user s u h =
      let found = references user.name s.context.tunnels [] s in
      let (ids, e, last) = continue-ok found.0 _ found.1 h in
      rw e (
        rw (references-state user.name s []) (
          close_all-own user.name ids s _ u (own_references user.name s e) (λ _ v. refl)
            (rw (references-state user.name s []) at last)))

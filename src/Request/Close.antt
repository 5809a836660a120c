-- ===== src/Request/Close.antt =====
-- `close [<reference>]`: one tunnel by its reference, or all those of the user.
use telco_vecchio.Prelude.{
  ℕ, Option, none, some, List, [], ◌∷◌, ltb, if◌then◌else◌, ◌==◌, nat_eq, list_eq, length,
}
use telco_vecchio.Prelude.Map.{Map, lookup}
use telco_vecchio.Text.{Text}
use telco_vecchio.Text.Decimal.{parse_u32}
use telco_vecchio.Config.{User}
use telco_vecchio.Effects.{
  invalid_request_error, Outcome, ok, err, panic, blocked, Exec, pure, raise, ◌>>=◌, ◌>>◌,
}
use telco_vecchio.Effects.World.{World, Host, killed, dropped, emit, perform, ok_or}
use telco_vecchio.Context.{Tunnel, State, act, set_tunnels}
use telco_vecchio.Prelude.Map.{erase}
use telco_vecchio.Request.Message.{
  bad_reference, no_open_tunnel, unknown_reference, one_closed, many_closed,
}

-- the `filter_map` over the tunnels
unfoldable pub references_of : Text → Map ℕ Tunnel → List ℕ
references_of name [] = []
references_of name ((id, t) ∷ m) =
    if t.user == name then id ∷ references_of name m else references_of name m

unfoldable pub some_references {ℓ} : {S : Type ℓ} → List ℕ → Exec S (List ℕ)
some_references [] = raise (invalid_request_error no_open_tunnel)
some_references (id ∷ ids) = pure (id ∷ ids)

unfoldable pub references {ℓ} : {S : Type ℓ} → Text → Map ℕ Tunnel → List Text → Exec S (List ℕ)
references name m [] = some_references (references_of name m)
references name m (s ∷ args) = do
  reference ← ok_or (invalid_request_error (bad_reference s)) (parse_u32 s)
  pure (reference ∷ [])

-- What leaves the scope is dropped, unless the wait never ends.
abbrev pub drop_at_end {ℓ} : {A : Type ℓ} → ℕ → Outcome A × World → Outcome A × World
drop_at_end pid (ok a, w) = (ok a, emit (dropped pid) w)
drop_at_end pid (err e, w) = (err e, emit (dropped pid) w)
drop_at_end pid (panic, w) = (panic, emit (dropped pid) w)
drop_at_end pid (blocked, w) = (blocked, w)

module _ (host : Host) where
  -- `entry.process.kill().await?`, after which the entry is dropped
  unfoldable pub kill_entry : Tunnel → Exec World (Unit {0})
  kill_entry t w =
      drop_at_end t.process (perform (killed t.process) (λ tr. host.kill tr t.process) w)

  unfoldable pub kill_found : ℕ → Option Tunnel → Exec State (Unit {0})
  kill_found reference none s = (err (invalid_request_error (unknown_reference reference)), s)
  kill_found reference (some t) s =
      act (kill_entry t) (set_tunnels (erase reference s.context.tunnels) s)

  -- one round of the loop over the references
  unfoldable pub close_one : ℕ → Exec State (Unit {0})
  close_one reference s = kill_found reference (lookup reference s.context.tunnels) s

  unfoldable pub close_all : List ℕ → Exec State (Unit {0})
  close_all [] = pure tt
  close_all (id ∷ ids) = close_one id >> close_all ids

  -- `args` are the words behind the command.
  unfoldable pub close_request : User → List Text → Exec State Text
  close_request user args s =
      (do
        ids ← references user.name s.context.tunnels args
        close_all ids
        pure (if ltb 1 (length ids) then many_closed else one_closed))
        s

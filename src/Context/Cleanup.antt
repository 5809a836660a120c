-- ===== src/Context/Cleanup.antt =====
-- What `clean_up_expired_tunnels` removes: the expired tunnels, all of them and no others.
use telco_vecchio.Prelude.{
  ℕ, ◌-◌, ◌≤◌, ◌≡◌, ◌≢◌, refl, Bool-cases, inl, inr, none, List, [], ◌∷◌, arith, ltb, if◌then◌else◌,
  nat_eq, list_eq, All,
}
use telco_vecchio.Prelude.Map.{Map, lookup, erase, HasUniqueKeys}
use telco_vecchio.Config.{Configuration}
use telco_vecchio.Effects.{ok, Exec, pure, ◌>>=◌, ◌>>◌}
use telco_vecchio.Effects.Keeps.{continue-ok}
use telco_vecchio.Effects.World.{World, Host, Crates}
use telco_vecchio.Context.{Tunnel, State, remove_tunnel}
use telco_vecchio.Context.Expiry.{secs, age, next_ids, close_expired, expired_ids, remove_all}
use telco_vecchio.Context.Invariant.{IsValid, erase-IsValid}

-- The tunnels that are younger than the limit, or just as old.
abbrev pub fresh : (time limit : ℕ) → Map ℕ Tunnel → Map ℕ Tunnel
fresh time limit [] = []
fresh time limit ((id, t) ∷ m) =
    if ltb limit (time - t.creation_date) then fresh time limit m else (id, t) ∷ fresh time limit m

-- the keys of the others
abbrev pub expired : (time limit : ℕ) → Map ℕ Tunnel → List ℕ
expired time limit [] = []
expired time limit ((id, t) ∷ m) =
    if ltb limit (time - t.creation_date) then id ∷ expired time limit m else expired time limit m

abbrev pub erase_all : List ℕ → Map ℕ Tunnel → Map ℕ Tunnel
erase_all [] m = m
erase_all (id ∷ ids) m = erase_all ids (erase id m)

pub erase_all-others :
    (ids : List ℕ) (id : ℕ) (t : Tunnel) (m : Map ℕ Tunnel)
    → All (λ j. j ≢ id) ids
    → erase_all ids ((id, t) ∷ m) ≡ (id, t) ∷ erase_all ids m
erase_all-others [] id t m h = refl
erase_all-others (j ∷ ids) id t m h = ground (arith, erase_all-others ids id t (erase j m) h.1)

expired-All :
    (time limit id : ℕ) (m : Map ℕ Tunnel)
    → lookup id m ≡ none
    → All (λ j. j ≢ id) (expired time limit m)
expired-All time limit id [] h = tt
expired-All time limit id ((j, t) ∷ m) h = ground (arith, expired-All time limit id m)

-- Erasing the expired keys leaves the fresh tunnels, in their order.
pub erase_all-expired :
    (time limit : ℕ) (m : Map ℕ Tunnel)
    → HasUniqueKeys m
    → erase_all (expired time limit m) m ≡ fresh time limit m
erase_all-expired time limit [] u = refl
erase_all-expired time limit ((id, t) ∷ m) u = ground (
  arith,
  erase_all-expired time limit m u.1,
  erase_all-others (expired time limit m) id t m,
  expired-All time limit id m u.0,
)

pub remove_all-tunnels :
    (ids : List ℕ) (s : State)
    → (remove_all ids s).1.context.tunnels ≡ erase_all ids s.context.tunnels
unfolding remove_all remove_tunnel
remove_all-tunnels [] s = refl
remove_all-tunnels (id ∷ ids) s = remove_all-tunnels ids (remove_tunnel id s).1

pub remove_all-IsValid :
    (ids : List ℕ) (s : State) → IsValid s.context → IsValid (remove_all ids s).1.context
unfolding remove_all remove_tunnel
remove_all-IsValid [] s v = v
remove_all-IsValid (id ∷ ids) s v =
    remove_all-IsValid ids (remove_tunnel id s).1 (erase-IsValid s.context id v)

closed_first :
    (id : ℕ) (step : Exec World (Unit {0})) (rest : Exec World (List ℕ)) (w : World) {ids : List ℕ}
    → ((step >> (rest >>= λ more. pure (id ∷ more))) w).0 ≡ ok ids
    → (ids' : List ℕ) × ((rest (step w).1).0 ≡ ok ids') × (ids ≡ id ∷ ids')
closed_first id step rest w h =
    let (_, _, e) = continue-ok (step w).0 _ (step w).1 h in
    let (ids', e', last) = continue-ok (rest (step w).1).0 _ (rest (step w).1).1 e in (ids', e', cc)

-- The age of a tunnel is found unless it is from the future.
age_ok :
    {A : Type 0} (time : ℕ) (t : Tunnel) (f : ℕ → Exec World A) (w : World) {a : A}
    → ((age time t >>= f) w).0 ≡ ok a
    → (t.creation_date ≤ time) × ((f (time - t.creation_date) w).0 ≡ ok a)
age_ok time t f w h = ground arith

module _ (host : Host) (crates : Crates) where
  -- A loop that ends returns the expired keys, and found no tunnel from the future.
  pub expired_ids_sound :
      (c : Configuration) (time : ℕ) (m : Map ℕ Tunnel) (w : World) {ids : List ℕ}
      → (expired_ids host crates c time m w).0 ≡ ok ids
      → (ids ≡ expired time (secs c.ssh_config.tunnel_timeout_sec) m)
        × All (λ (e : ℕ × Tunnel). e.1.creation_date ≤ time) m
  unfolding expired_ids next_ids
  expired_ids_sound c time [] w h = (ground arith, tt)
  expired_ids_sound c time ((id, t) ∷ m) w {ids} h =
      let limit = secs c.ssh_config.tunnel_timeout_sec in
      let rest = expired_ids host crates c time m in
      let after = age_ok time t (next_ids host crates c id t rest) w h in
      elim (Bool-cases (ltb limit (time - t.creation_date))) [
        | inl old ↦
            let (ids', e, same) =
              closed_first id (close_expired host crates c id t) rest w (rw old at after.1) in
            ground (
              arith,
              expired_ids_sound c time m (close_expired host crates c id t w).1 {ids = ids'} e,
            )
        | inr young ↦ ground (arith, expired_ids_sound c time m w {ids = ids} (rw young at after.1))
      ]

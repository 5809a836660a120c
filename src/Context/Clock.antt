-- ===== src/Context/Clock.antt =====
-- The clean-up after the clock was set back.
use telco_vecchio.Prelude.{
  ℕ, ◌-◌, ◌<◌, ◌≡◌, refl, true, Bool-cases, inl, inr, ◌⊎◌, List, [], ◌∷◌, arith, ltb, All,
}
use telco_vecchio.Prelude.Map.{Map}
use telco_vecchio.Config.{Configuration}
use telco_vecchio.Effects.{panic, Exec, ◌>>=◌}
use telco_vecchio.Effects.World.{World, Host, Crates, emit, clock_read}
use telco_vecchio.Context.{Tunnel, State}
use telco_vecchio.Context.Expiry.{
  secs, age, next_ids, close_expired, expired_ids, clean_up_expired_tunnels,
}
use telco_vecchio.Context.Termination.{HasNumber, KillsReturn, close_expired-ok}

-- Some tunnel was opened after this time.
abbrev pub HasFuture : ℕ → Map ℕ Tunnel → Type 0
HasFuture time [] = ⊥
HasFuture time ((id, t) ∷ m) = (time < t.creation_date) ⊎ HasFuture time m

age-panics :
    {A : Type 0} (time : ℕ) (t : Tunnel) (f : ℕ → Exec World A) (w : World)
    → (time < t.creation_date) ⊎ ((d : ℕ) (v : World) → (f d v).0 ≡ panic)
    → ((age time t >>= f) w).0 ≡ panic
age-panics time t f w (inl h) =
    let future : ltb time t.creation_date ≡ true = ground arith in rw future refl
age-panics time t f w (inr h) = elim (Bool-cases (ltb time t.creation_date)) [
  | inl future ↦ rw future refl
  | inr past ↦ rw past (h (time - t.creation_date) w)
]

module _ (host : Host) (crates : Crates) (returns : KillsReturn host) where
  next_ids-panics :
      (c : Configuration) (id : ℕ) (t : Tunnel) (rest : Exec World (List ℕ)) (d : ℕ) (w : World)
      → All HasNumber c.users
      → ((v : World) → (rest v).0 ≡ panic)
      → (next_ids host crates c id t rest d w).0 ≡ panic
  unfolding next_ids
  next_ids-panics c id t rest d w numbers h =
      elim (Bool-cases (ltb (secs c.ssh_config.tunnel_timeout_sec) d)) [
        | inl old ↦ rw old (
            rw (close_expired-ok host crates returns c id t w numbers)
              (rw (h (close_expired host crates c id t w).1) refl))
        | inr young ↦ rw young (h w)
      ]

  expired_ids-panics :
      (c : Configuration) (time : ℕ) (m : Map ℕ Tunnel) (w : World)
      → All HasNumber c.users
      → HasFuture time m
      → (expired_ids host crates c time m w).0 ≡ panic
  unfolding expired_ids
  expired_ids-panics c time [] w numbers h = absurd h
  expired_ids-panics c time ((id, t) ∷ m) w numbers (inl h) = age-panics time t _ w (inl h)
  expired_ids-panics c time ((id, t) ∷ m) w numbers (inr h) = age-panics time t _ w (
      inr λ d v.
        next_ids-panics c id t (expired_ids host crates c time m) d v numbers
          (λ u. expired_ids-panics c time m u numbers h))

  -- If the clock stands before the creation of some open tunnel, the clean-up panics, whatever the modem
  -- does, as long as the kills come back and the users' numbers can be encoded.
  pub clean_up-panics :
      (s : State)
      → All HasNumber s.context.configuration.users
      → HasFuture (host.clock s.world.trace) s.context.tunnels
      → (clean_up_expired_tunnels host crates s).0 ≡ panic
  unfolding clean_up_expired_tunnels
  clean_up-panics s numbers h =
      rw
        (expired_ids-panics s.context.configuration (host.clock s.world.trace) s.context.tunnels
          (emit clock_read s.world) numbers h)
        refl

-- ===== src/Status/Internet.antt =====
-- The check of the internet connection: how it ends, and what it has tried when it gives up.
use telco_vecchio.Prelude.{
  ℕ, zero, suc, ◌+◌, ◌≤◌, ◌≡◌, ◌≢◌, refl, ◌⊎◌, inl, inr, Bool, Bool-cases, true, false, [], ◌∷◌,
  ◌++◌, arith, ltb,
}
use telco_vecchio.Config.{IpAddr}
use telco_vecchio.Effects.{ping_error, Outcome, ok, Exec, pure, settle}
use telco_vecchio.Effects.World.{
  pinged, slept, Trace, World, Host, Reply, done, failed, pending, answer, emit,
}
use telco_vecchio.Status.Qmi.{after_error, internet_loop, is_connected_to_internet}

-- Four pings of an address, with two seconds between one and the next; the latest stands first.
abbrev pub four_pings : IpAddr → Trace
four_pings ip = pinged ip ∷ slept 2 ∷ pinged ip ∷ slept 2 ∷ pinged ip ∷ slept 2 ∷ pinged ip ∷ []

-- A ping comes back, with an answer or an error.
abbrev pub PingsReturn : Host → Type 0
PingsReturn host = (t : Trace) (ip : IpAddr) → host.ping t ip ≢ pending

abbrev IsVerdict : Outcome Bool → Type 0
IsVerdict r = (r ≡ ok true) ⊎ (r ≡ ok false)

ping-ends :
    (r : Reply (Unit {0})) (again : Exec World Bool) (w : World)
    → r ≢ pending
    → IsVerdict (again w).0
    → IsVerdict
        (settle
          (answer {S = World} ping_error r w).0
          (λ _. pure true)
          (λ _. again)
          (answer {S = World} ping_error r w).1).0
ping-ends (done a) again w h k = inl refl
ping-ends (failed t) again w h k = k
ping-ends pending again w h k = absurd (h refl)

ends_or_goes_on :
    (again : Exec World Bool) (i : ℕ) (w : World)
    → (i ≤ 3 → (v : World) → IsVerdict (again v).0)
    → IsVerdict (after_error again (ltb 3 i) w).0
unfolding after_error
ends_or_goes_on again i w h = elim (Bool-cases (ltb 3 i)) [
  | inl many ↦ rw many (inr refl)
  | inr few ↦ rw few (h (ground arith) (emit (slept 2) w))
]

module _ (host : Host) where
  -- When the connection is found missing, the address was pinged four times, with two seconds
  -- between one ping and the next, and nothing else was done.
  pub is_connected_to_internet-gives_up :
      (ip : IpAddr) (w : World)
      → (is_connected_to_internet host ip w).0 ≡ ok false
      → (is_connected_to_internet host ip w).1.trace ≡ four_pings ip ++ w.trace
  unfolding is_connected_to_internet internet_loop after_error
  is_connected_to_internet-gives_up ip w h = ground arith

  internet_loop-ends :
      (fuel i : ℕ) (ip : IpAddr) (w : World)
      → PingsReturn host
      → 4 ≤ fuel + i
      → i ≤ 3
      → IsVerdict (internet_loop host fuel i ip w).0
  unfolding internet_loop
  internet_loop-ends zero i ip w h enough few = absurd (omega arith)
  internet_loop-ends (suc fuel) i ip w h enough few =
      let again = internet_loop host fuel (suc i) ip in
      ping-ends (host.ping w.trace ip) (after_error again (ltb 3 (suc i))) (emit (pinged ip) w)
        (h w.trace ip)
        (ends_or_goes_on again (suc i) (emit (pinged ip) w)
          λ more v. internet_loop-ends fuel (suc i) ip v h (omega arith) more)

  -- If pings come back, with an answer or an error, the check of the connection comes to a verdict.
  pub is_connected_to_internet_returns :
      (ip : IpAddr) (w : World)
      → PingsReturn host
      → ((is_connected_to_internet host ip w).0 ≡ ok true)
        ⊎ ((is_connected_to_internet host ip w).0 ≡ ok false)
  unfolding is_connected_to_internet
  is_connected_to_internet_returns ip w h =
      internet_loop-ends 4 0 ip w h (omega arith) (omega arith)

-- ===== src/Context/Termination.antt =====
-- The clean-up comes to its end.
use telco_vecchio.Prelude.{
  ℕ, ◌-◌, ◌≤◌, ◌≡◌, ◌≢◌, refl, Bool, true, false, Bool-cases, inl, inr, ◌⊎◌, Option, none, some,
  List, [], ◌∷◌, arith, ltb, ◌==◌, nat_eq, list_eq, find, All, ◌++◌,
}
use mathlib.Core.Path.{subst}
use telco_vecchio.Prelude.Map.{Map}
use telco_vecchio.Text.{text}
use telco_vecchio.Text.Decimal.{show}
use telco_vecchio.Config.{User, Configuration}
use telco_vecchio.Effects.{Error, io_error, Outcome, ok, err, Exec, pure, continue, settle, ◌>>=◌}
use telco_vecchio.Effects.World.{
  World, Host, Crates, Reply, done, failed, pending, Trace, killed, answer, perform, emit,
  clock_read,
}
use telco_vecchio.Sms.{OutgoingSms}
use telco_vecchio.Sms.Phone.{encode_phone_number}
use telco_vecchio.Sms.Send.{send_sms}
use telco_vecchio.Sms.Outcome.{send_sms_returns}
use telco_vecchio.Context.{Tunnel, State, remove_tunnel}
use telco_vecchio.Context.Expiry.{
  secs, ignore, age, notify_expiry, close_expired, next_ids, expired_ids, remove_all,
  clean_up_expired_tunnels,
}

-- A message to the user can be encoded.
abbrev pub HasNumber : User → Type 0
HasNumber u = encode_phone_number u.phone_number ≢ none

-- `Child::kill` comes back, with a success or an error.
abbrev pub KillsReturn : Host → Type 0
KillsReturn host = (t : Trace) (pid : ℕ) → host.kill t pid ≢ pending

-- An error is only logged.
ignore-ok :
    (m : Exec World (Unit {0})) (w : World) {e : Error}
    → ((m w).0 ≡ ok tt) ⊎ ((m w).0 ≡ err e)
    → (ignore m w).0 ≡ ok tt
ignore-ok m w (inl h) = rw h
ignore-ok m w (inr h) = rw h

continue-ok_step :
    {A B : Type 0} (r : Outcome A) (f : A → Exec World B) (w : World) {a : A} {b : B}
    → r ≡ ok a
    → (f a w).0 ≡ ok b
    → (continue r f w).0 ≡ ok b
continue-ok_step r f w e h = rw e h

find-All :
    (p : User → Bool) (users : List User) {u : User}
    → All HasNumber users
    → find p users ≡ some u
    → HasNumber u
find-All p [] h e = cc
find-All p (x ∷ users) {u} h e = elim (Bool-cases (p x)) [
  | inl hit ↦ let same : x ≡ u = ground arith in subst HasNumber same h.0
  | inr miss ↦ find-All p users h.1 (rw miss at e)
]

age_past :
    {A : Type 0} (time : ℕ) (t : Tunnel) (f : ℕ → Exec World A) (w : World)
    → t.creation_date ≤ time
    → (age time t >>= f) w ≡ f (time - t.creation_date) w
age_past time t f w h = ground arith

module _ (host : Host) (crates : Crates) (returns : KillsReturn host) where
  kill-ok :
      (pid : ℕ) (w : World) → (ignore (perform (killed pid) (λ t. host.kill t pid)) w).0 ≡ ok tt
  kill-ok pid w = replied (host.kill w.trace pid) (returns w.trace pid)
    where
      replied :
          (r : Reply (Unit {0}))
          → r ≢ pending
          → (settle {B = Unit {0}}
              (answer io_error r (emit (killed pid) w)).0
              pure
              (λ _. pure tt)
              (answer io_error r (emit (killed pid) w)).1).0
            ≡ ok tt
      replied (done a) h = refl
      replied (failed t) h = refl
      replied pending h = absurd (h refl)

  notify_expiry-ok :
      (c : Configuration) (id : ℕ) (user : Option User) (w : World)
      → ((u : User) → user ≡ some u → HasNumber u)
      → (notify_expiry host crates c id user w).0 ≡ ok tt
  unfolding notify_expiry
  notify_expiry-ok c id none w h = refl
  notify_expiry-ok c id (some user) w h =
      let sms : OutgoingSms = record {
        to = user.phone_number;
        msg = text "Expired tunnel " ++ (show id ++ text " has been closed");
      } in
      ignore-ok (send_sms host crates c.sms_config sms) w
        (send_sms_returns host crates c.sms_config sms w (h user refl))

  pub close_expired-ok :
      (c : Configuration) (id : ℕ) (t : Tunnel) (w : World)
      → All HasNumber c.users
      → (close_expired host crates c id t w).0 ≡ ok tt
  unfolding close_expired
  close_expired-ok c id t w h =
      let kill = ignore (perform (killed t.process) (λ tr. host.kill tr t.process)) in
      continue-ok_step (kill w).0 _ (kill w).1 (kill-ok t.process w) (
        notify_expiry-ok c id (find (λ u. u.name == t.user) c.users) _
          (λ u e. find-All (λ x. x.name == t.user) c.users h e))

  next_ids-old :
      (c : Configuration) (id : ℕ) (t : Tunnel) (rest : Exec World (List ℕ)) (d : ℕ) (w : World)
      {ids : List ℕ}
      → All HasNumber c.users
      → ltb (secs c.ssh_config.tunnel_timeout_sec) d ≡ true
      → (rest (close_expired host crates c id t w).1).0 ≡ ok ids
      → (next_ids host crates c id t rest d w).0 ≡ ok (id ∷ ids)
  unfolding next_ids
  next_ids-old c id t rest d w h old e =
      let step = close_expired host crates c id t w in
      rw old (
        continue-ok_step step.0 _ step.1 (close_expired-ok c id t w h)
          (continue-ok_step (rest step.1).0 _ (rest step.1).1 e refl))

  next_ids-young :
      (c : Configuration) (id : ℕ) (t : Tunnel) (rest : Exec World (List ℕ)) (d : ℕ) (w : World)
      → ltb (secs c.ssh_config.tunnel_timeout_sec) d ≡ false
      → next_ids host crates c id t rest d w ≡ rest w
  unfolding next_ids
  next_ids-young c id t rest d w young = rw young

  expired_ids-ok :
      (c : Configuration) (time : ℕ) (m : Map ℕ Tunnel) (w : World)
      → All HasNumber c.users
      → All (λ (e : ℕ × Tunnel). e.1.creation_date ≤ time) m
      → (ids : List ℕ) × ((expired_ids host crates c time m w).0 ≡ ok ids)
  unfolding expired_ids
  expired_ids-ok c time [] w h past = ([], refl)
  expired_ids-ok c time ((id, t) ∷ m) w h past =
      let rest = expired_ids host crates c time m in
      elim (Bool-cases (ltb (secs c.ssh_config.tunnel_timeout_sec) (time - t.creation_date))) [
        | inl old ↦
            let v = (close_expired host crates c id t w).1 in
            let (ids, e) = expired_ids-ok c time m v h past.1 in
            (
              id ∷ ids,
              rw (age_past time t (next_ids host crates c id t rest) w past.0)
                  (next_ids-old c id t rest (time - t.creation_date) w h old e),
            )
        | inr young ↦
            let (ids, e) = expired_ids-ok c time m w h past.1 in
            (
              ids,
              rw (age_past time t (next_ids host crates c id t rest) w past.0)
                  (rw (next_ids-young c id t rest (time - t.creation_date) w young) e),
            )
      ]

  remove_all-ok : (ids : List ℕ) (s : State) → (remove_all ids s).0 ≡ ok tt
  unfolding remove_all remove_tunnel
  remove_all-ok [] s = refl
  remove_all-ok (id ∷ ids) s = remove_all-ok ids (remove_tunnel id s).1

  -- If the kills come back, the users' numbers can be encoded and no tunnel is from the future, the
  -- clean-up ends, whatever the modem does.
  pub clean_up_returns :
      (s : State)
      → All HasNumber s.context.configuration.users
      → All (λ (e : ℕ × Tunnel). e.1.creation_date ≤ host.clock s.world.trace) s.context.tunnels
      → (clean_up_expired_tunnels host crates s).0 ≡ ok tt
  unfolding clean_up_expired_tunnels
  clean_up_returns s h past =
      let time = host.clock s.world.trace in
      let w = emit clock_read s.world in
      let found = expired_ids host crates s.context.configuration time s.context.tunnels w in
      let (ids, e) = expired_ids-ok s.context.configuration time s.context.tunnels w h past in
      rw e (remove_all-ok ids (record s { world = found.1 }))

-- ===== src/Init/Pin.antt =====
-- The PIN is sent once at most, whatever the modem answers: the card is not blocked by retries.
use telco_vecchio.Prelude.{
  ℕ, zero, suc, ◌+◌, ◌≤◌, ◌≡◌, refl, inl, inr, Bool, true, false, not, List, [], ◌∷◌, ◌++◌, arith,
  if◌then◌else◌, ◌==◌, nat_eq, list_eq, eq_list, All, if-both,
}
use telco_vecchio.Text.{Text, text}
use telco_vecchio.Text.Utf8.{from_utf8}
use telco_vecchio.Config.{Configuration}
use telco_vecchio.Effects.{
  Error, io_error, system_command_execution_error, Outcome, ok, err, panic, blocked, Exec, continue,
}
use telco_vecchio.Effects.World.{
  Effect, pinged, resolved, slept, waited, spawned, Trace, World, Host, Crates, Output, Reply, done,
  failed, pending, perform, emit, fail_if, answer,
}
use telco_vecchio.Effects.Only.{Only, Only-lift, Only-perform, Only-ok_or, Only-map, Only-bind}
use telco_vecchio.Status.{
  Status, DeviceStatus, sim_locked, lte_not_connected, internet_unreachable, ready,
}
use telco_vecchio.Status.Qmi.{QmiProvider, qmi_line, qmi_command, verify_sim_pin}
use telco_vecchio.Status.Effects.{IsProbe, IsQuery, get_status-Probes}
use telco_vecchio.Status.Resolve.{qmi_provider, get_status}
use telco_vecchio.Init.Start.{on_device, unlock, retry, status_loop, reliable_status}

-- The modem's command to check a PIN.
abbrev is_pin_line : List Text → Bool
is_pin_line (binary ∷ d ∷ device ∷ command ∷ args) = command == text "--uim-verify-pin1"
is_pin_line _ = false

abbrev pin_count : Effect → ℕ
pin_count (spawned line) = if is_pin_line line then 1 else 0
pin_count _ = 0

-- how often a PIN was sent
abbrev pub pins : Trace → ℕ
pins [] = 0
pins (e ∷ t) = pin_count e + pins t

abbrev IsPinless : Effect → Type 0
IsPinless e = pin_count e ≡ 0

query_pinless :
    (c : Configuration) (line : List Text) → IsQuery c line → pin_count (spawned line) ≡ 0
unfolding eq_list
query_pinless c line (inl e) = rw e
query_pinless c line (inr e) = rw e

probe-IsPinless : (c : Configuration) (e : Effect) → IsProbe c e → IsPinless e
probe-IsPinless c (spawned line) h = query_pinless c line h
probe-IsPinless c (pinged ip) h = refl
probe-IsPinless c (resolved d) h = refl
probe-IsPinless c (slept n) h = refl
probe-IsPinless c (waited n) h = refl
probe-IsPinless c _ h = absurd h

pinless_pins : (es : List Effect) (t : Trace) → All IsPinless es → pins (es ++ t) ≡ pins t
pinless_pins [] t h = refl
pinless_pins (e ∷ es) t h = omega (arith, h.0, pinless_pins es t h.1)

Only-pins :
    {A : Type 0} (m : Exec World A)
    → Only IsPinless m
    → (w : World) → pins (m w).1.trace ≡ pins w.trace
Only-pins m x w = let y = x.at w in rw y.split (pinless_pins y.added w.trace y.each)

-- At most `n` more PINs are sent.
abbrev Sends : {A : Type 0} → ℕ → World → Outcome A × World → Type 0
Sends n w r = pins r.1.trace ≤ pins w.trace + n

continue-Sends :
    {A B : Type 0} (n k : ℕ) (r : Outcome A) (f : A → Exec World B) (w v : World)
    → pins v.trace ≤ pins w.trace + n
    → ((a : A) → Sends k v (f a v))
    → Sends (n + k) w (continue r f v)
continue-Sends n k (ok a) f w v h g = omega (arith, g a)
continue-Sends n k (err e) f w v h g = omega arith
continue-Sends n k panic f w v h g = omega arith
continue-Sends n k blocked f w v h g = omega arith

pin_count-le : (e : Effect) → pin_count e ≤ 1
pin_count-le (spawned line) =
    if-both (λ n. n ≤ 1) (is_pin_line line) _ _ (omega arith) (omega arith)
pin_count-le _ = omega arith

perform_pins :
    {A : Type 0} (f : Text → Error) (r : Reply A) (e : Effect) (w : World)
    → Sends 1 w (answer f r (emit e w))
perform_pins f (done a) e w = omega (arith, pin_count-le e)
perform_pins f (failed t) e w = omega (arith, pin_count-le e)
perform_pins f pending e w = omega (arith, pin_count-le e)

pinless_Sends : {A : Type 0} (m : Exec World A) → Only IsPinless m → (w : World) → Sends 0 w (m w)
pinless_Sends m x w = omega (arith, Only-pins m x w)

module _ (host : Host) where
  verify-Sends :
      (q : QmiProvider) (pin : Text) (w : World) → Sends 1 w (verify_sim_pin host q pin w)
  unfolding verify_sim_pin qmi_command
  verify-Sends q pin w =
      let line = qmi_line q (text "--uim-verify-pin1") (pin ∷ []) in
      let spawn = perform (spawned line) (λ t. host.spawn t line) in
      continue-Sends 1 0 (qmi_command host q (text "--uim-verify-pin1") (pin ∷ []) w).0 _ w
        (qmi_command host q (text "--uim-verify-pin1") (pin ∷ []) w).1
        (continue-Sends 1 0 (spawn w).0 _ w (spawn w).1
          (perform_pins io_error (host.spawn w.trace line) (spawned line) w)
          λ child.
            pinless_Sends _
              (Only-bind (perform (waited child.pid) (λ t. host.wait_with_output t child.pid))
                (Only-perform (waited child.pid) (λ t. host.wait_with_output t child.pid) refl)
                λ (output : Output).
                  Only-bind (fail_if (not output.success) system_command_execution_error)
                    (Only-lift _)
                    λ _. Only-ok_or system_command_execution_error (from_utf8 output.stdout))
              (spawn w).1)
        λ _. omega arith

abbrev left : Bool → ℕ
left true = 0
left false = 1

module _ (host : Host) (crates : Crates) (c : Configuration) where
  status-IsPinless : Only IsPinless (get_status host crates c)
  status-IsPinless = Only-map (probe-IsPinless c) (get_status-Probes c host crates)

  unlock-Sends :
      (again : Status → Exec World Status) (unlocked : Bool) (s : Status) (w : World)
      → ((s' : Status) (v : World) → Sends 0 v (again s' v))
      → Sends (left unlocked) w (unlock host crates c again unlocked s w)
  unfolding unlock
  unlock-Sends again true s w h = omega arith
  unlock-Sends again false s w h =
      let verified = verify_sim_pin host (qmi_provider c) c.sms_config.sim_pin w in
      continue-Sends 1 0 verified.0 _ w verified.1
        (verify-Sends host (qmi_provider c) c.sms_config.sim_pin w)
        λ _.
          let status = get_status host crates c verified.1 in
          continue-Sends 0 0 status.0 again verified.1 status.1
            (pinless_Sends (get_status host crates c) status-IsPinless verified.1)
            λ s'. h s' status.1

  retry-Sends :
      (n : ℕ) (again : ℕ → Status → Exec World Status) (counter : ℕ) (s : Status) (w : World)
      → ((k : ℕ) (s' : Status) (v : World) → Sends n v (again k s' v))
      → Sends n w (retry host crates c again counter s w)
  unfolding retry
  retry-Sends n again zero s w h = omega arith
  retry-Sends n again (suc counter) s w h =
      let v = emit (slept c.init_config.init_status_refresh_period_seconds) w in
      let status = get_status host crates c v in
      omega (
        arith,
        continue-Sends 0 n status.0 (again counter) v status.1
            (pinless_Sends (get_status host crates c) status-IsPinless v)
            (λ s'. h counter s' status.1),
      )

  on_device-Sends :
      (n : ℕ) (d : DeviceStatus) (a b e : Exec World Status) (w : World)
      → Sends n w (a w)
      → Sends n w (b w)
      → Sends n w (e w)
      → Sends n w (on_device d a b e w)
  unfolding on_device
  on_device-Sends n sim_locked a b e w x y z = x
  on_device-Sends n lte_not_connected a b e w x y z = y
  on_device-Sends n internet_unreachable a b e w x y z = y
  on_device-Sends n ready a b e w x y z = z

  status_loop-Sends :
      (fuel counter : ℕ) (unlocked : Bool) (s : Status) (w : World)
      → Sends (left unlocked) w (status_loop host crates c fuel counter unlocked s w)
  unfolding status_loop
  status_loop-Sends zero counter unlocked s w = omega arith
  status_loop-Sends (suc fuel) counter unlocked s w =
      on_device-Sends (left unlocked) s.device_status _ _ _ w
        (unlock-Sends (status_loop host crates c fuel counter true) unlocked s w
          (λ s' v. status_loop-Sends fuel counter true s' v))
        (retry-Sends (left unlocked) (λ n. status_loop host crates c fuel n unlocked) counter s w
          (λ k s' v. status_loop-Sends fuel k unlocked s' v))
        (omega arith)

  -- From the start to the last status the PIN is sent once at most, whatever the modem answers and
  -- however often the status is asked for.
  pub reliable_status-pins :
      (w : World) → pins (reliable_status host crates c w).1.trace ≤ pins w.trace + 1
  unfolding reliable_status
  reliable_status-pins w =
      let status = get_status host crates c w in
      let n = c.init_config.init_status_refresh_max_retry in
      continue-Sends 0 1 status.0 _ w status.1
        (pinless_Sends (get_status host crates c) status-IsPinless w)
        λ s. status_loop-Sends (suc (suc n)) n false s status.1

-- ===== src/Init/Termination.antt =====
-- The search for a reliable status comes to its end, in a status that it does not wait on any more.
use telco_vecchio.Prelude.{ℕ, zero, suc, ◌+◌, ◌<◌, ◌≡◌, refl, Bool, true, false, arith}
use telco_vecchio.Config.{Configuration}
use telco_vecchio.Effects.{Outcome, ok, Exec, continue}
use telco_vecchio.Effects.World.{World, Host, Crates}
use telco_vecchio.Status.{
  Status, DeviceStatus, sim_locked, lte_not_connected, internet_unreachable, ready,
}
use telco_vecchio.Status.Qmi.{verify_sim_pin}
use telco_vecchio.Status.Resolve.{qmi_provider, get_status}
use telco_vecchio.Init.Start.{on_device, unlock, retry, status_loop, reliable_status}

-- The queries of the modem and the check of the PIN come back without an error.
pub record Responds (host : Host) (crates : Crates) (c : Configuration) : Type 0 where
  pub status : (w : World) → (s : Status) × ((get_status host crates c w).0 ≡ ok s)
  pub verified :
      (w : World) → (verify_sim_pin host (qmi_provider c) c.sms_config.sim_pin w).0 ≡ ok tt

abbrev Ends : Outcome Status → Type 0
Ends r = (s : Status) × (r ≡ ok s)

abbrev left : Bool → ℕ
left true = 0
left false = 1

module _ (host : Host) (crates : Crates) (c : Configuration)
    (responds : Responds host crates c) where
  after_status :
      (again : Status → Exec World Status) (w : World)
      → ((s : Status) (v : World) → Ends (again s v).0)
      → Ends (continue (get_status host crates c w).0 again (get_status host crates c w).1).0
  after_status again w h =
      let (s, e) = responds.status w in rw e (h s (get_status host crates c w).1)

  unlock-Ends :
      (again : Status → Exec World Status) (unlocked : Bool) (s : Status) (w : World)
      → (unlocked ≡ false → (s' : Status) (v : World) → Ends (again s' v).0)
      → Ends (unlock host crates c again unlocked s w).0
  unfolding unlock
  unlock-Ends again true s w h = (s, refl)
  unlock-Ends again false s w h = rw (responds.verified w) (after_status again _ (h refl))

  retry-Ends :
      (again : ℕ → Status → Exec World Status) (counter : ℕ) (s : Status) (w : World)
      → ((k : ℕ) → counter ≡ suc k → (s' : Status) (v : World) → Ends (again k s' v).0)
      → Ends (retry host crates c again counter s w).0
  unfolding retry
  retry-Ends again zero s w h = (s, refl)
  retry-Ends again (suc counter) s w h = after_status (again counter) _ (h counter refl)

  on_device-Ends :
      (d : DeviceStatus) (a b e : Exec World Status) (w : World)
      → Ends (a w).0
      → Ends (b w).0
      → Ends (e w).0
      → Ends (on_device d a b e w).0
  unfolding on_device
  on_device-Ends sim_locked a b e w x y z = x
  on_device-Ends lte_not_connected a b e w x y z = y
  on_device-Ends internet_unreachable a b e w x y z = y
  on_device-Ends ready a b e w x y z = z

  status_loop-Ends :
      (fuel counter : ℕ) (unlocked : Bool) (s : Status) (w : World)
      → counter + left unlocked < fuel
      → Ends (status_loop host crates c fuel counter unlocked s w).0
  unfolding status_loop
  status_loop-Ends zero counter unlocked s w h = elim h [ ]
  status_loop-Ends (suc fuel) counter unlocked s w h =
      on_device-Ends s.device_status _ _ _ w
        (unlock-Ends (status_loop host crates c fuel counter true) unlocked s w
          (λ e s' v. status_loop-Ends fuel counter true s' v (ground arith)))
        (retry-Ends (λ n. status_loop host crates c fuel n unlocked) counter s w
          (λ k e s' v. status_loop-Ends fuel k unlocked s' v (omega arith)))
        (s, refl)

  -- The search ends with a status whenever the queries and the check of the PIN succeed: the rounds
  -- that the model allows for are enough, whatever the answers say.
  pub reliable_status_returns :
      (w : World) → (s : Status) × ((reliable_status host crates c w).0 ≡ ok s)
  unfolding reliable_status
  reliable_status_returns w =
      let n = c.init_config.init_status_refresh_max_retry in
      after_status (status_loop host crates c (suc (suc n)) n false) w
        (λ s v. status_loop-Ends (suc (suc n)) n false s v (omega arith))

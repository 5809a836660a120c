-- ===== src/Status.antt =====
-- The status of the router and of what it reaches: daemon/src/status.rs.
pub mod Display
pub mod Qmi
pub mod Queries
pub mod Network
pub mod Ends
pub mod Resolve
pub mod Effects
pub mod Internet
pub mod Answers
pub mod Size
use telco_vecchio.Prelude.{Bool, true, false}
use telco_vecchio.Prelude.Map.{Map}
use telco_vecchio.Text.{Text}

pub data ServiceStatus : Type 0 where
  reachable unreachable : ServiceStatus

pub data DeviceStatus : Type 0 where
  sim_locked lte_not_connected internet_unreachable ready : DeviceStatus

pub record Status : Type 0 where
  pub device_status : DeviceStatus
  pub email_service_status : ServiceStatus
  pub ssh_tunnel_service_status : ServiceStatus
  pub applications_status : Map Text ServiceStatus

-- `matches!(s, Reachable)`
abbrev pub is_reachable : ServiceStatus → Bool
is_reachable reachable = true
is_reachable unreachable = false

-- `matches!(s, Ready)`
abbrev pub is_ready : DeviceStatus → Bool
is_ready ready = true
is_ready _ = false

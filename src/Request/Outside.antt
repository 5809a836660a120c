-- ===== src/Request/Outside.antt =====
-- An outside that comes back.
use telco_vecchio.Prelude.{◌≡◌, ◌≢◌, true, some}
use telco_vecchio.Text.{Bytes, Text}
use telco_vecchio.Text.Utf8.{from_utf8}
use telco_vecchio.Text.Decimal.{ℤ}
use telco_vecchio.Config.{IpAddr, Configuration}
use telco_vecchio.Effects.World.{Host, Crates, Trace, Child, pending, done}
use telco_vecchio.Ssh.{ssh_line}
use telco_vecchio.Context.Termination.{KillsReturn}
use telco_vecchio.Status.Ends.{StatusReturns}

-- The uses of the register file come back, with an answer or an error.
pub record RegisterReturns (host : Host) : Type 0 where
  pub opens : (t : Trace) → host.open_register t ≢ pending
  pub writes : (t : Trace) → host.write_register t ≢ pending

-- Commands, pings, look-ups, kills and the uses of the register file come back, with an answer or an
-- error. Where a query of the modem prints JSON, it prints the value asked for. An ssh process that is
-- started has a pipe for its errors, which gives text when it is read.
pub record ComesBack (host : Host) (crates : Crates) (c : Configuration) : Type 0 where
  pub status : StatusReturns host crates c
  pub kills : KillsReturn host
  pub ssh :
      (t later : Trace) (output_host : IpAddr) (output_port : ℤ) {found : Child}
      → host.spawn t (ssh_line c.ssh_config output_host output_port) ≡ done found
      → (found.stderr ≡ true)
        × (bytes : Bytes) × (s : Text) × (host.read_stderr later found.pid ≡ done bytes)
        × (from_utf8 bytes ≡ some s)
  pub register : RegisterReturns host

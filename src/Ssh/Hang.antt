-- ===== src/Ssh/Hang.antt =====
-- A process of ssh that says nothing.
use telco_vecchio.Prelude.{ℕ, zero, suc, ◌≡◌, refl, true, List, []}
use telco_vecchio.Text.{Text, Bytes}
use telco_vecchio.Config.{IpAddr, SshConfig}
use telco_vecchio.Text.Decimal.{ℤ}
use telco_vecchio.Effects.{blocked}
use telco_vecchio.Effects.World.{
  World, Host, Crates, Child, done, pending, Trace, timer, emit, held, spawned,
}
use telco_vecchio.Ssh.{url_loop, report_stderr, read_tunnel_url, setup_ssh_tunnel, ssh_line}

-- The process starts, and its outputs stay open and empty.
pub record IsSilent (host : Host) : Type 0 where
  pub child : Child
  pub starts : (t : Trace) (line : List Text) → host.spawn t line ≡ done child
  pub piped : (child.stdout ≡ true) × (child.stderr ≡ true)
  pub stdout : (t : Trace) (pid : ℕ) → host.read_stdout t pid ≡ pending
  pub stderr : (t : Trace) (pid : ℕ) → host.read_stderr t pid ≡ pending

module _ (host : Host) (crates : Crates) (silent : IsSilent host) where
  url_loop-blocked :
      (fuel pid : ℕ) (written : Bytes) (w : World)
      → (url_loop host crates fuel pid written w).0 ≡ blocked
  unfolding url_loop
  url_loop-blocked zero pid written w = refl
  url_loop-blocked (suc fuel) pid written w = rw (silent.stdout w.trace pid) refl

  -- If the process of ssh says nothing, the request for the tunnel never ends, in spite of the deadline
  -- for the address: the report on the process waits for its stderr without one.
  pub setup_ssh_tunnel-hangs :
      (c : SshConfig) (ip : IpAddr) (port : ℤ) (w : World)
      → (setup_ssh_tunnel host crates c ip port w).0 ≡ blocked
  unfolding setup_ssh_tunnel read_tunnel_url report_stderr
  setup_ssh_tunnel-hangs c ip port w =
      let v = emit (held silent.child.pid) (emit (spawned (ssh_line c ip port)) w) in
      let u = emit (timer c.tunnel_setup_timeout_sec) v in
      let waited = url_loop host crates host.rounds silent.child.pid [] u in
      rw (silent.starts w.trace (ssh_line c ip port)) (
        rw silent.piped.0 (
          rw (url_loop-blocked host.rounds silent.child.pid [] u)
            (rw silent.piped.1 (rw (silent.stderr waited.1.trace silent.child.pid) refl))))

-- ===== src/Ssh/Effects.antt =====
-- What the wait for a tunnel's address does to the world: it reads the ends of the child's pipes.
use telco_vecchio.Prelude.{ℕ, zero, suc, not, [], ◌++◌}
use telco_vecchio.Text.{Text, Bytes}
use telco_vecchio.Text.Utf8.{from_utf8}
use telco_vecchio.Config.{SshConfig}
use telco_vecchio.Effects.{
  Error, ssh_tunnel_url_setup_timeout, system_command_execution_error, err, panic, blocked, Exec,
}
use telco_vecchio.Effects.World.{
  Effect, timer, stdout_read, stderr_read, World, Host, Crates, Child, unwrap, fail_if,
}
use telco_vecchio.Effects.Only.{
  Only, Only-pure, Only-lift, Only-perform, Only-unwrap, Only-if, Only-timeout, Only-bind,
  Only-match,
}
use telco_vecchio.Ssh.{
  Scan, url, service_error, unreadable, not_yet, scan_output, after_scan, url_loop, report_stderr,
  read_tunnel_url,
}

abbrev pub IsPipeRead : Effect → Type 0
IsPipeRead (timer n) = Unit
IsPipeRead (stdout_read pid n) = Unit
IsPipeRead (stderr_read pid n) = Unit
IsPipeRead _ = ⊥

abbrev ReadsPipes : {A : Type 0} → Exec World A → Type 0
ReadsPipes = Only IsPipeRead

after_scan-ReadsPipes :
    (m : Exec World Text) (s : Scan) → ReadsPipes m → ReadsPipes (after_scan m s)
unfolding after_scan
after_scan-ReadsPipes m (url u) p = Only-pure u
after_scan-ReadsPipes m (service_error e) p = Only-lift (err _)
after_scan-ReadsPipes m unreadable p = Only-lift (err _)
after_scan-ReadsPipes m not_yet p = p

module _ (host : Host) (crates : Crates) where
  url_loop-ReadsPipes :
      (fuel pid : ℕ) (written : Bytes) → ReadsPipes (url_loop host crates fuel pid written)
  unfolding url_loop
  url_loop-ReadsPipes zero pid written = Only-lift blocked
  url_loop-ReadsPipes (suc fuel) pid written =
      Only-match _ (Only-perform (stdout_read pid 30) (λ t. host.read_stdout t pid) tt)
        (λ chunk.
          after_scan-ReadsPipes _ (scan_output crates (written ++ chunk))
            (url_loop-ReadsPipes fuel pid (written ++ chunk)))
        (λ _. Only-lift (err _))

  report_stderr-ReadsPipes :
      (child : Child) (e : Error) → ReadsPipes (report_stderr host crates child e)
  unfolding report_stderr
  report_stderr-ReadsPipes child e =
      Only-if child.stderr _ _
        (Only-match _
          (Only-perform (stderr_read child.pid 300) (λ t. host.read_stderr t child.pid) tt)
          (λ bytes.
            Only-bind (unwrap (from_utf8 bytes)) (Only-unwrap (from_utf8 bytes))
              λ _. Only-lift (err e))
          (λ _. Only-lift panic))
        (Only-lift panic)

  pub read_tunnel_url-ReadsPipes :
      (c : SshConfig) (child : Child) → ReadsPipes (read_tunnel_url host crates c child)
  unfolding read_tunnel_url
  read_tunnel_url-ReadsPipes c child =
      Only-bind (fail_if (not child.stdout) system_command_execution_error) (Only-lift _) λ _.
        Only-match _
          (Only-timeout c.tunnel_setup_timeout_sec (err ssh_tunnel_url_setup_timeout)
            (url_loop host crates host.rounds child.pid []) tt
            (url_loop-ReadsPipes host.rounds child.pid []))
          (λ u. Only-pure u) (λ e. report_stderr-ReadsPipes child e)

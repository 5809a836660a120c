-- ===== src/Ssh/Ends.antt =====
-- The end of the set-up of a tunnel.
use telco_vecchio.Prelude.{ℕ, zero, suc, ◌≡◌, true, not, some, [], ◌++◌, nat_eq, list_eq}
use telco_vecchio.Text.{Text, Bytes}
use telco_vecchio.Text.Decimal.{ℤ}
use telco_vecchio.Config.{IpAddr, Configuration}
use telco_vecchio.Effects.{
  Error, err, from_io, system_command_execution_error, ssh_tunnel_url_setup_timeout, on_elapsed,
  Exec,
}
use telco_vecchio.Effects.Ends.{
  Ends, IsCalm, continue-Ends, settle-Ends, settle-IsCalm, fail_if-Ends, answer-Ends, answer-IsCalm,
  on_elapsed-Ends, drop_unless_ok-Ends,
}
use telco_vecchio.Effects.World.{
  World, Host, Crates, Child, done, answer, emit, spawned, stdout_read, held, timer, perform,
  fail_if, holding,
}
use telco_vecchio.Text.Utf8.{from_utf8}
use telco_vecchio.Effects.Keeps.{answer-done}
use telco_vecchio.Ssh.{
  Scan, url, service_error, unreadable, not_yet, scan_output, after_scan, url_loop, report_stderr,
  read_tunnel_url, setup_ssh_tunnel, ssh_line,
}
use telco_vecchio.Request.Outside.{ComesBack}

after_scan-IsCalm :
    (again : Exec World Text) (s : Scan) (w : World)
    → IsCalm (again w).0
    → IsCalm (after_scan again s w).0
unfolding after_scan
after_scan-IsCalm again (url u) w h = tt
after_scan-IsCalm again (service_error e) w h = tt
after_scan-IsCalm again unreadable w h = tt
after_scan-IsCalm again not_yet w h = h

module _ (host : Host) (crates : Crates) where
  url_loop-IsCalm :
      (fuel pid : ℕ) (written : Bytes) (w : World)
      → IsCalm (url_loop host crates fuel pid written w).0
  unfolding url_loop
  url_loop-IsCalm zero pid written w = tt
  url_loop-IsCalm (suc fuel) pid written w =
      let read = perform (stdout_read pid 30) (λ t. host.read_stdout t pid) w in
      settle-IsCalm read.0 _ _ read.1 (answer-IsCalm from_io (host.read_stdout w.trace pid) _)
        (λ chunk.
          after_scan-IsCalm _ (scan_output crates (written ++ chunk)) read.1
            (url_loop-IsCalm fuel pid (written ++ chunk) read.1))
        (λ _. tt)

module _ (host : Host) (crates : Crates) where
  report_stderr-Ends :
      (found : Child) (e : Error) (w : World) {bytes : Bytes} {s : Text}
      → found.stderr ≡ true
      → host.read_stderr w.trace found.pid ≡ done bytes
      → from_utf8 bytes ≡ some s
      → Ends (report_stderr host crates found e w).0
  unfolding report_stderr
  report_stderr-Ends found e w piped reads decodes = rw piped (rw reads (rw decodes tt))

  -- The set-up of a tunnel comes to an end.
  pub setup_ssh_tunnel-Ends :
      (c : Configuration) (output_host : IpAddr) (output_port : ℤ) (w : World)
      → ComesBack host crates c
      → Ends (setup_ssh_tunnel host crates c.ssh_config output_host output_port w).0
  unfolding setup_ssh_tunnel read_tunnel_url
  setup_ssh_tunnel-Ends c output_host output_port w back =
      let ssh = c.ssh_config in
      let line = ssh_line ssh output_host output_port in
      let begun = emit (spawned line) w in
      let started = answer {S = World} from_io (host.spawn w.trace line) begun in
      continue-Ends started.0 _ started.1
        (answer-Ends from_io (host.spawn w.trace line) begun (back.status.spawns w.trace line))
        λ found e.
          let kept = emit (held found.pid) started.1 in
          let error = system_command_execution_error in
          let reading = read_tunnel_url host crates ssh found kept in
          let reads : Ends reading.0 =
            continue-Ends (fail_if (not found.stdout) error kept).0 _ kept
              (fail_if-Ends (not found.stdout) error kept)
              λ _ _.
                let start = emit (timer ssh.tunnel_setup_timeout_sec) kept in
                let looped = url_loop host crates host.rounds found.pid [] start in
                let spawns = answer-done from_io (host.spawn w.trace line) begun e in
                settle-Ends (on_elapsed (err ssh_tunnel_url_setup_timeout) looped.0) _ _ looped.1
                  (on_elapsed-Ends ssh_tunnel_url_setup_timeout looped.0
                    (url_loop-IsCalm host crates host.rounds found.pid [] start))
                  (λ _. tt)
                  (λ problem.
                    let (piped, bytes, s, errors, decodes) =
                      back.ssh w.trace looped.1.trace output_host output_port spawns in
                    report_stderr-Ends found problem looped.1 {bytes = bytes} {s = s} piped errors
                      decodes) in
          let read = holding found.pid (read_tunnel_url host crates ssh found) kept in
          continue-Ends read.0 _ read.1 (drop_unless_ok-Ends found.pid reading reads) λ _ _. tt

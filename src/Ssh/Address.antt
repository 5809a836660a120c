-- ===== src/Ssh/Address.antt =====
-- Where the address of a tunnel comes from.
use telco_vecchio.Prelude.{
  ℕ, zero, suc, ◌≡◌, refl, ◌≢◌, ◌⊎◌, inl, inr, ◌∙◌, Bool-cases, not, List, [], ◌++◌, arith,
}
use telco_vecchio.Text.{Text, Bytes}
use telco_vecchio.Text.Utf8.{from_utf8}
use telco_vecchio.Text.Decimal.{ℤ}
use telco_vecchio.Config.{IpAddr, SshConfig}
use telco_vecchio.Effects.{
  Error, from_io, system_command_execution_error, ssh_tunnel_url_setup_timeout, Outcome, ok, err,
  Exec, on_elapsed,
}
use telco_vecchio.Effects.Keeps.{
  continue-ok, settle-ok, answer-settle, settle-then, on_elapsed-ok, answer-then, continue-then,
  drop_unless_ok-ok,
}
use telco_vecchio.Effects.World.{
  World, Host, Crates, Child, done, timer, spawned, held, stdout_read, stderr_read, perform, emit,
  fail_if, holding, unwrap,
}
use telco_vecchio.Ssh.{
  Scan, url, service_error, unreadable, not_yet, scan_output, after_scan, url_loop, report_stderr,
  read_tunnel_url, setup_ssh_tunnel, ssh_line,
}

after_scan-ok :
    (again : Exec World Text) (s : Scan) (w : World) {u : Text}
    → (after_scan again s w).0 ≡ ok u
    → ((s ≡ url u) × ((after_scan again s w).1 ≡ w))
      ⊎ ((s ≡ not_yet) × (after_scan again s w ≡ again w))
unfolding after_scan
after_scan-ok again (url u) w h = inl (ground arith, refl)
after_scan-ok again (service_error e) w h = cc
after_scan-ok again unreadable w h = cc
after_scan-ok again not_yet w h = inr (refl, refl)

result_of :
    {u v : Text} {p q : ℕ}
    → ◌≡◌ {A = Outcome (Text × ℕ)} (ok (u, p)) (ok (v, q))
    → (u ≡ v) × (p ≡ q)
result_of h = (cc, cc)

-- The process's standard output was read piece by piece, behind what was there before. The output up
-- to the last piece names the address, and none of the shorter ones says anything.
pub data Prints (host : Host) (crates : Crates) (pid : ℕ)
    : Bytes → World → Text → World → Type 0 where
  with_address :
      {written chunk : Bytes} {w : World} {u : Text}
      → host.read_stdout w.trace pid ≡ done chunk
      → scan_output crates (written ++ chunk) ≡ url u
      → Prints host crates pid written w u (emit (stdout_read pid 30) w)
  without_address :
      {written chunk : Bytes} {w v : World} {u : Text}
      → host.read_stdout w.trace pid ≡ done chunk
      → scan_output crates (written ++ chunk) ≡ not_yet
      → Prints host crates pid (written ++ chunk) (emit (stdout_read pid 30) w) u v
      → Prints host crates pid written w u v

-- The ssh process was started, came under the daemon's care, and printed the address before the
-- deadline; no more happened.
pub record Connects (host : Host) (crates : Crates) (c : SshConfig) (line : List Text) (pid : ℕ)
    (u : Text) (w v : World) : Type 0 where
  pub child : Child
  pub launched : host.spawn w.trace line ≡ done child
  pub is_process : child.pid ≡ pid
  pub printed :
      Prints host crates pid []
        (emit (timer c.tunnel_setup_timeout_sec) (emit (held pid) (emit (spawned line) w)))
        u
        v

module _ (host : Host) (crates : Crates) where
  url_loop-Prints :
      (fuel pid : ℕ) (written : Bytes) (w : World) {u : Text}
      → (url_loop host crates fuel pid written w).0 ≡ ok u
      → Prints host crates pid written w u (url_loop host crates fuel pid written w).1
  unfolding url_loop
  url_loop-Prints zero pid written w h = cc
  url_loop-Prints (suc fuel) pid written w {u} h =
      let C : World → Type 0 = λ v. Prints host crates pid written w u v in
      let read = emit (stdout_read pid 30) w in
      answer-settle C from_io (host.read_stdout w.trace pid) _ _ read h
        (λ chunk p h1.
          let again = url_loop host crates fuel pid (written ++ chunk) in
          elim (after_scan-ok again (scan_output crates (written ++ chunk)) read h1) [
            | inl (found, same) ↦ rw same (with_address p found)
            | inr (silent, same) ↦ rw same (
                without_address p silent
                  (url_loop-Prints fuel pid (written ++ chunk) read (rw same at h1)))
          ])
        (λ e h1. cc)

  report_stderr-misses :
      (child : Child) (e : Error) (w : World) {u : Text}
      → (report_stderr host crates child e w).0 ≢ ok u
  unfolding report_stderr
  report_stderr-misses child e w h = elim (Bool-cases child.stderr) [
    | inl piped ↦
        let read = perform (stderr_read child.pid 300) (λ t. host.read_stderr t child.pid) w in
        elim (settle-ok read.0 _ _ read.1 (rw piped at h)) [
          | inl (bytes, _, more) ↦
              let decoded = unwrap {S = World} (from_utf8 bytes) read.1 in
              let (_, _, last) = continue-ok decoded.0 _ decoded.1 more in cc
          | inr (_, _, more) ↦ cc
        ]
    | inr closed ↦ let crashed = rw closed at h in cc
  ]

  read_tunnel_url-Prints :
      (c : SshConfig) (child : Child) (w : World) {u : Text}
      → (read_tunnel_url host crates c child w).0 ≡ ok u
      → Prints host crates child.pid []
          (emit (timer c.tunnel_setup_timeout_sec) w)
          u
          (read_tunnel_url host crates c child w).1
  unfolding read_tunnel_url
  read_tunnel_url-Prints c child w {u} h =
      let start = emit (timer c.tunnel_setup_timeout_sec) w in
      let C : World → Type 0 = λ v. Prints host crates child.pid [] start u v in
      let checked = fail_if (not child.stdout) system_command_execution_error w in
      continue-then C checked.0 _ checked.1 h λ _ _ h1.
        let looped = url_loop host crates host.rounds child.pid [] start in
        settle-then C (on_elapsed (err ssh_tunnel_url_setup_timeout) looped.0) _ _ looped.1 h1
          (λ u' early same.
            url_loop-Prints host.rounds child.pid [] start
              (on_elapsed-ok ssh_tunnel_url_setup_timeout looped.0 (early ∙ same)))
          (λ e failed. absurd (report_stderr-misses child e looped.1 failed))

  -- The address of a tunnel that was set up is what the output of the ssh process names.
  pub setup_ssh_tunnel-Connects :
      (c : SshConfig) (output_host : IpAddr) (output_port : ℤ) (w : World) {u : Text} {pid : ℕ}
      → (setup_ssh_tunnel host crates c output_host output_port w).0 ≡ ok (u, pid)
      → Connects host crates c
          (ssh_line c output_host output_port)
          pid
          u
          w
          (setup_ssh_tunnel host crates c output_host output_port w).1
  unfolding setup_ssh_tunnel
  setup_ssh_tunnel-Connects c output_host output_port w {u} {pid} h =
      let line = ssh_line c output_host output_port in
      let C = Connects host crates c line pid u w in
      let launched = emit (spawned line) w in
      answer-then C from_io (host.spawn w.trace line) _ launched h λ child started h1.
        let reading = read_tunnel_url host crates c child in
        let kept = emit (held child.pid) launched in
        let read = holding child.pid reading kept in
        continue-then C read.0 _ read.1 h1 λ found e h2.
          let (same, same_pid) = result_of h2 in
          let (in_time, whole) = drop_unless_ok-ok child.pid (reading kept) e in
          record {
            child = child;
            launched = started;
            is_process = same_pid;
            printed = rw (← same_pid, ← same, whole) (read_tunnel_url-Prints c child kept in_time);
          }

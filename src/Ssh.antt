-- ===== src/Ssh.antt =====
-- Tunnels by the host's ssh command: daemon/src/ssh_utils.rs.
pub mod Effects
pub mod Hang
pub mod Address
pub mod Ends
use telco_vecchio.Prelude.{
  ℕ, zero, suc, ◌-◌, Bool, true, false, not, Option, none, some, List, [], ◌∷◌, ◌++◌, if◌then◌else◌,
  length, replicate,
}
use telco_vecchio.Text.{Text, Bytes, text, join}
use telco_vecchio.Text.Utf8.{from_utf8}
use telco_vecchio.Text.Decimal.{ℤ, show_ℤ}
use telco_vecchio.Config.{IpAddr, SshConfig}
use telco_vecchio.Effects.{
  Error, system_command_execution_error, ssh_tunnel_url_parsing_error, ssh_tunnel_url_setup_timeout,
  ssh_tunnel_service_error, Exec, err, blocked, pure, raise, crash, lift, ◌>>=◌, ◌>>◌, match_result,
}
use telco_vecchio.Effects.World.{
  World, Host, Crates, Child, spawned, held, stdout_read, stderr_read, perform, note, timeout,
  unwrap, fail_if, holding,
}

abbrev ssh_cloud_service_args : List Text
ssh_cloud_service_args = text "http" ∷ []

unfoldable pub ssh_line : SshConfig → IpAddr → ℤ → List Text
ssh_line config output_host output_port =
    config.binary_file
    ∷ text "-y"
    ∷ text "-i"
    ∷ config.key_file
    ∷ text "-R"
    ∷ (show_ℤ config.tunnel_input_port
        ++ (text ":" ++ (output_host ++ (text ":" ++ show_ℤ output_port))))
    ∷ (config.service_user ++ (text "@" ++ config.service_host))
    ∷ join (text " ") ssh_cloud_service_args
    ∷ []

-- What the service's output so far says.
pub data Scan : Type 0 where
  url : Text → Scan
  service_error : Text → Scan
  unreadable : Scan
  not_yet : Scan

-- The cursor's buffer: what was written, and zeros up to 300 bytes.
abbrev cursor_content : Bytes → Bytes
cursor_content written = written ++ replicate (300 - length written) 0

module _ (crates : Crates) where
  -- a success is looked for first
  abbrev scan_captures : Option Text → Option Text → Scan
  scan_captures (some u) e = url u
  scan_captures none (some e) = service_error e
  scan_captures none none = not_yet

  abbrev scan_text : Option Text → Scan
  scan_text none = unreadable
  scan_text (some s) =
      scan_captures (crates.capture (text "Forwarding  (.+)\\n") s)
        (crates.capture (text "(ERR_[a-zA-Z0-9_]+)") s)

  unfoldable pub scan_output : Bytes → Scan
  scan_output written = scan_text (from_utf8 (cursor_content written))

-- the loop's end, or its next round
unfoldable pub after_scan : Exec World Text → Scan → Exec World Text
after_scan again (url u) = pure u
after_scan again (service_error e) = raise (ssh_tunnel_service_error e)
after_scan again unreadable = raise ssh_tunnel_url_parsing_error
after_scan again not_yet = again

module _ (host : Host) (crates : Crates) where
  unfoldable pub url_loop : ℕ → ℕ → Bytes → Exec World Text
  url_loop zero pid written = lift blocked
  url_loop (suc fuel) pid written =
      match_result (perform (stdout_read pid 30) (λ t. host.read_stdout t pid))
        (λ chunk.
          after_scan (url_loop fuel pid (written ++ chunk)) (scan_output crates (written ++ chunk)))
        (λ _. raise system_command_execution_error)

  -- After an error the child's stderr is read once, for the log, with no deadline.
  unfoldable pub report_stderr : Child → Error → Exec World Text
  report_stderr child e =
      if child.stderr
      then match_result (perform (stderr_read child.pid 300) (λ t. host.read_stderr t child.pid))
          (λ bytes. unwrap (from_utf8 bytes) >> raise e) (λ _. crash)
      else crash

  unfoldable pub read_tunnel_url : SshConfig → Child → Exec World Text
  read_tunnel_url config child = do
    fail_if (not child.stdout) system_command_execution_error
    match_result
        (timeout config.tunnel_setup_timeout_sec (err ssh_tunnel_url_setup_timeout)
          (url_loop host.rounds child.pid []))
        pure (report_stderr child)

  -- The process is killed when it is dropped, at every end but the last line.
  unfoldable pub setup_ssh_tunnel : SshConfig → IpAddr → ℤ → Exec World (Text × ℕ)
  setup_ssh_tunnel config output_host output_port = do
    child ←
        perform (spawned (ssh_line config output_host output_port))
          (λ t. host.spawn t (ssh_line config output_host output_port))
    note (held child.pid)
    tunnel_url ← holding child.pid (read_tunnel_url config child)
    pure (tunnel_url, child.pid)

-- ===== src/Email/Ends.antt =====
-- The end of the sending of a mail.
use telco_vecchio.Prelude.{not, nat_eq, list_eq}
use telco_vecchio.Text.Utf8.{from_utf8}
use telco_vecchio.Config.{EmailConfig}
use telco_vecchio.Effects.{from_io, io_error, system_command_execution_error}
use telco_vecchio.Effects.Ends.{
  Ends, IsCalm, continue-IsCalm, ok_or-IsCalm, fail_if-IsCalm, answer-IsCalm, on_elapsed-Ends,
}
use telco_vecchio.Effects.World.{
  World, Host, emit, spawned, stdin_written, waited, stderr_read, timer, perform, fail_if, ok_or,
}
use telco_vecchio.Email.{
  OutgoingEmail, send_email, email_body, email_line, email_content, invalid_utf8,
}

module _ (host : Host) where
  email_body-IsCalm :
      (c : EmailConfig) (email : OutgoingEmail) (w : World) → IsCalm (email_body host c email w).0
  unfolding email_body
  email_body-IsCalm c email w =
      let error = system_command_execution_error in
      let launched =
        perform (spawned (email_line c email)) (λ t. host.spawn t (email_line c email)) w in
      continue-IsCalm launched.0 _ launched.1
        (answer-IsCalm from_io (host.spawn w.trace (email_line c email)) _)
        λ found.
          let v = launched.1 in
          continue-IsCalm (fail_if (not found.stdin) error v).0 _ v
            (fail_if-IsCalm (not found.stdin) error v)
            λ _.
              continue-IsCalm (fail_if (not found.stderr) error v).0 _ v
                (fail_if-IsCalm (not found.stderr) error v)
                λ _.
                  let fed =
                    perform (stdin_written found.pid (email_content email))
                      (λ t. host.write_stdin t found.pid) v in
                  continue-IsCalm fed.0 _ fed.1
                    (answer-IsCalm from_io (host.write_stdin v.trace found.pid) _)
                    λ _.
                      let ended =
                        perform (waited found.pid) (λ t. host.wait_with_output t found.pid) fed.1 in
                      continue-IsCalm ended.0 _ ended.1
                        (answer-IsCalm from_io (host.wait_with_output fed.1.trace found.pid) _)
                        λ output.
                          let told =
                            perform (stderr_read found.pid 0) (λ t. host.read_stderr t found.pid)
                              ended.1 in
                          continue-IsCalm told.0 _ told.1
                            (answer-IsCalm from_io (host.read_stderr ended.1.trace found.pid) _)
                            λ bytes.
                              let decoded =
                                ok_or {S = World} (io_error invalid_utf8) (from_utf8 bytes)
                                  told.1 in
                              continue-IsCalm decoded.0 _ decoded.1
                                (ok_or-IsCalm (io_error invalid_utf8) (from_utf8 bytes) told.1)
                                λ _. fail_if-IsCalm (not output.success) error decoded.1

  -- The deadline ends the sending of a mail.
  pub send_email-Ends :
      (c : EmailConfig) (email : OutgoingEmail) (w : World) → Ends (send_email host c email w).0
  unfolding send_email
  send_email-Ends c email w =
      on_elapsed-Ends system_command_execution_error _
        (email_body-IsCalm c email (emit (timer c.email_send_timeout_sec) w))

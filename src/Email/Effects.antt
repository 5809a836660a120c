-- ===== src/Email/Effects.antt =====
-- What the sending of a mail does to the world: it runs one child process, under a timer.
use telco_vecchio.Prelude.{not}
use telco_vecchio.Text.Utf8.{from_utf8}
use telco_vecchio.Config.{EmailConfig}
use telco_vecchio.Effects.{system_command_execution_error, io_error, err, Exec}
use telco_vecchio.Effects.World.{
  Effect, timer, spawned, stdin_written, waited, stderr_read, World, Host, Child, Output, fail_if,
  ok_or,
}
use telco_vecchio.Effects.Only.{Only, Only-lift, Only-perform, Only-ok_or, Only-timeout, Only-bind}
use telco_vecchio.Email.{
  OutgoingEmail, email_body, send_email, email_line, email_content, invalid_utf8,
}

abbrev pub IsMailing : Effect → Type 0
IsMailing (timer n) = Unit
IsMailing (spawned line) = Unit
IsMailing (stdin_written pid s) = Unit
IsMailing (waited pid) = Unit
IsMailing (stderr_read pid n) = Unit
IsMailing _ = ⊥

abbrev Mails : {A : Type 0} → Exec World A → Type 0
Mails = Only IsMailing

module _ (host : Host) where
  email_body-Mails : (c : EmailConfig) (email : OutgoingEmail) → Mails (email_body host c email)
  unfolding email_body
  email_body-Mails c email =
      Only-bind _
        (Only-perform (spawned (email_line c email)) (λ t. host.spawn t (email_line c email)) tt)
        λ (child : Child). Only-bind (fail_if (not child.stdin) _) (Only-lift _) λ _.
          Only-bind (fail_if (not child.stderr) _) (Only-lift _) λ _.
            Only-bind _
              (Only-perform (stdin_written child.pid (email_content email))
                (λ t. host.write_stdin t child.pid) tt)
              λ _.
                Only-bind _
                  (Only-perform (waited child.pid) (λ t. host.wait_with_output t child.pid) tt)
                  λ (output : Output).
                    Only-bind _
                      (Only-perform (stderr_read child.pid 0) (λ t. host.read_stderr t child.pid)
                        tt)
                      λ bytes.
                        Only-bind (ok_or (io_error invalid_utf8) (from_utf8 bytes))
                          (Only-ok_or (io_error invalid_utf8) (from_utf8 bytes)) λ _. Only-lift _

  pub send_email-Mails : (c : EmailConfig) (email : OutgoingEmail) → Mails (send_email host c email)
  unfolding send_email
  send_email-Mails c email =
      Only-timeout c.email_send_timeout_sec (err system_command_execution_error)
        (email_body host c email) tt (email_body-Mails c email)

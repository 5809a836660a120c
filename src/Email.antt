-- ===== src/Email.antt =====
-- Mails by the host's sendmail command: daemon/src/email_utils.rs.
pub mod Effects
pub mod Delivered
pub mod Ends
use telco_vecchio.Prelude.{ℕ, not, List, [], ◌∷◌, ◌++◌, if◌then◌else◌}
use telco_vecchio.Text.{Text, text}
use telco_vecchio.Text.Utf8.{from_utf8}
use telco_vecchio.Config.{EmailConfig}
use telco_vecchio.Effects.{io_error, system_command_execution_error, Exec, err, pure, ◌>>=◌, ◌>>◌}
use telco_vecchio.Effects.World.{
  World, Host, spawned, stdin_written, waited, stderr_read, perform, timeout, ok_or, fail_if,
}

pub record OutgoingEmail : Type 0 where
  pub to : Text
  pub title : Text
  pub msg : Text

abbrev pub email_content : OutgoingEmail → Text
email_content email = text "Subject: " ++ (email.title ++ (text "\n\n" ++ email.msg))

abbrev pub email_line : EmailConfig → OutgoingEmail → List Text
email_line config email =
    config.binary_file ∷ text "-v" ∷ email.to ∷ text "-F" ∷ config.sender_alias ∷ []

-- the error of `read_to_string` on bytes that are no UTF-8
abbrev pub invalid_utf8 : Text
invalid_utf8 = text "Error { kind: InvalidData, message: \"stream did not contain valid UTF-8\" }"

-- The content is offered in one `write`, and how much of it was taken is not looked at.
module _ (host : Host) where
  unfoldable pub email_body : EmailConfig → OutgoingEmail → Exec World (Unit {0})
  email_body config email = do
    child ←
        perform (spawned (email_line config email)) (λ t. host.spawn t (email_line config email))
    fail_if (not child.stdin) system_command_execution_error
    fail_if (not child.stderr) system_command_execution_error
    perform (stdin_written child.pid (email_content email)) (λ t. host.write_stdin t child.pid)
    output ← perform (waited child.pid) (λ t. host.wait_with_output t child.pid)
    bytes ← perform (stderr_read child.pid 0) (λ t. host.read_stderr t child.pid)
    ok_or (io_error invalid_utf8) (from_utf8 bytes)
    fail_if (not output.success) system_command_execution_error

  unfoldable pub send_email : EmailConfig → OutgoingEmail → Exec World (Unit {0})
  send_email config email =
      timeout config.email_send_timeout_sec (err system_command_execution_error)
        (email_body config email)

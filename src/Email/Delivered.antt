-- ===== src/Email/Delivered.antt =====
-- What a mail that was sent did to the world.
use telco_vecchio.Prelude.{ℕ, ◌≡◌, true, not, ◌∷◌}
use telco_vecchio.Text.Utf8.{from_utf8}
use telco_vecchio.Config.{EmailConfig}
use telco_vecchio.Effects.{io_error, from_io, system_command_execution_error, ok}
use telco_vecchio.Effects.Keeps.{on_elapsed-ok, ok_or-state, fail_if-ok, answer-then, continue-then}
use telco_vecchio.Effects.World.{
  timer, spawned, stdin_written, waited, stderr_read, World, Host, Child, Output, done, fail_if,
  ok_or, emit,
}
use telco_vecchio.Email.{
  OutgoingEmail, email_body, send_email, email_line, email_content, invalid_utf8,
}

-- The command for the mail was started, was offered the mail on its standard input in one write, of
-- which it took so many bytes, ended with success, and had its error output read; no more happened.
pub record Mails (host : Host) (c : EmailConfig) (email : OutgoingEmail) (w v : World)
    : Type 0 where
  pub child : Child
  pub taken : ℕ
  pub output : Output
  pub launched : host.spawn w.trace (email_line c email) ≡ done child
  pub fed : host.write_stdin (spawned (email_line c email) ∷ w.trace) child.pid ≡ done taken
  pub ended :
      host.wait_with_output
        (stdin_written child.pid (email_content email) ∷ spawned (email_line c email) ∷ w.trace)
        child.pid
      ≡ done output
  pub well : output.success ≡ true
  pub end :
      v
      ≡ emit (stderr_read child.pid 0) (
          emit (waited child.pid) (
            emit
              (stdin_written child.pid (email_content email))
              (emit (spawned (email_line c email)) w)))

-- The same under the timer of a mail.
abbrev pub IsMailed : Host → EmailConfig → OutgoingEmail → World → World → Type 0
IsMailed host c email w v = Mails host c email (emit (timer c.email_send_timeout_sec) w) v

module _ (host : Host) where
  email_body-Mails :
      (c : EmailConfig) (email : OutgoingEmail) (w : World) {u : Unit {0}}
      → (email_body host c email w).0 ≡ ok u
      → Mails host c email w (email_body host c email w).1
  unfolding email_body
  email_body-Mails c email w h =
      let C = Mails host c email w in
      let launched = emit (spawned (email_line c email)) w in
      answer-then C from_io (host.spawn w.trace (email_line c email)) _ launched h λ child p1 h1.
        let e = system_command_execution_error in
        continue-then C (fail_if (not child.stdin) e launched).0 _ launched h1 λ _ _ h2.
          continue-then C (fail_if (not child.stderr) e launched).0 _ launched h2 λ _ _ h3.
            let fed = emit (stdin_written child.pid (email_content email)) launched in
            answer-then C from_io (host.write_stdin launched.trace child.pid) _ fed h3
              λ taken p2 h4.
                let ended = emit (waited child.pid) fed in
                answer-then C from_io (host.wait_with_output fed.trace child.pid) _ ended h4
                  λ output p3 h5.
                    let told = emit (stderr_read child.pid 0) ended in
                    answer-then C from_io (host.read_stderr ended.trace child.pid) _ told h5
                      λ bytes _ h6.
                        let decoded =
                          ok_or {S = World} (io_error invalid_utf8) (from_utf8 bytes) told in
                        continue-then C decoded.0 _ decoded.1 h6 λ _ _ h7. record {
                          child = child;
                          taken = taken;
                          output = output;
                          launched = p1;
                          fed = p2;
                          ended = p3;
                          well = fail_if-ok output.success e decoded.1 h7;
                          end = ok_or-state (io_error invalid_utf8) (from_utf8 bytes) told;
                        }

  -- A mail that is sent with success was given to the command for its receiver, which ended well.
  pub send_email-IsMailed :
      (c : EmailConfig) (email : OutgoingEmail) (w : World) {u : Unit {0}}
      → (send_email host c email w).0 ≡ ok u
      → IsMailed host c email w (send_email host c email w).1
  unfolding send_email
  send_email-IsMailed c email w h =
      let start = emit (timer c.email_send_timeout_sec) w in
      email_body-Mails c email start
        (on_elapsed-ok system_command_execution_error (email_body host c email start).0 h)

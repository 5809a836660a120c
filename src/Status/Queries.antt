-- ===== src/Status/Queries.antt =====
-- What the modem's command said.
use telco_vecchio.Prelude.{◌≡◌, refl, true, not, some, List, ◌∷◌}
use telco_vecchio.Text.{Text}
use telco_vecchio.Text.Utf8.{from_utf8}
use telco_vecchio.Effects.{from_io, system_command_execution_error, ok}
use telco_vecchio.Effects.Keeps.{answer-ok, continue-ok, ok_or-some, fail_if-ok}
use telco_vecchio.Effects.World.{
  Trace, World, Host, Child, Output, done, spawned, waited, emit, fail_if,
}
use telco_vecchio.Status.Qmi.{QmiProvider, qmi_line, qmi_command}

-- Started after `t`, the command came to an end with success and had printed this text.
pub record Says (host : Host) (line : List Text) (t : Trace) (said : Text) : Type 0 where
  pub child : Child
  pub output : Output
  pub launched : host.spawn t line ≡ done child
  pub ended : host.wait_with_output (spawned line ∷ t) child.pid ≡ done output
  pub well : output.success ≡ true
  pub decodes : from_utf8 output.stdout ≡ some said

module _ (host : Host) where
  pub qmi_command_sound :
      (q : QmiProvider) (command : Text) (args : List Text) (w : World) {said : Text}
      → (qmi_command host q command args w).0 ≡ ok said
      → Says host (qmi_line q command args) w.trace said
  unfolding qmi_command
  qmi_command_sound q command args w h =
      let line = qmi_line q command args in
      let e = system_command_execution_error in
      let begun = emit (spawned line) w in
      let (child, launched, h1) = answer-ok from_io (host.spawn w.trace line) _ begun h in
      let over = emit (waited child.pid) begun in
      let (output, ended, h2) =
        answer-ok from_io (host.wait_with_output begun.trace child.pid) _ over h1 in
      let (_, well, h3) = continue-ok (fail_if (not output.success) e over).0 _ over h2 in
      record {
        child = child;
        output = output;
        launched = launched;
        ended = ended;
        well = fail_if-ok output.success e over well;
        decodes = ok_or-some e (from_utf8 output.stdout) over h3;
      }

  pub qmi_command_complete :
      (q : QmiProvider) (command : Text) (args : List Text) (w : World) {said : Text}
      → Says host (qmi_line q command args) w.trace said
      → (qmi_command host q command args w).0 ≡ ok said
  unfolding qmi_command
  qmi_command_complete q command args w says =
      rw says.launched (rw says.ended (rw says.well (rw says.decodes refl)))

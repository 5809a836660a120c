-- ===== src/Sms/Effects/Written.antt =====
-- What a message that was sent has put on the serial port.
use telco_vecchio.Prelude.{◌≡◌, ◌≢◌, refl, ap, ◌∙◌, List, [], ◌∷◌}
use telco_vecchio.Text.{Text, len}
use telco_vecchio.Text.Utf8.{from_utf8}
use telco_vecchio.Effects.{
  Error, from_io, Outcome, ok, err, panic, blocked, pure, raise, settle, map_err,
}
use telco_vecchio.Effects.Keeps.{continue-then, answer-state}
use telco_vecchio.Effects.World.{
  Effect, port_written, port_read, Trace, World, Host, perform, ok_or, emit,
}
use telco_vecchio.Effects.Only.{Only-perform, Only-ok_or}
use telco_vecchio.Effects.Gathered.{gathered, Only-gathered}
use telco_vecchio.Sms.Message.{invalid_data}
use telco_vecchio.Sms.Modem.{echo_loop, send_command, at_transaction, expect}
use telco_vecchio.Sms.Effects.{echo_loop-Only}

abbrev pub written : Effect → List Text
written (port_written s) = s ∷ []
written _ = []

-- What was written to the port, the latest first.
abbrev pub writes : Trace → List Text
writes = gathered written

-- A success under another name for the errors is one without.
map_err-then :
    {A : Type 0} (C : World → Type 0) (e : Error) (r : Outcome A) (w : World) {a : A}
    → (settle {B = A} r pure (λ _. raise e) w).0 ≡ ok a
    → (r ≡ ok a → C w)
    → C (settle {B = A} r pure (λ _. raise e) w).1
map_err-then C e (ok b) w h k = k h
map_err-then C e (err x) w h k = cc
map_err-then C e panic w h k = cc
map_err-then C e blocked w h k = cc

-- A text was written since.
abbrev Has : Text → World → World → Type 0
Has s w v = writes v.trace ≡ s ∷ writes w.trace

module _ (host : Host) where
  send_command-writes :
      (command : Text) (w : World) {u : Unit {0}}
      → command ≢ []
      → (send_command host command w).0 ≡ ok u
      → writes (send_command host command w).1.trace ≡ command ∷ writes w.trace
  unfolding send_command
  send_command-writes [] w ne h = absurd (ne refl)
  send_command-writes (c ∷ s) w ne h =
      let before = perform (port_written (c ∷ s)) host.write_port w in
      continue-then (Has (c ∷ s) w) before.0 _ before.1 h λ _ _ _.
        Only-gathered written (echo_loop host host.rounds (len (c ∷ s))) before.1
          (echo_loop-Only host (λ n. refl) host.rounds _)
        ∙ ap (λ (v : World). writes v.trace)
            (answer-state from_io (host.write_port w.trace) (emit (port_written (c ∷ s)) w))

  at_transaction-writes :
      (command : Text) (w : World) {answer : Text}
      → command ≢ []
      → (at_transaction host command w).0 ≡ ok answer
      → writes (at_transaction host command w).1.trace ≡ command ∷ writes w.trace
  unfolding at_transaction
  at_transaction-writes command w ne h =
      let sent = send_command host command w in
      continue-then (Has command w) sent.0 _ sent.1 h λ _ e more.
        let read = perform (port_read 128) host.read_port sent.1 in
        continue-then (Has command w) read.0 _ read.1 more λ bytes _ _.
          Only-gathered written (ok_or invalid_data (from_utf8 bytes)) read.1
            (Only-ok_or invalid_data (from_utf8 bytes))
          ∙ (Only-gathered written (perform (port_read 128) host.read_port) sent.1
                (Only-perform (port_read 128) host.read_port refl)
              ∙ send_command-writes command w ne e)

  pub expect-writes :
      (e : Error) (command word : Text) (w : World) {u : Unit {0}}
      → command ≢ []
      → (expect host e command word w).0 ≡ ok u
      → writes (expect host e command word w).1.trace ≡ command ∷ writes w.trace
  unfolding expect
  expect-writes e command word w ne h =
      let talked = at_transaction host command w in
      let answered = map_err e (at_transaction host command) w in
      continue-then (Has command w) answered.0 _ answered.1 h λ _ x _.
        map_err-then (Has command w) e talked.0 talked.1 x λ y. at_transaction-writes command w ne y

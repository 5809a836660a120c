-- ===== src/Sms/Echo.antt =====
-- The end of an exchange of a command and its answer.
use telco_vecchio.Prelude.{
  ℕ, zero, suc, ◌-◌, ◌≤◌, ◌≡◌, ◌⊎◌, inl, inr, refl, Option-cases, [], ◌∷◌, arith, length,
}
use telco_vecchio.Text.{Text, Bytes, len, length-le-len}
use telco_vecchio.Text.Utf8.{from_utf8}
use telco_vecchio.Effects.{ok, err, Exec, pure}
use telco_vecchio.Effects.World.{Trace, World, Host, done, port_read, port_written, emit}
use telco_vecchio.Sms.Message.{invalid_data}
use telco_vecchio.Sms.Modem.{after_read, echo_loop, send_command, at_transaction}

-- Every write is taken, and every read gives some bytes.
pub record Talks (host : Host) : Type 0 where
  pub takes : (t : Trace) → host.write_port t ≡ done tt
  pub first : Trace → ℕ
  pub others : Trace → Bytes
  pub gives : (t : Trace) → host.read_port t ≡ done (first t ∷ others t)

after_read-ok :
    (again : ℕ → Exec World (Unit {0})) (left : ℕ) (bytes : Bytes) (w : World)
    → ((n : ℕ) → suc n ≤ left - length bytes → (again (suc n) w).0 ≡ ok tt)
    → (after_read again left bytes w).0 ≡ ok tt
unfolding after_read
after_read-ok again left bytes w h =
    elim (left - length bytes)
        as (λ k.
          ((n : ℕ) → suc n ≤ k → (again (suc n) w).0 ≡ ok tt)
          → (elim k as (λ _. Exec World (Unit {0})) [ zero ↦ pure tt | suc n ↦ again (suc n) ] w).0
            ≡ ok tt) [ zero ↦ λ _. refl | suc n ↦ λ k. k n (omega arith) ]
      h

module _ (host : Host) (talks : Talks host) where
  -- As many reads as there are bytes to come back are enough.
  echo_loop-ok :
      (fuel left : ℕ) (w : World) → 1 ≤ fuel → left ≤ fuel → (echo_loop host fuel left w).0 ≡ ok tt
  unfolding echo_loop
  echo_loop-ok zero left w some_fuel h = absurd (omega (arith, some_fuel))
  echo_loop-ok (suc fuel) left w some_fuel h = rw (talks.gives w.trace) (
      after_read-ok (echo_loop host fuel) left _ (emit (port_read left) w)
        λ n le. echo_loop-ok fuel (suc n) _ (omega (arith, le)) (omega (arith, le)))

  send_command-ok :
      (command : Text) (w : World)
      → len command ≤ host.rounds
      → (send_command host command w).0 ≡ ok tt
  unfolding send_command
  send_command-ok [] w h = refl
  send_command-ok (c ∷ s) w h = rw (talks.takes w.trace) (
      echo_loop-ok host.rounds (len (c ∷ s)) (emit (port_written (c ∷ s)) w)
        (omega (arith, length-le-len (c ∷ s))) h)

  -- If the port takes every write and each read of it brings at least one byte, as many reads as the
  -- command has bytes are enough for its echo: the exchange comes to an end, with the answer or,
  -- where that is not UTF-8, with an error.
  pub at_transaction_returns :
      (command : Text) (w : World)
      → len command ≤ host.rounds
      → ((answer : Text) × ((at_transaction host command w).0 ≡ ok answer))
        ⊎ ((at_transaction host command w).0 ≡ err invalid_data)
  unfolding at_transaction
  at_transaction_returns command w h = rw (send_command-ok command w h) (
      let sent = (send_command host command w).1 in
      rw (talks.gives sent.trace)
        (elim (Option-cases (from_utf8 (talks.first sent.trace ∷ talks.others sent.trace))) [
          | inl garbled ↦ rw garbled (inr refl)
          | inr (answer, decoded) ↦ rw decoded (inl (answer, refl))
        ]))

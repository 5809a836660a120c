-- ===== src/Init/Register.antt =====
-- The register file: who is to be told, after the next start, that the router is up again.
use telco_vecchio.Prelude.{Option, none, some, [], ◌==◌, nat_eq, list_eq, find}
use telco_vecchio.Text.{Text, slice_to}
use telco_vecchio.Config.{User, Configuration}
use telco_vecchio.Effects.{ok, Exec, pure, ◌>>=◌, ◌>>◌, match_result}
use telco_vecchio.Effects.World.{
  World, Register, absent, holds, garbled, Host, register_opened, register_written, register_read,
  register_removed, perform,
}

abbrev pub put_register : Register → Exec World (Unit {0})
put_register r w = (ok tt, record w { register = r })

-- The content after a write of some bytes; a cut character is no UTF-8.
unfoldable pub written_prefix : Option Text → Register
written_prefix none = garbled
written_prefix (some t) = holds t

module _ (host : Host) where
  -- `truncate(true)` empties the file when it is opened; errors are only logged.
  unfoldable pub register_init_listener : User → Exec World (Unit {0})
  register_init_listener user =
      match_result (perform register_opened host.open_register)
        (λ _.
          put_register (holds [])
          >> match_result (perform register_written host.write_register)
              (λ n. put_register (written_prefix (slice_to n user.name))) (λ _. pure tt))
        (λ _. pure tt)

  -- the user whose name the file holds
  unfoldable pub registered_user : Configuration → Register → Option User
  registered_user c absent = none
  registered_user c garbled = none
  registered_user c (holds content) = find (λ u. u.name == content) c.users

  unfoldable pub read_register : Configuration → Exec World (Option User)
  read_register c w =
      match_result (perform register_opened host.open_register)
        (λ _.
          match_result (perform register_read host.read_register)
            (λ _ w'. (ok (registered_user c w'.register), w')) (λ _. pure none))
        (λ _. pure none) w

  unfoldable pub remove_register : Exec World (Unit {0})
  remove_register =
      match_result (perform register_removed host.remove_register) (λ _. put_register absent)
        (λ _. pure tt)

  unfoldable pub lookup_existing : Configuration → Exec World (Option User)
  lookup_existing c = do user ← read_register c; remove_register; pure user

  unfoldable pub when_exists : Configuration → Register → Exec World (Option User)
  when_exists c absent = pure none
  when_exists c (holds content) = lookup_existing c
  when_exists c garbled = lookup_existing c

  unfoldable pub lookup_init_listener : Configuration → Exec World (Option User)
  lookup_init_listener c w = when_exists c w.register w

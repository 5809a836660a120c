-- ===== src/Request/Fits.antt =====
-- The answer to `status` against the size of a message.
use telco_vecchio.Prelude.{◌+◌, ◌≤◌, ◌≡◌}
use telco_vecchio.Text.{Text, len}
use telco_vecchio.Effects.{ok}
use telco_vecchio.Effects.Keeps.{continue-ok}
use telco_vecchio.Effects.World.{Host, Crates}
use telco_vecchio.Status.Resolve.{get_status}
use telco_vecchio.Status.Size.{names_size, show_status-size}
use telco_vecchio.Context.{State, act}
use telco_vecchio.Request.Handle.{status_request}

ok_result : {a b : Text} → ok a ≡ ok b → a ≡ b
ok_result h = cc

-- The answer to a `status` request has at most 81 bytes, and for each configured application its name's
-- bytes and 7 more.
pub status_request-size :
    (host : Host) (crates : Crates) (s : State) {answer : Text}
    → (status_request host crates s).0 ≡ ok answer
    → len answer ≤ 81 + names_size s.context.configuration.applications
unfolding status_request
status_request-size host crates s {answer} h =
    let status = act (get_status host crates s.context.configuration) s in
    let (new, found, h1) = continue-ok status.0 _ status.1 h in
    rw (← ok_result h1)
      (show_status-size host crates s.context.configuration s.world {s = new} found)

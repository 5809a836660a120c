-- ===== src/Request.antt =====
-- What an allowed user can ask for: daemon/src/request.rs.
pub mod Message
pub mod Open
pub mod Close
pub mod Handle
pub mod Keeps
pub mod Processes
pub mod Balance
pub mod RoundTrip
pub mod Scope
pub mod Reuse
pub mod Words
pub mod Delivery
pub mod Fits
pub mod Outside
pub mod Ends
use telco_vecchio.Prelude.{
  [], ◌∷◌, List, map, if◌then◌else◌, ◌==◌, nat_eq, list_eq, eq_list, ◌≡◌, refl,
}
use telco_vecchio.Text.{Text, text, lower}

pub data Command : Type 0 where
  open_tunnel close_tunnel resolve_status reboot shutdown unknown : Command

-- `match command.to_lowercase().as_str()`
unfoldable pub command_of : Text → Command
unfolding lower
command_of word =
    let command = map lower word in
    if command == text "open"
    then open_tunnel
    else if command == text "close"
    then close_tunnel
    else if command == text "status"
    then resolve_status
    else if command == text "reboot"
    then reboot
    else if command == text "shutdown"
    then shutdown
    else unknown

upper_case : command_of (text "Status") ≡ resolve_status
unfolding command_of eq_list
upper_case = refl

-- ===== src/Request/Message.antt =====
-- The texts of the answers and of the errors.
use telco_vecchio.Prelude.{ℕ, ◌++◌, Option, none, some}
use telco_vecchio.Text.{Text, text}
use telco_vecchio.Text.Decimal.{show}
use telco_vecchio.Context.{Tunnel}
use telco_vecchio.Config.{User, Application}
use telco_vecchio.Status.{DeviceStatus}
use telco_vecchio.Status.Display.{show_device}

unfoldable pub no_command : Text → Text
no_command request = text "Cannot read command from request: " ++ request

unfoldable pub no_application : Text → Text
no_application request = text "No application specified: " ++ request

unfoldable pub device_not_ready : DeviceStatus → Text
unfolding show_device
device_not_ready d = text "Device is not ready - current state is " ++ show_device d

unfoldable pub email_unreachable : Text
email_unreachable = text "Email service is not reachable"

unfoldable pub ssh_unreachable : Text
ssh_unreachable = text "SSH tunnel service is not reachable"

unfoldable pub unknown_application : Text → Text
unknown_application name = text "Unknown application: " ++ name

-- The source prints the state of the device here.
unfoldable pub application_unreachable : DeviceStatus → Text
unfolding show_device
application_unreachable d = text "Application " ++ (show_device d ++ text " is not reachable")

last_open : Option Tunnel → Text
last_open none = text ""
last_open (some t) = text " - last tunnel open by " ++ t.user

unfoldable pub too_many_tunnels : Option Tunnel → Text
unfolding last_open
too_many_tunnels t = text "The maximum tunnel number allowed is reached" ++ last_open t

unfoldable pub already_open : ℕ → Text
unfolding show
already_open id = text "A tunnel is already open for this application: " ++ show id

unfoldable pub tunnel_open : ℕ → Text
unfolding show
tunnel_open id =
    text "Tunnel has been setup, reference is: "
    ++ (show id ++ text "\nAccess url has been send to you by mail")

unfoldable pub url_mail : User → Application → Text → Text
url_mail user app url =
    text "Hello "
    ++ (user.name
        ++ (text " !\nHere is the url to access to "
            ++ (app.name ++ (text ":\n\n" ++ (url ++ text "\n\nHave a nice day!")))))

unfoldable pub bad_reference : Text → Text
bad_reference s = text "Invalid tunnel reference: " ++ s

unfoldable pub no_open_tunnel : Text
no_open_tunnel = text "No open tunnel"

unfoldable pub unknown_reference : ℕ → Text
unfolding show
unknown_reference id = text "Unknown tunnel reference: " ++ show id

unfoldable pub one_closed : Text
one_closed = text "Tunnel has been closed"

unfoldable pub many_closed : Text
many_closed = text "Tunnels have been closed"

unfoldable pub rebooting : Text
rebooting = text "Rebooting..."

unfoldable pub shutting_down : Text
shutting_down = text "Shutting down..."

unfoldable pub unknown_command : Text → Text
unknown_command word = text "Unknown command: " ++ word

-- ===== src/Examples/Requests.antt =====
-- The requests of the users.
use telco_vecchio.Prelude.{◌≡◌, ◌↔◌, refl, some, [], ◌∷◌, arith, length, eq_list, nat_eq, list_eq}
use telco_vecchio.Prelude.Map.{lookup, erase, HasUniqueKeys}
use telco_vecchio.Text.{text}
use telco_vecchio.Text.Utf8.{from_utf8}
use telco_vecchio.Text.Decimal.{show}
use telco_vecchio.Effects.{ok}
use telco_vecchio.Effects.World.{dropped}
use telco_vecchio.Email.{email_body, send_email}
use telco_vecchio.Ssh.{scan_output, after_scan, url_loop, read_tunnel_url, setup_ssh_tunnel}
use telco_vecchio.Context.{Tunnel, insert_tunnel}
use telco_vecchio.Request.Message.{tunnel_open, one_closed}
use telco_vecchio.Request.Open.{check_open, start_tunnel, record_tunnel, open_request, new_id}
use telco_vecchio.Request.Open.Parts.{MayOpen, check_open_iff}
use telco_vecchio.Request.Close.{
  references_of, some_references, references, kill_entry, kill_found, close_one, close_all,
  close_request,
}
use telco_vecchio.Request.RoundTrip.{
  HasOpened, open_request-opened, close_request-shown, open_request-close,
}
use telco_vecchio.Text.{lower}
use telco_vecchio.Text.Words.{split_whitespace}
use telco_vecchio.Request.{command_of}
use telco_vecchio.Request.Handle.{handle_request}
use telco_vecchio.Request.Words.{handle_request-words}
use telco_vecchio.Request.Delivery.{Gives, open_request-Delivers}
use telco_vecchio.Request.Scope.{tunnels_of_others, close_request-own}
use telco_vecchio.Request.Reuse.{EndsWith, open_request-replaces}
use telco_vecchio.Examples.{alice, bob, camera, host, crates, idle, busy, thinned, tunnel_of}

check_open_iff_example :
    (check_open idle.context alice (text "camera") idle ≡ (ok camera, idle))
    ↔ MayOpen idle.context alice (text "camera") camera
check_open_iff_example = check_open_iff idle.context alice (text "camera") idle camera

opened : (open_request host crates alice (text "camera") idle).0 ≡ ok (tunnel_open 0)
unfolding open_request check_open start_tunnel record_tunnel insert_tunnel setup_ssh_tunnel
    read_tunnel_url url_loop after_scan scan_output from_utf8 send_email email_body eq_list
opened = refl

open_request-opened_example :
    HasOpened alice
      (text "camera")
      (tunnel_open 0)
      idle.context
      (open_request host crates alice (text "camera") idle).1.context
open_request-opened_example =
    open_request-opened host crates alice (text "camera") idle {answer = tunnel_open 0} opened

open_request-close_example :
    (close_request host bob
      (show (new_id idle.context) ∷ [])
      (open_request host crates alice (text "camera") idle).1).1.context
    ≡ idle.context
open_request-close_example =
    open_request-close host crates alice bob (text "camera") idle {answer = tunnel_open 0} refl
      opened

close_request-shown_example :
    (close_request host bob (show 0 ∷ []) busy).1.context
    ≡ record (busy.context) { tunnels = erase 0 busy.context.tunnels }
close_request-shown_example =
    close_request-shown host bob 0 [] busy {t = tunnel_of alice 8 0} (omega arith) refl

busy_unique : HasUniqueKeys busy.context.tunnels
busy_unique = (refl, (refl, tt))

closed_own : (close_request host alice [] busy).0 ≡ ok one_closed
unfolding close_request references references_of some_references close_all close_one kill_found
    kill_entry eq_list
closed_own = refl

close_request-own_example :
    (close_request host alice [] busy).1.context
    ≡ record (busy.context) { tunnels = tunnels_of_others (text "alice") busy.context.tunnels }
close_request-own_example =
    close_request-own host alice busy {answer = one_closed} busy_unique closed_own

-- One tunnel is open, under the reference 1.
replaced : (open_request host crates alice (text "camera") thinned).0 ≡ ok (tunnel_open 1)
unfolding open_request check_open start_tunnel record_tunnel insert_tunnel setup_ssh_tunnel
    read_tunnel_url url_loop after_scan scan_output from_utf8 send_email email_body eq_list
replaced = refl

open_request-replaces_example :
    let s' = (open_request host crates alice (text "camera") thinned).1 in
    EndsWith (dropped 9) s'.world.trace
    × ((t : Tunnel) × (t.user ≡ text "alice")
        × (lookup (new_id thinned.context) s'.context.tunnels ≡ some t))
    × (length s'.context.tunnels ≡ length thinned.context.tunnels)
open_request-replaces_example =
    open_request-replaces host crates alice (text "camera") thinned {old = tunnel_of bob 9 0}
      {answer = tunnel_open 1} refl replaced

open_request-Delivers_example :
    Gives host crates alice
      (text "camera")
      idle
      (open_request host crates alice (text "camera") idle).1
open_request-Delivers_example =
    open_request-Delivers host crates alice (text "camera") idle {answer = tunnel_open 0} opened

handle_request-words_example :
    handle_request host crates (text "+33612345678") (text "OPEN camera") idle
    ≡ handle_request host crates (text "+33612345678") (text "  open  camera now") idle
unfolding split_whitespace lower command_of eq_list
handle_request-words_example =
    handle_request-words host crates (text "+33612345678") (text "OPEN camera")
      (text "  open  camera now") idle {word = text "OPEN"} {word' = text "open"}
      {arg = text "camera"} {args = []} {args' = text "now" ∷ []} refl refl refl (λ e. cc)

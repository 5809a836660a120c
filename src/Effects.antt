-- ===== src/Effects.antt =====
-- Errors (daemon/src/common.rs), and computations with effects: what an `async fn` of the daemon
-- does to the world, and how it ends.
pub mod World
pub mod Keeps
pub mod Only
pub mod Growth
pub mod Gathered
pub mod Ends
use telco_vecchio.Prelude.{◌++◌}
use telco_vecchio.Text.{Text, text, quoted}

-- `common::Error`. A foreign error is the text that `{:?}` prints for it.
pub data Error : Type 0 where
  io_error : Text → Error
  sms_init_error : Error
  sms_reading_error : Error
  sms_sending_error : Error
  system_command_execution_error : Error
  ssh_tunnel_url_parsing_error : Error
  ssh_tunnel_url_setup_timeout : Error
  ssh_tunnel_service_error : Text → Error
  configuration_parsing_error : Text → Error
  qmi_response_parsing_error : Text → Error
  sender_not_allowed : Text → Error
  invalid_request_error : Text → Error
  domain_name_resolution_error : Error
  ping_error : Text → Error
  invalid_status : Text → Error

-- `From<io::Error>` and `From<SurgeError>`, which `?` applies
abbrev pub from_io : Text → Error
from_io value = io_error value

abbrev pub from_surge : Text → Error
from_surge value = ping_error value

-- a variant with a payload, as the derived `Debug` prints it
variant : Text → Text → Text
variant name payload = name ++ (text "(" ++ (payload ++ text ")"))

unfoldable pub debug : Error → Text
unfolding variant
debug (io_error e) = variant (text "IoError") e
debug sms_init_error = text "SmsInitError"
debug sms_reading_error = text "SmsReadingError"
debug sms_sending_error = text "SmsSendingError"
debug system_command_execution_error = text "SystemCommandExecutionError"
debug ssh_tunnel_url_parsing_error = text "SshTunnelUrlParsingError"
debug ssh_tunnel_url_setup_timeout = text "SshTunnelUrlSetupTimeout"
debug (ssh_tunnel_service_error s) = variant (text "SshTunnelServiceError") (quoted s)
debug (configuration_parsing_error e) = variant (text "ConfigurationParsingError") e
debug (qmi_response_parsing_error s) = variant (text "QmiResponseParsingError") (quoted s)
debug (sender_not_allowed s) = variant (text "SenderNotAllowed") (quoted s)
debug (invalid_request_error s) = variant (text "InvalidRequestError") (quoted s)
debug domain_name_resolution_error = text "DomainNameResolutionError"
debug (ping_error e) = variant (text "PingError") e
debug (invalid_status s) = variant (text "InvalidStatus") (quoted s)

-- How a computation ends: with `Ok` or `Err`, by a panic, or not at all, because it awaits
-- something that does not come (before the deadline, under a timeout).
pub data Outcome {ℓ} (A : Type ℓ) : Type ℓ where
  ok : A → Outcome A
  err : Error → Outcome A
  panic : Outcome A
  blocked : Outcome A

-- What was done before an error, a panic or a wait stays done.
abbrev pub Exec {ℓ κ} : Type ℓ → Type κ → Type (ℓ ⊔ κ)
Exec S A = S → Outcome A × S

module _ {ℓ κ} {S : Type ℓ} {A : Type κ} where
  abbrev pub pure : A → Exec S A
  pure a s = (ok a, s)

  -- `return Err(e)`
  abbrev pub raise : Error → Exec S A
  raise e s = (err e, s)

  abbrev pub crash : Exec S A
  crash s = (panic, s)

  -- a `Result` that is at hand
  abbrev pub lift : Outcome A → Exec S A
  lift r s = (r, s)

module _ {ℓ κ μ} {S : Type ℓ} {A : Type κ} {B : Type μ} where
  abbrev pub continue : Outcome A → (A → Exec S B) → Exec S B
  continue (ok a) f s = f a s
  continue (err e) f s = (err e, s)
  continue panic f s = (panic, s)
  continue blocked f s = (blocked, s)

  -- `match m.await { Ok(a) => f(a), Err(e) => g(e) }`
  abbrev pub settle : Outcome A → (A → Exec S B) → (Error → Exec S B) → Exec S B
  settle (ok a) f g s = f a s
  settle (err e) f g s = g e s
  settle panic f g s = (panic, s)
  settle blocked f g s = (blocked, s)

  -- `m.await?` before the rest
  infixl 5 ◌>>=◌ ◌>>◌
  abbrev pub ◌>>=◌ : Exec S A → (A → Exec S B) → Exec S B
  ◌>>=◌ m f s = let (r, s') = m s in continue r f s'

  abbrev pub ◌>>◌ : Exec S A → Exec S B → Exec S B
  m >> k = m >>= λ _. k

  abbrev pub match_result : Exec S A → (A → Exec S B) → (Error → Exec S B) → Exec S B
  match_result m f g s = let (r, s') = m s in settle r f g s'

-- `map_err(|_| e)`
abbrev pub map_err {ℓ κ} : {S : Type ℓ} {A : Type κ} → Error → Exec S A → Exec S A
map_err e m = match_result m pure (λ _. raise e)

-- `timeout(…, m).await.unwrap_or(r)`
abbrev pub on_elapsed {ℓ} : {A : Type ℓ} → Outcome A → Outcome A → Outcome A
on_elapsed r (ok a) = ok a
on_elapsed r (err e) = err e
on_elapsed r panic = panic
on_elapsed r blocked = r

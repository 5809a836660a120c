-- ===== src/Sms.antt =====
-- Text messages over the modem's serial port: daemon/src/sms_utils.rs.
pub mod Phone
pub mod Message
pub mod Modem
pub mod Send
pub mod Receive
pub mod Effects
pub mod Outcome
pub mod Sent
pub mod Echo
pub mod Pdu
pub mod Short
use telco_vecchio.Text.{Text}

pub record IncomingSms : Type 0 where
  pub from : Text
  pub msg : Text

pub record OutgoingSms : Type 0 where
  pub to : Text
  pub msg : Text

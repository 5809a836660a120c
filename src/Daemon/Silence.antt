-- ===== src/Daemon/Silence.antt =====
-- An answer that is too long for a message.
use telco_vecchio.Prelude.{◌<◌, ◌≡◌, refl, true, some, arith, ltb}
use telco_vecchio.Text.{Text, len}
use telco_vecchio.Effects.{ok}
use telco_vecchio.Effects.World.{Host, Crates, timer, emit}
use telco_vecchio.Context.{State}
use telco_vecchio.Sms.Send.{send_body, send_sms}
use telco_vecchio.Sms.{IncomingSms}
use telco_vecchio.Request.Handle.{handle_request}
use telco_vecchio.Daemon.Round.{send_response, answer_sms}

module _ (host : Host) (crates : Crates) where
  -- An answer of more than 140 bytes is not sent: nothing but the timer of the sending is started, and
  -- the loop goes on.
  send_response-long :
      (to answer : Text) (s : State)
      → 140 < len answer
      → send_response host crates to (some answer) s ≡ (
        ok tt,
        record s {
          world = emit (timer s.context.configuration.sms_config.sms_send_timeout_sec) s.world;
        },
      )
  unfolding send_response send_sms send_body
  send_response-long to answer s h =
      let long : ltb 140 (len answer) ≡ true = ground arith in rw long refl

  -- A request that is carried out and whose answer has more than 140 bytes is not answered at all: behind
  -- what the request did, only the timer of the sending is started, and the loop goes on.
  pub answer_sms-long :
      (sms : IncomingSms) (s : State) {answer : Text}
      → (handle_request host crates sms.from sms.msg s).0 ≡ ok answer
      → 140 < len answer
      → let s' = (handle_request host crates sms.from sms.msg s).1 in
        answer_sms host crates sms s ≡ (
          ok tt,
          record s' {
            world = emit (timer s'.context.configuration.sms_config.sms_send_timeout_sec) s'.world;
          },
        )
  unfolding answer_sms
  answer_sms-long sms s {answer} e h =
      rw e (send_response-long sms.from answer (handle_request host crates sms.from sms.msg s).1 h)

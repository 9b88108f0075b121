-- ===== src/Fsm/Smtps.antt =====
-- include/mail_system/back/mailServer/fsm/smtps/smtps_desc.h, smtps_types.hpp: the states, the events
-- and the table of the SMTP machine.
use proto_relay.Base.{Bool, true, none, some, List, [], ◌∷◌, ◌++◌, codes, if◌then◌else◌}
use proto_relay.Fsm.{GuardRow, Desc}

pub data SmtpsState : Type 0 where
  init greeting wait_ehlo wait_auth wait_auth_username wait_auth_password : SmtpsState
  wait_mail_from wait_rcpt_to wait_data in_message wait_quit closed : SmtpsState

pub data SmtpsEvent : Type 0 where
  connect ehlo auth mail_from rcpt_to data_command data_end quit : SmtpsEvent
  starttls error timeout empty : SmtpsEvent

abbrev pub Row : Type 0
Row = GuardRow SmtpsState SmtpsEvent

abbrev pub row : SmtpsState → SmtpsEvent → SmtpsState → Row
row from on to = record { from = from; on = on; to = some to }

abbrev pub loop : SmtpsState → SmtpsEvent → Row
loop from on = record { from = from; on = on; to = none }

abbrev pub static_rows : List Row
static_rows =
    row init connect greeting
    ∷ row greeting connect wait_ehlo
    ∷ row wait_ehlo ehlo wait_auth
    ∷ row greeting ehlo wait_auth
    ∷ row wait_auth ehlo wait_auth
    ∷ row wait_auth auth wait_auth_username
    ∷ row wait_auth auth wait_mail_from
    ∷ row wait_auth auth wait_auth
    ∷ row wait_auth_username auth wait_auth_password
    ∷ row wait_auth_password auth wait_mail_from
    ∷ row wait_auth_password auth wait_auth
    ∷ row wait_auth mail_from wait_rcpt_to
    ∷ row wait_mail_from mail_from wait_rcpt_to
    ∷ row wait_rcpt_to mail_from wait_rcpt_to
    ∷ row wait_mail_from mail_from wait_auth
    ∷ row wait_rcpt_to mail_from wait_auth
    ∷ row wait_rcpt_to rcpt_to wait_rcpt_to
    ∷ row wait_rcpt_to data_command in_message
    ∷ row wait_data data_command in_message
    ∷ row in_message data_command in_message
    ∷ row in_message data_end wait_mail_from
    ∷ row in_message data_end wait_quit
    ∷ row wait_quit mail_from wait_rcpt_to
    ∷ []

-- The states that the loop runs over, all but `closed`.
abbrev pub open_states : List SmtpsState
open_states =
    init ∷ greeting ∷ wait_ehlo ∷ wait_auth ∷ wait_auth_username ∷ wait_auth_password
    ∷ wait_mail_from ∷ wait_rcpt_to ∷ wait_data ∷ in_message ∷ wait_quit ∷ []

unfoldable pub every_state_rows : List SmtpsState → List Row
every_state_rows [] = []
every_state_rows (s ∷ states) =
    row s quit closed ∷ loop s error ∷ loop s timeout ∷ loop s empty ∷ every_state_rows states

unfoldable pub make_smtps_desc : Bool → Desc SmtpsState SmtpsEvent
unfolding every_state_rows
make_smtps_desc allow_starttls = record {
  commands =
      record { word = codes "EHLO"; event = ehlo }
      ∷ record { word = codes "HELO"; event = ehlo }
      ∷ record { word = codes "AUTH"; event = auth }
      ∷ record { word = codes "MAIL FROM"; event = mail_from }
      ∷ record { word = codes "RCPT TO"; event = rcpt_to }
      ∷ record { word = codes "DATA"; event = data_command }
      ∷ record { word = codes "QUIT"; event = quit }
      ∷ record { word = codes "STARTTLS"; event = starttls }
      ∷ [];
  guards =
      static_rows
      ++ ((if allow_starttls then row wait_auth starttls init ∷ [] else [])
          ++ every_state_rows open_states);
  error_reply = codes "500 Error: Invalid command sequence";
  error_budget = 0;
  timeout_reply = [];
  timeout_close = true;
  greeting = [];
  internal_error_reply = codes "500 4.0.0 Internal server error";
  terminals = closed ∷ [];
}

-- ===== src/Tests/Machines.antt =====
-- include/mail_system/back/mailServer/fsm at concrete inputs.
use proto_relay.Fsm.Pop3.{Pop3State, Pop3Event, make_pop3_desc, pop3_row}
use proto_relay.Base.{true, false, some, List, [], ◌∷◌, ◌≡◌, refl, codes}
use proto_relay.Fsm.{match_command, has_conflicting_command}
use proto_relay.Fsm.Smtps.{SmtpsState, SmtpsEvent, make_smtps_desc, row}
use proto_relay.Fsm.Runs.{
  Run, first, later, here, next, some_event, is_greeting, is_mail, Run-in_message, Run-wait_data,
}

match_command_test :
    match_command (make_smtps_desc true) (codes "mail From") ≡ some SmtpsEvent.mail_from
unfolding match_command make_smtps_desc
match_command_test = refl

has_conflicting_command_test : has_conflicting_command (make_smtps_desc true) ≡ false
unfolding has_conflicting_command make_smtps_desc
has_conflicting_command_test = refl

-- The events of a session up to the body of its message, the last first.
abbrev some_events : List SmtpsEvent
some_events =
    SmtpsEvent.data_command ∷ SmtpsEvent.mail_from ∷ SmtpsEvent.auth ∷ SmtpsEvent.ehlo
    ∷ SmtpsEvent.connect ∷ []

session : Run (make_smtps_desc false) SmtpsState.init some_events SmtpsState.in_message
unfolding make_smtps_desc
session =
    next (row SmtpsState.wait_rcpt_to SmtpsEvent.data_command SmtpsState.in_message)
      (next (row SmtpsState.wait_mail_from SmtpsEvent.mail_from SmtpsState.wait_rcpt_to)
        (next (row SmtpsState.wait_auth SmtpsEvent.auth SmtpsState.wait_mail_from)
          (next (row SmtpsState.greeting SmtpsEvent.ehlo SmtpsState.wait_auth)
            (next (row SmtpsState.init SmtpsEvent.connect SmtpsState.greeting) here first refl)
            (later (later (later first))) refl)
          (later (later (later (later (later (later first)))))) refl)
        (later (
          later
            (later (later (later (later (later (later (later (later (later (later first))))))))))))
        refl)
      (later (
        later (
          later (
            later (
              later (
                later (
                  later (
                    later (
                      later (
                        later
                          (later (later (later (later (later (later (later first)))))))))))))))))
      refl

Run-in_message_example :
    (some_event is_greeting some_events ≡ true) × (some_event is_mail some_events ≡ true)
Run-in_message_example = Run-in_message false some_events session

Run-wait_data_example :
    ¬ Run (make_smtps_desc false) SmtpsState.init some_events SmtpsState.wait_data
Run-wait_data_example = Run-wait_data false some_events

-- A PASS and a STAT, the last first.
abbrev pop3_events : List Pop3Event
pop3_events = Pop3Event.stat ∷ Pop3Event.pass ∷ Pop3Event.connect_event ∷ []

pop3_session : Run make_pop3_desc Pop3State.initial pop3_events Pop3State.transaction
unfolding make_pop3_desc
pop3_session =
    next (pop3_row Pop3State.transaction Pop3Event.stat Pop3State.transaction)
      (next (pop3_row Pop3State.authorization Pop3Event.pass Pop3State.transaction)
        (next (pop3_row Pop3State.initial Pop3Event.connect_event Pop3State.authorization) here
          first refl)
        (later (later first)) refl)
      (later (later (later (later (later (later first)))))) refl

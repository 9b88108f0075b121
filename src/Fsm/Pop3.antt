-- ===== src/Fsm/Pop3.antt =====
-- include/mail_system/back/mailServer/fsm/pop3/pop3_desc.h, pop3_types.hpp: the states, the events and
-- the table of the POP3 machine, and its runs.
use proto_relay.Base.{
  Bool, true, false, not, ◌&&◌, ◌||◌, some, none, List, [], ◌∷◌, ◌≡◌, refl, Bytes, codes, arith,
}
use proto_relay.Fsm.{GuardRow, CommandEntry, Desc}
use proto_relay.Fsm.Runs.{Run, here, next, all, all-Stands, target}

pub data Pop3State : Type 0 where
  initial authorization transaction update closing : Pop3State

pub data Pop3Event : Type 0 where
  connect_event capa user pass stat list_event uidl retr dele noop rset quit_event : Pop3Event
  error_event timeout_event : Pop3Event

abbrev pub pop3_row : Pop3State → Pop3Event → Pop3State → GuardRow Pop3State Pop3Event
pop3_row from on to = record { from = from; on = on; to = some to }

abbrev pub pop3_loop : Pop3State → GuardRow Pop3State Pop3Event
pop3_loop from = record { from = from; on = error_event; to = none }

abbrev pub pop3_command : Bytes → Pop3Event → CommandEntry Pop3Event
pop3_command word event = record { word = word; event = event }

unfoldable pub make_pop3_desc : Desc Pop3State Pop3Event
make_pop3_desc = record {
  commands =
      pop3_command (codes "CAPA") capa
      ∷ pop3_command (codes "USER") user
      ∷ pop3_command (codes "PASS") pass
      ∷ pop3_command (codes "STAT") stat
      ∷ pop3_command (codes "LIST") list_event
      ∷ pop3_command (codes "UIDL") uidl
      ∷ pop3_command (codes "RETR") retr
      ∷ pop3_command (codes "DELE") dele
      ∷ pop3_command (codes "NOOP") noop
      ∷ pop3_command (codes "RSET") rset
      ∷ pop3_command (codes "QUIT") quit_event
      ∷ [];
  guards =
      pop3_row initial connect_event authorization
      ∷ pop3_row authorization user authorization
      ∷ pop3_row authorization pass transaction
      ∷ pop3_row authorization capa authorization
      ∷ pop3_row authorization noop authorization
      ∷ pop3_row authorization quit_event update
      ∷ pop3_row transaction stat transaction
      ∷ pop3_row transaction list_event transaction
      ∷ pop3_row transaction uidl transaction
      ∷ pop3_row transaction retr transaction
      ∷ pop3_row transaction dele transaction
      ∷ pop3_row transaction noop transaction
      ∷ pop3_row transaction rset transaction
      ∷ pop3_row transaction capa transaction
      ∷ pop3_row transaction quit_event update
      ∷ pop3_loop initial
      ∷ pop3_loop authorization
      ∷ pop3_loop transaction
      ∷ pop3_loop update
      ∷ [];
  error_reply = codes "-ERR Command not allowed in current state";
  error_budget = 0;
  timeout_reply = [];
  timeout_close = true;
  greeting = [];
  internal_error_reply = codes "-ERR Internal: handler failed";
  terminals = closing ∷ [];
}

-- The commands that touch the mailbox.
abbrev pub is_mailbox : Pop3Event → Bool
is_mailbox stat = true
is_mailbox list_event = true
is_mailbox uidl = true
is_mailbox retr = true
is_mailbox dele = true
is_mailbox rset = true
is_mailbox _ = false

abbrev pub is_pass : Pop3Event → Bool
is_pass pass = true
is_pass _ = false

-- Whether a PASS is among the events.
abbrev pub passed : List Pop3Event → Bool
passed [] = false
passed (e ∷ events) = is_pass e || passed events

-- Each command that touches the mailbox stands after a PASS; the last event is first.
abbrev pub guarded : List Pop3Event → Bool
guarded [] = true
guarded (e ∷ events) = (not (is_mailbox e) || passed events) && guarded events

abbrev fits_pop3 : Pop3State → Bool → Bool
fits_pop3 transaction logged = logged
fits_pop3 _ logged = true

abbrev keeps_pop3 : Bool → GuardRow Pop3State Pop3Event → Bool
keeps_pop3 logged r =
    not (fits_pop3 r.from logged)
    || (fits_pop3 (target r) (is_pass r.on || logged) && (not (is_mailbox r.on) || logged))

pop3_keeps : (logged : Bool) → all (keeps_pop3 logged) make_pop3_desc.guards ≡ true
unfolding make_pop3_desc
pop3_keeps true = refl
pop3_keeps false = refl

Run-fits_pop3 :
    {events : List Pop3Event} {s : Pop3State}
    → Run make_pop3_desc initial events s
    → (fits_pop3 s (passed events) && guarded events) ≡ true
Run-fits_pop3 here = refl
Run-fits_pop3 (next {events} r run there e) =
    let kept = all-Stands (keeps_pop3 (passed events)) r _ (pop3_keeps (passed events)) there in
    let ih : (fits_pop3 r.from (passed events) && guarded events) ≡ true =
      rw e (Run-fits_pop3 run) in
    ground (arith, kept, ih)

-- Along the rows of the POP3 table, every STAT, LIST, UIDL, RETR, DELE and RSET has a PASS before it.
pub Run-guarded :
    (events : List Pop3Event) (s : Pop3State)
    → Run make_pop3_desc initial events s
    → guarded events ≡ true
Run-guarded events s run = ground (arith, Run-fits_pop3 run)

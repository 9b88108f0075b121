-- ===== src/Tests/Mailbox.antt =====
-- include/mail_system/back/mailServer/fsm/pop3 at concrete inputs: a session that logs in, deletes two
-- messages and goes.
use proto_relay.Base.{
  ◌+◌, ◌≡◌, refl, arith, true, false, some, List, [], ◌∷◌, ◌++◌, length, take, leb, ◌==◌, not, ◌&&◌,
  Bytes, codes, map,
}
use proto_relay.Fsm.Pop3.{Pop3State, make_pop3_desc}
use proto_relay.Fsm.Engine.{new_bulk, dispatch, settle}
use proto_relay.Fsm.Engine.Chunks.{feed_all, feed_all-joined, joined}
use proto_relay.Fsm.Session.{do_async_write, has_line, drain, do_async_read}
use proto_relay.Pop3.{Message, Pop3Session, new_context}
use proto_relay.Pop3.Numbers.{decimal, parse_uint, safe_stoull}
use proto_relay.Pop3.Numbers.Decimals.{parse_uint-decimal}
use proto_relay.Pop3.Listing.{find_message, live, crlf}
use proto_relay.Pop3.Listing.Numbering.{message_at}
use proto_relay.Pop3.Login.{LockStatus, Answers, run_login}
use proto_relay.Pop3.Retrieve.{drop_cr, body_lines, stuffed_body}
use proto_relay.Pop3.Retrieve.Transparency.{read_body_lines, stuffed_body-read}
use proto_relay.Pop3.Handlers.{
  Server, handle_dele, pop3_engine, pop3_handlers, handle_init_connect, handle_user, handle_pass,
}
use proto_relay.Pop3.Handlers.Deletion.{handle_dele-marks, handle_dele-renumbers, all_unlike}
use proto_relay.Pop3.Commands.{
  Event, connected, on_read, on_login, on_finish, run, new_session, pop3_drain,
}
use proto_relay.Pop3.Commands.Kept.{IsOk}
use proto_relay.Pop3.Commands.Steps.{run-IsOk}
use proto_relay.Pop3.Commands.Drained.{rests, pop3_drain-rests}
use proto_relay.Fsm.{is_terminal, guard_target}

abbrev server : Server
server = record {
  now = 7;
  next_sid = codes "42";
  has_worker = true;
  max_auth_attempts = 3;
  strict = true;
}

abbrev answers : Answers
answers = record {
  has_worker = true;
  start_posts = true;
  has_authenticator = true;
  login_throws = false;
  account = some (5, 0);
  inbox_posts = true;
  closed_at_inbox = false;
  pool_throws = false;
  pool = some true;
  inbox_throws = false;
  inbox = some 9;
  closed_at_lock = false;
  acquire_throws = false;
  lock = LockStatus.owned;
  closed_at_rows = false;
  rows_throws = false;
  rows = some (
      record { mail_id = 11; body_path = [] }
      ∷ record { mail_id = 12; body_path = [] }
      ∷ record { mail_id = 13; body_path = [] }
      ∷ []);
  closed_at_measure = false;
  measure_posts = true;
  object_size = some (λ path. some 5);
  storage_throws = false;
  release_posts = true;
}

abbrev line : Bytes → Server × Event
line text = (server, on_read (text ++ crlf))

abbrev logged_in : List (Server × Event)
logged_in =
    (server, connected)
    ∷ line (codes "user bob")
    ∷ line (codes "PASS secret")
    ∷ (server, on_login answers)
    ∷ (server, on_finish)
    ∷ []

abbrev deleting : List (Server × Event)
deleting = logged_in ++ line (codes "DELE 1") ∷ line (codes "DELE 2") ∷ []

abbrev after_deleting : Pop3Session
after_deleting = run deleting new_session

-- The second DELE names the third message of the mailbox.
deleting_test :
    (after_deleting.context.deleted ≡ 13 ∷ 11 ∷ []) × (after_deleting.state ≡ Pop3State.transaction)
unfolding run new_session dispatch is_terminal pop3_engine make_pop3_desc guard_target pop3_handlers
    handle_init_connect settle do_async_write has_line drain do_async_read handle_user handle_pass
    run_login handle_dele
deleting_test = (refl, refl)

run-IsOk_example : IsOk (run deleting new_session)
run-IsOk_example = run-IsOk deleting

abbrev piped : Pop3Session
piped = record new_session {
  state = Pop3State.authorization;
  buffer = codes "CAPA" ++ (crlf ++ (codes "NOOP" ++ (crlf ++ codes "US")));
}

pop3_drain-rests_example : rests (pop3_drain server piped) ≡ true
pop3_drain-rests_example = pop3_drain-rests server piped

parse_uint-decimal_example :
    (parse_uint (decimal 1995) ≡ some 1995) × (safe_stoull (decimal 1995) ≡ 1995)
parse_uint-decimal_example = parse_uint-decimal 1995 (omega arith)

-- A body with a dot alone on a line, and one that ends in no line.
abbrev dotted : Bytes
dotted = codes "a" ++ (crlf ++ (codes "." ++ (10 ∷ codes "..b")))

stuffed_body-read_example :
    read_body_lines [] (stuffed_body dotted ++ (46 ∷ crlf ++ codes "+OK"))
    ≡ some (map drop_cr (body_lines dotted), codes "+OK")
stuffed_body-read_example = stuffed_body-read dotted (codes "+OK")

abbrev chunks : List Bytes
chunks = codes "ab" ∷ [] ∷ codes "cde" ∷ codes "f" ∷ []

feed_all-joined_example :
    ((feed_all chunks (new_bulk 4)).sink ≡ take 4 (joined chunks))
    × ((feed_all chunks (new_bulk 4)).complete
        ≡ (leb 4 (length (joined chunks)) && not (length (joined chunks) == 0)))
feed_all-joined_example = feed_all-joined 4 chunks

abbrev first_mail : Message
first_mail = record { mail_id = 11; body_path = []; size = 5 }

abbrev second_mail : Message
second_mail = record { mail_id = 12; body_path = []; size = 6 }

-- A session in TRANSACTION that is to delete its first message.
abbrev to_delete : Pop3Session
to_delete = record new_session {
  state = Pop3State.transaction;
  last_args = codes "1";
  context = record new_context { messages = first_mail ∷ second_mail ∷ [] };
}

handle_dele-marks_example :
    (handle_dele to_delete).context
    ≡ record to_delete.context { deleted = 11 ∷ to_delete.context.deleted }
unfolding new_session new_context decimal message_at live
handle_dele-marks_example = handle_dele-marks 0 first_mail to_delete (omega arith) refl refl

handle_dele-renumbers_example :
    find_message (handle_dele to_delete).context (0 + 1)
    ≡ find_message to_delete.context (0 + 1 + 1)
unfolding new_session new_context decimal message_at live all_unlike
handle_dele-renumbers_example =
    handle_dele-renumbers 0 first_mail to_delete (omega arith) refl refl refl

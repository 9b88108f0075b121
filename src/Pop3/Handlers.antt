-- ===== src/Pop3/Handlers.antt =====
-- include/mail_system/back/mailServer/fsm/pop3/traditional_pop3_fsm.tpp: the handlers of the commands,
-- and what the posted ends of their operations do. Metrics are left out.
pub mod Deletion
use proto_relay.Base.{
  ℕ, zero, suc, ◌+◌, Bool, true, false, ◌&&◌, ◌||◌, not, Option, none, some, List, [], ◌∷◌, ◌++◌,
  length, ltb, leb, ◌==◌, if◌then◌else◌, Bytes, codes,
}
use proto_relay.Fsm.Pop3.{Pop3State, Pop3Event, make_pop3_desc}
use proto_relay.Fsm.Session.{
  Session, Effect, emit, do_async_read, do_async_write, close_after_flush, with_line_end,
  record_auth_failure, too_many_failures,
}
use proto_relay.Fsm.Engine.{Engine, Entry, settle, settle_closing}
use proto_relay.Pop3.{Pop3Session, Context, Message, Job, Op, clear, pop3_state_key, pop3_event_key}
use proto_relay.Pop3.Numbers.{decimal, safe_stoull}
use proto_relay.Pop3.Listing.{
  marked, find_message, stat_reply, list_reply, uidl_reply, total_size, no_such_message, crlf,
}
use proto_relay.Pop3.Login.{Ending, failed, loaded}
use proto_relay.Pop3.Retrieve.{stuffed_body}

-- What a handler reads from the server: the time in its banner, the next id for a session, whether
-- there are workers, and the configured limit of failures.
pub record Server : Type 0 where
  pub now : ℕ
  pub next_sid : Bytes
  pub has_worker : Bool
  pub max_auth_attempts : ℕ
  pub strict : Bool

abbrev pub Drain : Type 0
Drain = Pop3Session → Pop3Session

-- The engine before the handlers are registered; its write points use the table and the switch.
unfoldable pub bare_engine : Server → Engine Pop3State Pop3Event Context Op
bare_engine v = record {
  desc = make_pop3_desc;
  handlers = [];
  observe = λ s. s;
  begin_event = λ s. s;
  violation_text = λ s e. [];
  missing_text = λ s e. codes "-ERR Internal: handler missing";
  internal_text = λ s e. [];
  strict = v.strict;
}

unfoldable pub send_line : Bytes → Pop3Session → Pop3Session
send_line line s = do_async_write (with_line_end line) s

unfoldable pub set_job : Job → Pop3Session → Pop3Session
set_job job s = record s { context = record s.context { job = job } }

-- `begin_transition`
unfoldable pub begin_transition : Job → Pop3Session → Pop3Session
unfolding set_job
begin_transition job s = set_job job (record s { paused = true })

unfoldable pub handle_capa : Pop3Session → Pop3Session
unfolding send_line
handle_capa s =
    send_line
      (codes "+OK Capability list follows"
        ++ (crlf
            ++ (codes "USER"
                ++ (crlf
                    ++ (codes "UIDL"
                        ++ (crlf
                            ++ (codes "IMPLEMENTATION ProtoRelay-POP3"
                                ++ (crlf ++ (codes "." ++ crlf)))))))))
      s

unfoldable pub handle_user : Pop3Session → Pop3Session
unfolding send_line clear
handle_user s =
    if length s.last_args == 0
    then send_line (codes "-ERR USER requires a name argument") s
    else send_line (codes "+OK Send PASS")
        (record s { context = record (clear s.context) { username = s.last_args } })

unfoldable pub handle_pass : Server → Pop3Session → Pop3Session
unfolding send_line begin_transition emit
handle_pass v s =
    if not s.context.is_authenticated && length s.context.username == 0
    then send_line (codes "-ERR USER first") s
    else if length s.last_args == 0
    then send_line (codes "-ERR PASS requires a password") s
    else emit (Effect.operation (Op.start_login s.context.username s.last_args v.next_sid))
        (begin_transition (Job.login v.next_sid) s)

unfoldable pub handle_stat : Pop3Session → Pop3Session
unfolding send_line stat_reply
handle_stat s = send_line (stat_reply s.context) s

unfoldable pub handle_list : Pop3Session → Pop3Session
unfolding send_line list_reply
handle_list s = send_line (list_reply s.last_args s.context) s

unfoldable pub handle_uidl : Pop3Session → Pop3Session
unfolding send_line uidl_reply
handle_uidl s = send_line (uidl_reply s.last_args s.context) s

unfoldable pub start_retr : Server → Option Message → Pop3Session → Pop3Session
unfolding send_line begin_transition set_job emit
start_retr v none s = send_line no_such_message s
start_retr v (some m) s =
    if v.has_worker
    then emit (Effect.operation (Op.read_body m)) (begin_transition (Job.retrieving m) s)
    else set_job (Job.finishing none)
        (send_line (codes "-ERR Server not ready") (begin_transition (Job.retrieving m) s))

unfoldable pub handle_retr : Server → Pop3Session → Pop3Session
unfolding send_line start_retr find_message safe_stoull
handle_retr v s =
    if length s.last_args == 0
    then send_line (codes "-ERR RETR requires a message number") s
    else start_retr v (find_message s.context (safe_stoull s.last_args)) s

unfoldable pub mark_deleted : ℕ → Pop3Session → Pop3Session
mark_deleted id s = record s { context = record s.context { deleted = id ∷ s.context.deleted } }

unfoldable pub delete_found : ℕ → Option Message → Pop3Session → Pop3Session
unfolding send_line mark_deleted marked
delete_found n none s = send_line no_such_message s
delete_found n (some m) s =
    if marked m.mail_id s.context.deleted
    then send_line (codes "-ERR message already deleted") s
    else send_line (codes "+OK message " ++ (decimal n ++ codes " deleted"))
        (mark_deleted m.mail_id s)

unfoldable pub handle_dele : Pop3Session → Pop3Session
unfolding send_line delete_found find_message safe_stoull
handle_dele s =
    if length s.last_args == 0
    then send_line (codes "-ERR DELE requires a message number") s
    else delete_found (safe_stoull s.last_args) (find_message s.context (safe_stoull s.last_args)) s

unfoldable pub handle_noop : Pop3Session → Pop3Session
unfolding send_line
handle_noop s = send_line (codes "+OK") s

unfoldable pub handle_rset : Pop3Session → Pop3Session
unfolding send_line
handle_rset s = send_line (codes "+OK") (record s { context = record s.context { deleted = [] } })

unfoldable pub handle_error : Pop3Session → Pop3Session
unfolding send_line
handle_error s = if s.closed then s else send_line (codes "-ERR Unknown command") s

unfoldable pub handle_init_connect : Server → Drain → Pop3Session → Pop3Session
unfolding send_line
handle_init_connect v drain s =
    settle (bare_engine v) drain (some Pop3State.authorization) none (
      send_line (codes "+OK ProtoRelay POP3 server ready <" ++ (decimal v.now ++ codes "@pop3>")) s)

unfoldable pub handle_quit : Server → Pop3Session → Pop3Session
unfolding send_line begin_transition emit
handle_quit v s =
    if not s.context.is_authenticated
    then close_after_flush (
        send_line (codes "+OK Bye") (
          settle_closing (bare_engine v) (some Pop3State.update) (record s { clean_close = true })))
    else (let c = record s.context { dropped = true; heartbeat = false } in
        emit (Effect.operation (Op.apply_deletions c.user_id c.mailbox_id c.deleted c.session_id))
          (begin_transition Job.quitting (record s { context = c })))

-- `handle_timeout`, which no event reaches: the machine closes the session by its read.
unfoldable pub handle_timeout : Server → Pop3Session → Pop3Session
unfolding emit
handle_timeout v s =
    if s.closed
    then s
    else if s.context.is_authenticated && (not (length s.context.session_id == 0) && v.has_worker)
    then emit Effect.close_posted
        (emit (Effect.operation (Op.release_lock s.context.user_id s.context.session_id)) s)
    else emit Effect.close_posted s

-- A handler that does not use the drain.
abbrev pub entry :
    Pop3State → Pop3Event → (Pop3Session → Pop3Session) → Entry Pop3State Pop3Event Context Op
entry from on run = record { from = from; on = on; run = λ drain s. (run s, true) }

unfoldable pub pop3_handlers : Server → List (Entry Pop3State Pop3Event Context Op)
pop3_handlers v =
    record {
      from = Pop3State.initial;
      on = Pop3Event.connect_event;
      run = λ drain s. (handle_init_connect v drain s, true);
    }
    ∷ entry Pop3State.authorization Pop3Event.user handle_user
    ∷ entry Pop3State.authorization Pop3Event.pass (handle_pass v)
    ∷ entry Pop3State.authorization Pop3Event.capa handle_capa
    ∷ entry Pop3State.authorization Pop3Event.noop handle_noop
    ∷ entry Pop3State.authorization Pop3Event.quit_event (handle_quit v)
    ∷ entry Pop3State.transaction Pop3Event.stat handle_stat
    ∷ entry Pop3State.transaction Pop3Event.list_event handle_list
    ∷ entry Pop3State.transaction Pop3Event.uidl handle_uidl
    ∷ entry Pop3State.transaction Pop3Event.retr (handle_retr v)
    ∷ entry Pop3State.transaction Pop3Event.dele handle_dele
    ∷ entry Pop3State.transaction Pop3Event.noop handle_noop
    ∷ entry Pop3State.transaction Pop3Event.rset handle_rset
    ∷ entry Pop3State.transaction Pop3Event.capa handle_capa
    ∷ entry Pop3State.transaction Pop3Event.quit_event (handle_quit v)
    ∷ entry Pop3State.initial Pop3Event.error_event handle_error
    ∷ entry Pop3State.authorization Pop3Event.error_event handle_error
    ∷ entry Pop3State.transaction Pop3Event.error_event handle_error
    ∷ entry Pop3State.update Pop3Event.error_event handle_error
    ∷ []

unfoldable pub pop3_engine : Server → Engine Pop3State Pop3Event Context Op
unfolding bare_engine
pop3_engine v = record (bare_engine v) { handlers = pop3_handlers v }

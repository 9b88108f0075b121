-- ===== src/Pop3/Commands.antt =====
-- include/mail_system/back/mailServer/session/pop3_session.tpp: a line becomes an event and its
-- arguments; and the steps of a session: reads, writes, and the ends of its operations.
pub mod Kept
pub mod KeptHandlers
pub mod KeptTable
pub mod Safe
pub mod Steps
pub mod Shorter
pub mod ShorterTable
pub mod Drained
use proto_relay.Base.{
  ℕ, zero, suc, ◌+◌, Bool, true, false, ◌&&◌, ◌||◌, not, Option, none, some, List, [], ◌∷◌, ◌++◌,
  length, ltb, leb, ◌==◌, if◌then◌else◌, Bytes, codes, bytes_eq, map,
}
use proto_relay.Fsm.{upper}
use proto_relay.Fsm.Pop3.{Pop3State, Pop3Event}
use proto_relay.Fsm.Session.{
  Session, Effect, emit, do_async_read, close, close_after_flush, has_line, first_line, after_line,
  max_command_buffer, record_auth_failure, too_many_failures, drain,
}
use proto_relay.Fsm.Engine.{Engine, dispatch, settle, settle_closing}
use proto_relay.Pop3.{
  Pop3Session, Context, Message, Job, Op, new_context, pop3_state_key, pop3_event_key,
}
use proto_relay.Pop3.Numbers.{decimal}
use proto_relay.Pop3.Listing.{total_size, crlf}
use proto_relay.Pop3.Login.{Answers, Ending, failed, loaded, run_login}
use proto_relay.Pop3.Retrieve.{drop_cr, stuffed_body}
use proto_relay.Pop3.Handlers.{Server, Drain, send_line, set_job, pop3_engine, bare_engine}

-- The last byte goes.
unfoldable pub drop_last : Bytes → Bytes
drop_last [] = []
drop_last (c ∷ []) = []
drop_last (c ∷ d ∷ cs) = c ∷ drop_last (d ∷ cs)

abbrev pub is_blank : ℕ → Bool
is_blank c = c == 32 || c == 9

unfoldable pub trim_end : Bytes → Bytes
trim_end [] = []
trim_end (c ∷ cs) =
    let rest = trim_end cs in if length rest == 0 && is_blank c then [] else c ∷ rest

unfoldable pub trim_start : Bytes → Bytes
trim_start [] = []
trim_start (c ∷ cs) = let rest = trim_start cs in if is_blank c then rest else c ∷ cs

-- The command word, and what stands behind the first space.
unfoldable pub word_of : Bytes → Bytes
word_of [] = []
word_of (c ∷ cs) = let rest = word_of cs in if c == 32 then [] else c ∷ rest

unfoldable pub args_of : Bytes → Bytes
unfolding trim_start
args_of [] = []
args_of (c ∷ cs) = let rest = args_of cs in if c == 32 then trim_start cs else rest

unfoldable pub command_event : Bytes → Pop3Event
unfolding bytes_eq
command_event word =
    if bytes_eq word (codes "CAPA")
    then Pop3Event.capa
    else if bytes_eq word (codes "USER")
    then Pop3Event.user
    else if bytes_eq word (codes "PASS")
    then Pop3Event.pass
    else if bytes_eq word (codes "STAT")
    then Pop3Event.stat
    else if bytes_eq word (codes "LIST")
    then Pop3Event.list_event
    else if bytes_eq word (codes "UIDL")
    then Pop3Event.uidl
    else if bytes_eq word (codes "RETR")
    then Pop3Event.retr
    else if bytes_eq word (codes "DELE")
    then Pop3Event.dele
    else if bytes_eq word (codes "NOOP")
    then Pop3Event.noop
    else if bytes_eq word (codes "RSET")
    then Pop3Event.rset
    else if bytes_eq word (codes "QUIT")
    then Pop3Event.quit_event
    else Pop3Event.error_event

-- `parse_pop3_command`, on a line with its LF.
unfoldable pub parse_command : Bytes → Pop3Session → Pop3Session
unfolding drop_last drop_cr trim_end word_of args_of command_event upper
parse_command data' s =
    let line = trim_end (drop_cr (drop_last data')) in
    if length line == 0
    then record s { next_event = Pop3Event.error_event; last_args = [] }
    else record s {
      next_event = command_event (map upper (word_of line));
      last_args = args_of line;
    }

-- A line leaves the buffer, is parsed and dispatched.
unfoldable pub consume : Server → Drain → Pop3Session → Pop3Session
unfolding parse_command first_line after_line
consume v drain s =
    let s' = parse_command (first_line s.buffer) (record s { buffer = after_line s.buffer }) in
    dispatch (pop3_engine v) drain s'.next_event s'

unfoldable pub pop3_drain : Server → Drain
pop3_drain v s = drain (consume v) s

-- The loop of a completed read.
unfoldable pub read_loop : Server → ℕ → Pop3Session → Pop3Session
unfolding consume pop3_drain
read_loop v zero s = s
read_loop v (suc n) s =
    let rest = read_loop v n (consume v (pop3_drain v) s) in
    if has_line s.buffer && not s.paused then rest else s

unfoldable pub received : Server → Bytes → Pop3Session → Pop3Session
unfolding read_loop
received v bytes s =
    if s.closed
    then s
    else if length bytes == 0
    then do_async_read s
    else (let s1 = record s { buffer = s.buffer ++ bytes } in
        if ltb max_command_buffer (length s1.buffer)
        then close s1
        else (let s2 = read_loop v (length s1.buffer) s1 in
            if not (has_line s1.buffer && not s1.paused) && (not s2.paused && not s2.closed)
            then do_async_read s2
            else s2))

unfoldable pub sid_of : Job → Bytes
sid_of (Job.login sid) = sid
sid_of _ = []

-- `reply_failure`
unfoldable pub login_failed : Server → Bytes → Bool → Pop3Session → Pop3Session
login_failed v reply counts s =
    if s.closed || length reply == 0
    then s
    else (let s1 = if counts then record_auth_failure s else s in
        if counts && too_many_failures v.max_auth_attempts s1
        then close_after_flush
            (send_line (codes "-ERR Too many auth failures, closing connection") s1)
        else set_job (Job.finishing none) (send_line reply s1))

-- `install`
unfoldable pub install : ℕ → ℕ → ℕ → List Message → Bytes → Pop3Session → Pop3Session
install user inbox shard messages sid s =
    if s.closed
    then emit (Effect.operation (Op.release_lock user sid)) s
    else set_job (Job.finishing (some Pop3State.transaction)) (
        send_line
          (codes "+OK Mailbox locked and loaded, "
            ++ (decimal (length messages)
                ++ (codes " messages (" ++ (decimal (total_size messages) ++ codes " octets)"))))
          (record s {
            context = record s.context {
              is_authenticated = true;
              user_id = user;
              mailbox_id = inbox;
              shard_index = shard;
              messages = messages;
              deleted = [];
              session_id = sid;
              dropped = false;
              heartbeat = true;
            };
          }))

-- `release`, which the worker runs before the reply of a failure is posted.
unfoldable pub release_held : Bytes → Option ℕ → Pop3Session → Pop3Session
unfolding emit
release_held sid none s = s
release_held sid (some user) s = emit (Effect.operation (Op.release_lock user sid)) s

unfoldable pub finish_login : Server → Bytes → Ending → Pop3Session → Pop3Session
unfolding login_failed release_held install
finish_login v sid (failed reply counts released) s =
    login_failed v reply counts (release_held sid released s)
finish_login v sid (loaded user inbox shard messages) s = install user inbox shard messages sid s

-- The end of the body's read, none where it failed.
unfoldable pub finish_retr : Message → Option Bytes → Pop3Session → Pop3Session
finish_retr m none s =
    if s.closed
    then s
    else set_job (Job.finishing none) (send_line (codes "-ERR Failed to read message body") s)
finish_retr m (some body) s =
    if s.closed
    then s
    else set_job (Job.finishing none) (
        send_line
          (codes "+OK "
            ++ (decimal m.size
                ++ (codes " octets" ++ (crlf ++ (stuffed_body body ++ (codes "." ++ crlf))))))
          s)

-- What `QuitOperation` meets, and whether the deletions and the release of the lock are done.
pub record QuitAnswers : Type 0 where
  pub has_worker : Bool
  pub database : Bool
  pub throws : Bool
  pub deleted : Bool
  pub released : Bool

unfoldable pub run_quit : QuitAnswers → Bool × Bool
run_quit a =
    if not a.has_worker || not a.database
    then (false, false)
    else (not a.throws && a.deleted, a.released)

-- `QuitOperation::finish`
unfoldable pub finish_quit : Bool × Bool → Pop3Session → Pop3Session
finish_quit (deleted, released) s =
    if s.closed
    then s
    else (let both = deleted && released in
        let s' = if both then record s { clean_close = true } else s in
        close_after_flush (
          set_job (Job.finishing_closing Pop3State.update) (
            send_line
              (if both then codes "+OK Bye" else codes "-ERR Unable to complete mailbox update")
              s')))

-- The operation that runs is over; an answer that does not fit it does not come.
unfoldable pub login_done : Server → Answers → Job → Pop3Session → Pop3Session
unfolding finish_login
login_done v a (Job.login sid) s = finish_login v sid (run_login a) s
login_done v a _ s = s

unfoldable pub retr_done : Option Bytes → Job → Pop3Session → Pop3Session
unfolding finish_retr
retr_done body (Job.retrieving m) s = finish_retr m body s
retr_done body _ s = s

unfoldable pub quit_done : QuitAnswers → Job → Pop3Session → Pop3Session
unfolding finish_quit run_quit
quit_done a Job.quitting s = finish_quit (run_quit a) s
quit_done a _ s = s

-- The posted body of `Transition::finish`, or of `finish_closing`.
unfoldable pub run_finish : Server → Job → Pop3Session → Pop3Session
unfolding pop3_drain
run_finish v (Job.finishing target) s =
    settle (bare_engine v) (pop3_drain v) target none (set_job Job.idle s)
run_finish v (Job.finishing_closing target) s =
    settle_closing (bare_engine v) (some target) (set_job Job.idle s)
run_finish v _ s = s

-- The answer of a renewal of the lock, whether it is still owned.
unfoldable pub heartbeat : Bool → Pop3Session → Pop3Session
heartbeat owned s =
    if s.closed || (s.context.dropped || not s.context.heartbeat)
    then s
    else if owned
    then s
    else close s

-- What happens to a session, with what it reads from the server.
pub data Event : Type 0 where
  connected : Event
  on_read : Bytes → Event
  read_failed : Event
  on_written : Event
  write_failed : Event
  on_login : Answers → Event
  on_body : Option Bytes → Event
  on_quit : QuitAnswers → Event
  on_finish : Event
  on_close : Event
  on_heartbeat : Bool → Event

unfoldable pub step : Server → Event → Pop3Session → Pop3Session
unfolding received login_done retr_done quit_done run_finish heartbeat pop3_drain
step v connected s = dispatch (pop3_engine v) (pop3_drain v) Pop3Event.connect_event s
step v (on_read bytes) s = received v bytes s
step v read_failed s = close s
step v on_written s = do_async_read s
step v write_failed s = close s
step v (on_login a) s = login_done v a s.context.job s
step v (on_body body) s = retr_done body s.context.job s
step v (on_quit a) s = quit_done a s.context.job s
step v on_finish s = run_finish v s.context.job s
step v on_close s = close s
step v (on_heartbeat owned) s = heartbeat owned s

unfoldable pub run : List (Server × Event) → Pop3Session → Pop3Session
unfolding step
run [] s = s
run ((v, e) ∷ es) s = run es (step v e s)

unfoldable pub new_session : Pop3Session
unfolding new_context
new_session = record {
  state = Pop3State.initial;
  next_event = Pop3Event.connect_event;
  last_args = [];
  closed = false;
  paused = false;
  aborted = false;
  clean_close = false;
  buffer = [];
  pending_write = [];
  stay_times = 0;
  auth_attempts = 0;
  context = new_context;
  effects = [];
}

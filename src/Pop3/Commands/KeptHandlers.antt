-- ===== src/Pop3/Commands/KeptHandlers.antt =====
-- include/mail_system/back/mailServer/fsm/pop3/traditional_pop3_fsm.tpp: the handlers keep the
-- invariant of a session.
use proto_relay.Base.{
  ℕ, ◌+◌, ◌≡◌, refl, ap, ◌∙◌, arith, true, false, ◌&&◌, not, Option, none, some, List, [], ◌∷◌,
  length, ◌==◌, Bytes,
}
use proto_relay.Fsm.Pop3.{Pop3State}
use proto_relay.Fsm.Session.{emit, do_async_write}
use proto_relay.Pop3.{Pop3Session, Context, Message, Job, clear, pop3_state_key, pop3_event_key}
use proto_relay.Pop3.Listing.{marked, find_nth, find_message}
use proto_relay.Pop3.Numbers.{safe_stoull}
use proto_relay.Pop3.Handlers.{
  Server, send_line, set_job, begin_transition, handle_user, handle_pass, start_retr, handle_retr,
  mark_deleted, delete_found, handle_dele, handle_rset, handle_error,
}
use proto_relay.Pop3.Commands.Kept.{
  IsOk, core, if_Ok, emit-IsOk, send_line-IsOk, is_idle, job_fits, has_id, idle_fits,
}

-- An operation is started, in a state that fits it.
pub begin_transition-IsOk :
    (job : Job) (s : Pop3Session)
    → job_fits s.state s.context.is_authenticated job ≡ true
    → IsOk s
    → IsOk (begin_transition job s)
unfolding begin_transition set_job
begin_transition-IsOk job s f h = record {
  logged = h.logged;
  job = f;
  waits = ground arith;
  sound = h.sound;
  known = h.known;
}

-- The operation in flight, with the pipeline paused, becomes another that fits.
pub set_job-IsOk :
    (job : Job) (s : Pop3Session)
    → job_fits s.state s.context.is_authenticated job ≡ true
    → s.paused ≡ true
    → IsOk s
    → IsOk (set_job job s)
unfolding set_job
set_job-IsOk job s f p h = record {
  logged = h.logged;
  job = f;
  waits = ground (arith, p);
  sound = h.sound;
  known = h.known;
}

pub send_line-core : (text : Bytes) (s : Pop3Session) → core (send_line text s) ≡ core s
unfolding send_line do_async_write emit
send_line-core text s = ground arith

-- A reply, and the operation is to finish.
pub reply_job-IsOk :
    (job : Job) (text : Bytes) (s : Pop3Session)
    → job_fits s.state s.context.is_authenticated job ≡ true
    → s.paused ≡ true
    → IsOk s
    → IsOk (set_job job (send_line text s))
reply_job-IsOk job text s f p h =
    let e = send_line-core text s in
    set_job-IsOk job (send_line text s) (ap (λ c. job_fits c.0 c.1.is_authenticated job) e ∙ f)
      (ap (λ c. c.2) e ∙ p) (send_line-IsOk text s h)

pub handle_user-IsOk :
    (s : Pop3Session)
    → s.state ≡ Pop3State.authorization
    → is_idle s.context.job ≡ true
    → IsOk s
    → IsOk (handle_user s)
unfolding handle_user clear
handle_user-IsOk s e i h = if_Ok (length s.last_args == 0) (send_line-IsOk _ s h) (
    send_line-IsOk _ _ (record {
      logged = rw e refl;
      job = idle_fits s.state false s.context.job i;
      waits = h.waits;
      sound = h.sound;
      known = tt;
    }))

pub handle_pass-IsOk :
    (v : Server) (s : Pop3Session)
    → s.state ≡ Pop3State.authorization
    → IsOk s
    → IsOk (handle_pass v s)
unfolding handle_pass
handle_pass-IsOk v s e h =
    if_Ok (not s.context.is_authenticated && length s.context.username == 0) (send_line-IsOk _ s h)
      (if_Ok (length s.last_args == 0) (send_line-IsOk _ s h)
        (emit-IsOk _ _ (begin_transition-IsOk (Job.login v.next_sid) s (rw e refl) h)))

pub start_retr-IsOk :
    (v : Server) (o : Option Message) (s : Pop3Session)
    → s.state ≡ Pop3State.transaction
    → IsOk s
    → IsOk (start_retr v o s)
unfolding start_retr
start_retr-IsOk v none s e h = send_line-IsOk _ s h
start_retr-IsOk v (some m) s e h =
    let b = begin_transition-IsOk (Job.retrieving m) s (rw e refl) h in
    if_Ok v.has_worker (emit-IsOk _ _ b)
      (reply_job-IsOk (Job.finishing none) _ _ (rw e refl) refl b)

-- What is found is in the mailbox.
find_nth-has_id :
    (n seen : ℕ) (deleted : List ℕ) (ms : List Message) (m : Message)
    → find_nth n seen deleted ms ≡ some m
    → has_id m.mail_id ms ≡ true
unfolding find_nth
find_nth-has_id n seen deleted [] m e = ground (arith, e)
find_nth-has_id n seen deleted (x ∷ ms) m e =
    ground
      (arith, e, find_nth-has_id n (seen + 1) deleted ms m, find_nth-has_id n seen deleted ms m)

find_message-has_id :
    (c : Context) (n : ℕ) (m : Message)
    → find_message c n ≡ some m
    → has_id m.mail_id c.messages ≡ true
unfolding find_message
find_message-has_id c n m e = ground (arith, e, find_nth-has_id n 0 c.deleted c.messages m)

delete_found-IsOk :
    (n k : ℕ) (o : Option Message) (s : Pop3Session)
    → find_message s.context k ≡ o
    → IsOk s
    → IsOk (delete_found n o s)
unfolding delete_found mark_deleted
delete_found-IsOk n k none s e h = send_line-IsOk _ s h
delete_found-IsOk n k (some m) s e h =
    if_Ok (marked m.mail_id s.context.deleted) (send_line-IsOk _ s h) (
      send_line-IsOk _ _ (record {
        logged = h.logged;
        job = h.job;
        waits = h.waits;
        sound = h.sound;
        known = (find_message-has_id s.context k m e, h.known);
      }))

pub handle_dele-IsOk : (s : Pop3Session) → IsOk s → IsOk (handle_dele s)
unfolding handle_dele
handle_dele-IsOk s h =
    if_Ok (length s.last_args == 0) (send_line-IsOk _ s h)
      (delete_found-IsOk _ (safe_stoull s.last_args) _ s refl h)

pub handle_rset-IsOk : (s : Pop3Session) → IsOk s → IsOk (handle_rset s)
unfolding handle_rset
handle_rset-IsOk s h =
    send_line-IsOk _ _
      (record { logged = h.logged; job = h.job; waits = h.waits; sound = h.sound; known = tt })

pub handle_retr-IsOk :
    (v : Server) (s : Pop3Session)
    → s.state ≡ Pop3State.transaction
    → IsOk s
    → IsOk (handle_retr v s)
unfolding handle_retr
handle_retr-IsOk v s e h =
    if_Ok (length s.last_args == 0) (send_line-IsOk _ s h) (start_retr-IsOk v _ s e h)

pub handle_error-IsOk : (s : Pop3Session) → IsOk s → IsOk (handle_error s)
unfolding handle_error
handle_error-IsOk s h = if_Ok s.closed h (send_line-IsOk _ s h)

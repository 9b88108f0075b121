-- ===== src/Pop3/Commands/Steps.antt =====
-- include/mail_system/back/mailServer/fsm/pop3/traditional_pop3_fsm.tpp: the invariant of a session
-- through the ends of its operations, and through every sequence of events.
use proto_relay.Base.{
  ℕ, ◌≡◌, refl, sym, ap, ◌∙◌, arith, Bool, true, false, ◌&&◌, ◌||◌, not, Option, none, some, List,
  [], ◌∷◌, length, ◌==◌, if◌then◌else◌, Bytes, codes,
}
use proto_relay.Fsm.{guard_target, find_row, is_terminal}
use proto_relay.Fsm.Pop3.{Pop3State, Pop3Event, make_pop3_desc}
use proto_relay.Fsm.Session.{Effect, emit, record_auth_failure, too_many_failures}
use proto_relay.Fsm.Engine.{passes_strict, has_row, leads_to, dispatch, guard_then}
use proto_relay.Pop3.{Pop3Session, Message, Job, Op, new_context, pop3_state_key, pop3_event_key}
use proto_relay.Pop3.Login.{Answers, Ending, failed, loaded, run_login}
use proto_relay.Pop3.Handlers.{Server, bare_engine, pop3_engine, set_job}
use proto_relay.Pop3.Commands.{
  login_failed, install, release_held, finish_login, finish_retr, QuitAnswers, run_quit,
  finish_quit, login_done, retr_done, quit_done, run_finish, heartbeat, Event, connected, on_read,
  read_failed, on_written, write_failed, on_login, on_body, on_quit, on_finish, on_close,
  on_heartbeat, step, run, new_session, pop3_drain,
}
use proto_relay.Pop3.Commands.Kept.{
  IsOk, core, keep, if_Ok, emit-IsOk, send_line-IsOk, close-IsOk, close_after_flush-IsOk,
  settle_closing-IsOk, settle-IsOk, enter-IsOk, resume-IsOk, is_authorization, is_transaction,
  is_update, is_idle, job_fits, do_async_read-IsOk,
}
use proto_relay.Pop3.Commands.KeptHandlers.{reply_job-IsOk}
use proto_relay.Pop3.Commands.Safe.{dispatch-IsOk, violate-IsOk, received-IsOk, pop3_drain-Drains}

-- An operation in flight has paused the pipeline.
in_flight-paused : (s : Pop3Session) → is_idle s.context.job ≡ false → IsOk s → s.paused ≡ true
in_flight-paused s i h = ground (arith, i, h.waits)

counted-core : (b : Bool) (s : Pop3Session) → core (if b then record_auth_failure s else s) ≡ core s
unfolding record_auth_failure
counted-core true s = refl
counted-core false s = refl

login_failed-IsOk :
    (v : Server) (reply : Bytes) (counts : Bool) (s : Pop3Session)
    → is_authorization s.state ≡ true
    → s.paused ≡ true
    → IsOk s
    → IsOk (login_failed v reply counts s)
unfolding login_failed
login_failed-IsOk v reply counts s a p h =
    let s1 = if counts then record_auth_failure s else s in
    let e = counted-core counts s in
    let h1 = keep {s = s} {s' = s1} e h in
    if_Ok (s.closed || length reply == 0) h (
      if_Ok (counts && too_many_failures v.max_auth_attempts s1)
        (close_after_flush-IsOk _
          (send_line-IsOk (codes "-ERR Too many auth failures, closing connection") s1 h1))
        (reply_job-IsOk (Job.finishing none) reply s1
          (ap (λ c. is_authorization c.0 || is_transaction c.0) e ∙ ground (arith, a))
          (ap (λ c. c.2) e ∙ p) h1))

install-IsOk :
    (user inbox shard : ℕ) (messages : List Message) (sid : Bytes) (s : Pop3Session)
    → is_authorization s.state ≡ true
    → s.paused ≡ true
    → IsOk s
    → IsOk (install user inbox shard messages sid s)
unfolding install
install-IsOk user inbox shard messages sid s a p h =
    let c = record s.context {
      is_authenticated = true;
      user_id = user;
      mailbox_id = inbox;
      shard_index = shard;
      messages = messages;
      deleted = [];
      session_id = sid;
      dropped = false;
      heartbeat = true;
    } in
    if_Ok s.closed (emit-IsOk _ s h) (
      reply_job-IsOk (Job.finishing (some Pop3State.transaction)) _ (record s { context = c })
        (ground (arith, a)) p
        (record {
          logged = ground arith;
          job = job_fits-true s.state s.context.is_authenticated s.context.job h.job;
          waits = h.waits;
          sound = h.sound;
          known = tt;
        }))
  where
    job_fits-true :
        (st : Pop3State) (b : Bool) (j : Job) → job_fits st b j ≡ true → job_fits st true j ≡ true
    job_fits-true st b Job.idle k = refl
    job_fits-true st b (Job.login sid) k = k
    job_fits-true st b (Job.retrieving m) k = k
    job_fits-true st b Job.quitting k = k
    job_fits-true st b (Job.finishing none) k = k
    job_fits-true st b (Job.finishing (some t)) k = ground (arith, k)
    job_fits-true st b (Job.finishing_closing t) k = k

finish_login-IsOk :
    (v : Server) (sid : Bytes) (r : Ending) (s : Pop3Session)
    → is_authorization s.state ≡ true
    → s.paused ≡ true
    → IsOk s
    → IsOk (finish_login v sid r s)
unfolding finish_login release_held emit
finish_login-IsOk v sid (failed reply counts none) s a p h =
    login_failed-IsOk v reply counts s a p h
finish_login-IsOk v sid (failed reply counts (some user)) s a p h =
    login_failed-IsOk v reply counts _ a p
      (emit-IsOk (Effect.operation (Op.release_lock user sid)) s h)
finish_login-IsOk v sid (loaded user inbox shard messages) s a p h =
    install-IsOk user inbox shard messages sid s a p h

-- The job that a session has fits its state.
has_job :
    (s : Pop3Session) (job : Job)
    → s.context.job ≡ job
    → IsOk s
    → job_fits s.state s.context.is_authenticated job ≡ true
has_job s job e h = sym (ap (λ j. job_fits s.state s.context.is_authenticated j) e) ∙ h.job

login_done-IsOk :
    (v : Server) (a : Answers) (job : Job) (s : Pop3Session)
    → s.context.job ≡ job
    → IsOk s
    → IsOk (login_done v a job s)
unfolding login_done
login_done-IsOk v a (Job.login sid) s e h =
    finish_login-IsOk v sid (run_login a) s (has_job s _ e h) (in_flight-paused s (ap is_idle e) h)
      h
login_done-IsOk v a _ s e h = h

retr_done-IsOk :
    (body : Option Bytes) (job : Job) (s : Pop3Session)
    → s.context.job ≡ job
    → IsOk s
    → IsOk (retr_done body job s)
unfolding retr_done finish_retr
retr_done-IsOk none (Job.retrieving m) s e h = if_Ok s.closed h (
    reply_job-IsOk (Job.finishing none) _ s (ground (arith, has_job s (Job.retrieving m) e h))
      (in_flight-paused s (ap is_idle e) h) h)
retr_done-IsOk (some body) (Job.retrieving m) s e h = if_Ok s.closed h (
    reply_job-IsOk (Job.finishing none) _ s (ground (arith, has_job s (Job.retrieving m) e h))
      (in_flight-paused s (ap is_idle e) h) h)
retr_done-IsOk body _ s e h = h

finish_quit-IsOk :
    (r : Bool × Bool) (s : Pop3Session)
    → (is_authorization s.state || is_transaction s.state) ≡ true
    → s.paused ≡ true
    → IsOk s
    → IsOk (finish_quit r s)
unfolding finish_quit
finish_quit-IsOk (true, true) s f p h = if_Ok s.closed h (
    close_after_flush-IsOk _ (
      reply_job-IsOk (Job.finishing_closing Pop3State.update) (codes "+OK Bye")
        (record s { clean_close = true }) f p (keep refl h)))
finish_quit-IsOk (true, false) s f p h =
    if_Ok s.closed h
      (close_after_flush-IsOk _ (reply_job-IsOk (Job.finishing_closing Pop3State.update) _ s f p h))
finish_quit-IsOk (false, released) s f p h =
    if_Ok s.closed h
      (close_after_flush-IsOk _ (reply_job-IsOk (Job.finishing_closing Pop3State.update) _ s f p h))

quit_done-IsOk :
    (a : QuitAnswers) (job : Job) (s : Pop3Session)
    → s.context.job ≡ job
    → IsOk s
    → IsOk (quit_done a job s)
unfolding quit_done
quit_done-IsOk a Job.quitting s e h =
    finish_quit-IsOk (run_quit a) s (has_job s _ e h) (in_flight-paused s (ap is_idle e) h) h
quit_done-IsOk a _ s e h = h

-- The table has the transitions that the operations finish with.
login_passes :
    (st t : Pop3State)
    → is_authorization st ≡ true
    → is_transaction t ≡ true
    → passes_strict make_pop3_desc st t ≡ true
unfolding passes_strict has_row leads_to make_pop3_desc
login_passes Pop3State.authorization Pop3State.transaction a b = refl
login_passes Pop3State.authorization _ a b = ground (arith, b)
login_passes _ t a b = ground (arith, a)

update_passes :
    (st t : Pop3State)
    → (is_authorization st || is_transaction st) ≡ true
    → is_update t ≡ true
    → passes_strict make_pop3_desc st t ≡ true
unfolding passes_strict has_row leads_to make_pop3_desc
update_passes Pop3State.authorization Pop3State.update a b = refl
update_passes Pop3State.transaction Pop3State.update a b = refl
update_passes Pop3State.authorization _ a b = ground (arith, b)
update_passes Pop3State.transaction _ a b = ground (arith, b)
update_passes _ t a b = ground (arith, a)

update-transaction : (t : Pop3State) → is_update t ≡ true → is_transaction t ≡ false
update-transaction Pop3State.update b = refl
update-transaction _ b = ground (arith, b)

released-IsOk : (s : Pop3Session) → IsOk s → IsOk (set_job Job.idle s)
unfolding set_job
released-IsOk s h = record {
  logged = h.logged;
  job = refl;
  waits = refl;
  sound = h.sound;
  known = h.known;
}

run_finish-IsOk :
    (v : Server) (job : Job) (s : Pop3Session)
    → s.context.job ≡ job
    → IsOk s
    → IsOk (run_finish v job s)
unfolding run_finish set_job
run_finish-IsOk v (Job.finishing none) s e h =
    let r = released-IsOk s h in
    settle-IsOk v (pop3_drain v) none _ (pop3_drain-Drains v) refl (resume-IsOk v _ refl r) r
run_finish-IsOk v (Job.finishing (some t)) s e h =
    let f = has_job s (Job.finishing (some t)) e h in
    let r = released-IsOk s h in
    settle-IsOk v (pop3_drain v) (some t) _ (pop3_drain-Drains v) refl
      (enter-IsOk v t _ (login_passes s.state t (ground (arith, f)) (ground (arith, f))) refl
        (ground (arith, f)) r)
      r
run_finish-IsOk v (Job.finishing_closing t) s e h =
    let f = has_job s (Job.finishing_closing t) e h in
    settle_closing-IsOk v t _ (update_passes s.state t (ground (arith, f)) (ground (arith, f))) refl
      (ground (arith, update-transaction t (ground (arith, f)))) (released-IsOk s h)
run_finish-IsOk v _ s e h = h

heartbeat-IsOk : (owned : Bool) (s : Pop3Session) → IsOk s → IsOk (heartbeat owned s)
unfolding heartbeat
heartbeat-IsOk owned s h =
    if_Ok (s.closed || (s.context.dropped || not s.context.heartbeat)) h
      (if_Ok owned h (close-IsOk s h))

nothing_initial : (a : Bool) (j : Job) → job_fits Pop3State.initial a j ≡ true → is_idle j ≡ true
nothing_initial a Job.idle f = refl
nothing_initial a (Job.finishing none) f = ground (arith, f)
nothing_initial a (Job.finishing (some t)) f = ground (arith, f)
nothing_initial a (Job.finishing_closing t) f = ground (arith, f)
nothing_initial a (Job.login sid) f = ground (arith, f)
nothing_initial a (Job.retrieving m) f = ground (arith, f)
nothing_initial a Job.quitting f = ground (arith, f)

-- Only INIT has a row for CONNECT, and nothing is in flight there.
no_connect :
    (st : Pop3State) (a : Bool) (j : Job)
    → is_idle j ≡ false
    → job_fits st a j ≡ true
    → guard_target make_pop3_desc st Pop3Event.connect_event ≡ none
unfolding guard_target find_row make_pop3_desc
no_connect Pop3State.initial a j i f = ground (arith, i, nothing_initial a j f)
no_connect Pop3State.authorization a j i f = refl
no_connect Pop3State.transaction a j i f = refl
no_connect Pop3State.update a j i f = refl
no_connect Pop3State.closing a j i f = refl

connected-IsOk :
    (v : Server) (b : Bool) (s : Pop3Session)
    → is_idle s.context.job ≡ b
    → IsOk s
    → IsOk (dispatch (pop3_engine v) (pop3_drain v) Pop3Event.connect_event s)
unfolding dispatch guard_then pop3_engine bare_engine
connected-IsOk v true s i h =
    dispatch-IsOk v (pop3_drain v) Pop3Event.connect_event s (pop3_drain-Drains v) i h
connected-IsOk v false s i h =
    rw (no_connect s.state s.context.is_authenticated s.context.job i h.job) (
      if_Ok s.closed h (
        if_Ok (is_terminal make_pop3_desc s.state) (close-IsOk s h)
          (violate-IsOk v Pop3Event.connect_event s h)))

pub step-IsOk : (v : Server) (e : Event) (s : Pop3Session) → IsOk s → IsOk (step v e s)
unfolding step
step-IsOk v connected s h = connected-IsOk v (is_idle s.context.job) s refl h
step-IsOk v (on_read bytes) s h = received-IsOk v bytes s h
step-IsOk v read_failed s h = close-IsOk s h
step-IsOk v on_written s h = do_async_read-IsOk s h
step-IsOk v write_failed s h = close-IsOk s h
step-IsOk v (on_login a) s h = login_done-IsOk v a s.context.job s refl h
step-IsOk v (on_body body) s h = retr_done-IsOk body s.context.job s refl h
step-IsOk v (on_quit a) s h = quit_done-IsOk a s.context.job s refl h
step-IsOk v on_finish s h = run_finish-IsOk v s.context.job s refl h
step-IsOk v on_close s h = close-IsOk s h
step-IsOk v (on_heartbeat owned) s h = heartbeat-IsOk owned s h

run-IsOk-from : (es : List (Server × Event)) (s : Pop3Session) → IsOk s → IsOk (run es s)
unfolding run
run-IsOk-from [] s h = h
run-IsOk-from ((v, e) ∷ es) s h = run-IsOk-from es (step v e s) (step-IsOk v e s h)

-- Whatever happens to a new session, in whatever order: in TRANSACTION the user is authenticated;
-- an operation that has not finished stands in a state that it may be started in, and the pipeline
-- is paused; no strict check fails; and only messages of the mailbox are marked as deleted.
pub run-IsOk : (es : List (Server × Event)) → IsOk (run es new_session)
unfolding new_session new_context
run-IsOk es =
    run-IsOk-from es new_session
      (record { logged = refl; job = refl; waits = refl; sound = refl; known = tt })

-- ===== src/Pop3/Commands/Kept.antt =====
-- include/mail_system/back/mailServer/fsm/pop3/traditional_pop3_fsm.tpp: what every operation of a POP3
-- session keeps.
use proto_relay.Base.{
  ℕ, ◌+◌, ◌≡◌, refl, ap, ◌∙◌, arith, Bool, true, false, ◌&&◌, ◌||◌, not, Option, none, some, List,
  [], ◌∷◌, length, ltb, ◌==◌, if◌then◌else◌, Bytes, All,
}
use proto_relay.Fsm.Pop3.{Pop3State, make_pop3_desc}
use proto_relay.Fsm.Session.{
  Effect, emit, do_async_read, do_async_write, close, close_after_flush, has_line, flush_pending,
  drain,
}
use proto_relay.Fsm.Engine.{
  settle, settle_closing, enter, unpause, rearm_read, write_optional, write_reply,
  check_strict_guard, passes_strict, bump_error_budget,
}
use proto_relay.Pop3.{Pop3Session, Context, Message, Job, Op, pop3_state_key, pop3_event_key}
use proto_relay.Pop3.Handlers.{Server, Drain, bare_engine, send_line}

abbrev pub is_authorization : Pop3State → Bool
is_authorization Pop3State.authorization = true
is_authorization _ = false

abbrev pub is_transaction : Pop3State → Bool
is_transaction Pop3State.transaction = true
is_transaction _ = false

abbrev pub is_update : Pop3State → Bool
is_update Pop3State.update = true
is_update _ = false

abbrev pub is_idle : Job → Bool
is_idle Job.idle = true
is_idle _ = false

-- Where an operation that has not finished may have been started.
abbrev pub job_fits : Pop3State → Bool → Job → Bool
job_fits s a Job.idle = true
job_fits s a (Job.login sid) = is_authorization s
job_fits s a (Job.retrieving m) = is_transaction s
job_fits s a Job.quitting = is_authorization s || is_transaction s
job_fits s a (Job.finishing none) = is_authorization s || is_transaction s
job_fits s a (Job.finishing (some t)) = is_transaction t && (is_authorization s && a)
job_fits s a (Job.finishing_closing t) = is_update t && (is_authorization s || is_transaction s)

abbrev pub has_id : ℕ → List Message → Bool
has_id id [] = false
has_id id (m ∷ ms) = m.mail_id == id || has_id id ms

-- In TRANSACTION the user is authenticated; an operation that runs stands in a state that it may
-- be started in, and the pipeline is paused; no strict check has failed; and only messages of the
-- mailbox are marked as deleted.
pub record IsOk (s : Pop3Session) : Type 0 where
  pub logged : (not (is_transaction s.state) || s.context.is_authenticated) ≡ true
  pub job : job_fits s.state s.context.is_authenticated s.context.job ≡ true
  pub waits : (is_idle s.context.job || s.paused) ≡ true
  pub sound : s.aborted ≡ false
  pub known : All (λ d. has_id d s.context.messages ≡ true) s.context.deleted

-- The part of a session that the invariant reads.
abbrev pub core : Pop3Session → Pop3State × Context × Bool × Bool
core s = (s.state, s.context, s.paused, s.aborted)

pub keep : {s s' : Pop3Session} → core s' ≡ core s → IsOk s → IsOk s'
keep {s} {s'} e h = record {
  logged = ap (λ c. not (is_transaction c.0) || c.1.is_authenticated) e ∙ h.logged;
  job = ap (λ c. job_fits c.0 c.1.is_authenticated c.1.job) e ∙ h.job;
  waits = ap (λ c. is_idle c.1.job || c.2) e ∙ h.waits;
  sound = ap (λ c. c.3) e ∙ h.sound;
  known = rw (ap (λ c. c.1) e) h.known;
}

pub if_Ok : {s1 s2 : Pop3Session} (b : Bool) → IsOk s1 → IsOk s2 → IsOk (if b then s1 else s2)
if_Ok true h k = h
if_Ok false h k = k

pub emit-IsOk : (x : Effect Op) (s : Pop3Session) → IsOk s → IsOk (emit x s)
unfolding emit
emit-IsOk x s h = keep refl h

pub do_async_read-IsOk : (s : Pop3Session) → IsOk s → IsOk (do_async_read s)
unfolding do_async_read
do_async_read-IsOk s h = if_Ok (s.closed || has_line s.buffer) h (emit-IsOk _ s h)

pub do_async_write-IsOk : (text : Bytes) (s : Pop3Session) → IsOk s → IsOk (do_async_write text s)
unfolding do_async_write emit
do_async_write-IsOk text s h =
    if_Ok s.closed h (if_Ok (has_line s.buffer) (keep refl h) (keep refl h))

pub send_line-IsOk : (text : Bytes) (s : Pop3Session) → IsOk s → IsOk (send_line text s)
unfolding send_line
send_line-IsOk text s h = do_async_write-IsOk _ s h

pub write_reply-IsOk : (text : Bytes) (s : Pop3Session) → IsOk s → IsOk (write_reply text s)
unfolding write_reply
write_reply-IsOk [] s h = h
write_reply-IsOk (c ∷ cs) s h = if_Ok s.closed h (do_async_write-IsOk _ s h)

flush_pending-IsOk : (s : Pop3Session) → IsOk s → IsOk (flush_pending s)
unfolding flush_pending emit
flush_pending-IsOk s h = if_Ok (length s.pending_write == 0) h (keep refl h)

pub close-IsOk : (s : Pop3Session) → IsOk s → IsOk (close s)
unfolding close
close-IsOk s h =
    if_Ok s.closed h (emit-IsOk _ _ (flush_pending-IsOk (record s { closed = true }) (keep refl h)))

pub close_after_flush-IsOk : (s : Pop3Session) → IsOk s → IsOk (close_after_flush s)
unfolding close_after_flush
close_after_flush-IsOk s h = if_Ok s.closed h (emit-IsOk _ s h)

pub bump_error_budget-IsOk :
    (budget : ℕ) (s : Pop3Session) → IsOk s → IsOk (bump_error_budget budget s)
unfolding bump_error_budget
bump_error_budget-IsOk budget s h =
    let s' = record s { stay_times = s.stay_times + 1 } in
    if_Ok (budget == 0) h (
      if_Ok (ltb (s.stay_times + 1) budget) (keep {s = s} {s' = s'} refl h)
        (close_after_flush-IsOk s' (keep refl h)))

pub idle_fits : (s : Pop3State) (a : Bool) (j : Job) → is_idle j ≡ true → job_fits s a j ≡ true
idle_fits s a Job.idle h = refl
idle_fits s a _ h = ground (arith, h)

-- Where the strict check passes, it does nothing.
check_strict_guard-same :
    (v : Server) (target : Pop3State) (s : Pop3Session)
    → passes_strict make_pop3_desc s.state target ≡ true
    → check_strict_guard (bare_engine v) target s ≡ s
unfolding check_strict_guard bare_engine
check_strict_guard-same v target s p = ground (arith, p)

-- The state is written, with no operation in flight.
pub enter-IsOk :
    (v : Server) (target : Pop3State) (s : Pop3Session)
    → passes_strict make_pop3_desc s.state target ≡ true
    → is_idle s.context.job ≡ true
    → (not (is_transaction target) || s.context.is_authenticated) ≡ true
    → IsOk s
    → IsOk (unpause (bare_engine v) (enter (bare_engine v) (some target) s))
unfolding enter unpause
enter-IsOk v target s p i a h = rw (check_strict_guard-same v target s p) (record {
  logged = a;
  job = idle_fits target s.context.is_authenticated s.context.job i;
  waits = ground (arith, i);
  sound = h.sound;
  known = h.known;
})

pub resume-IsOk :
    (v : Server) (s : Pop3Session)
    → is_idle s.context.job ≡ true
    → IsOk s
    → IsOk (unpause (bare_engine v) (enter (bare_engine v) none s))
unfolding enter unpause
resume-IsOk v s i h = record {
  logged = h.logged;
  job = h.job;
  waits = ground (arith, i);
  sound = h.sound;
  known = h.known;
}

pub settle_closing-IsOk :
    (v : Server) (target : Pop3State) (s : Pop3Session)
    → passes_strict make_pop3_desc s.state target ≡ true
    → is_idle s.context.job ≡ true
    → (not (is_transaction target) || s.context.is_authenticated) ≡ true
    → IsOk s
    → IsOk (settle_closing (bare_engine v) (some target) s)
unfolding settle_closing
settle_closing-IsOk v target s p i a h = if_Ok s.closed h (enter-IsOk v target s p i a h)

-- What a drain keeps when no operation is in flight.
abbrev pub Drains : Drain → Type 0
Drains drain = (s : Pop3Session) → is_idle s.context.job ≡ true → IsOk s → IsOk (drain s)

rearm_read-IsOk : (v : Server) (s : Pop3Session) → IsOk s → IsOk (rearm_read (bare_engine v) s)
unfolding rearm_read
rearm_read-IsOk v s h = if_Ok s.paused h (do_async_read-IsOk s h)

-- Entering a state leaves the operations.
job_kept :
    (v : Server) (target : Option Pop3State) (s : Pop3Session)
    → is_idle s.context.job ≡ true
    → is_idle (unpause (bare_engine v) (enter (bare_engine v) target s)).context.job ≡ true
unfolding enter unpause check_strict_guard
job_kept v none s i = i
job_kept v (some target) s i = ground (arith, i)

pub settle-IsOk :
    (v : Server) (drain : Drain) (target : Option Pop3State) (s : Pop3Session)
    → Drains drain
    → is_idle s.context.job ≡ true
    → IsOk (unpause (bare_engine v) (enter (bare_engine v) target s))
    → IsOk s
    → IsOk (settle (bare_engine v) drain target none s)
unfolding settle write_optional
settle-IsOk v drain target s d i e h =
    if_Ok s.closed h (rearm_read-IsOk v _ (d _ (job_kept v target s i) e))

-- ===== src/Pop3/Commands/Shorter.antt =====
-- include/mail_system/back/mailServer/fsm/pop3/traditional_pop3_fsm.tpp: the steps of the
-- handlers put nothing back into the buffer.
use proto_relay.Base.{
  ℕ, ◌+◌, ◌≤◌, ◌≡◌, refl, Bool, true, false, ◌&&◌, ◌||◌, not, Option, none, some, [], ◌∷◌, length,
  ltb, ◌==◌, if◌then◌else◌, Bytes,
}
use proto_relay.Fsm.Pop3.{Pop3State}
use proto_relay.Fsm.Session.{
  Effect, emit, do_async_read, do_async_write, flush_pending, close, close_after_flush, has_line,
}
use proto_relay.Fsm.Engine.{
  settle_closing, enter, unpause, check_strict_guard, write_reply, bump_error_budget, passes_strict,
}
use proto_relay.Pop3.{Pop3Session, Job, Op, pop3_state_key, pop3_event_key}
use proto_relay.Pop3.Handlers.{Server, bare_engine, send_line, set_job, begin_transition}

-- The buffer has so many bytes at most.
pub record Within (n : ℕ) (s : Pop3Session) : Type 0 where
  pub fits : length s.buffer ≤ n

pub as_long : (n : ℕ) {s s' : Pop3Session} → s'.buffer ≡ s.buffer → Within n s → Within n s'
as_long n e h = record { fits = rw e h.fits }

pub if_Within :
    (n : ℕ) {s1 s2 : Pop3Session} (b : Bool)
    → Within n s1
    → Within n s2
    → Within n (if b then s1 else s2)
if_Within n true h k = h
if_Within n false h k = k

module _ (n : ℕ) where
  pub emit-Within : (x : Effect Op) (s : Pop3Session) → Within n s → Within n (emit x s)
  unfolding emit
  emit-Within x s h = as_long n refl h

  pub do_async_write-Within :
      (text : Bytes) (s : Pop3Session) → Within n s → Within n (do_async_write text s)
  unfolding do_async_write emit
  do_async_write-Within text s h =
      if_Within n s.closed h (if_Within n (has_line s.buffer) (as_long n refl h) (as_long n refl h))

  pub send_line-Within : (text : Bytes) (s : Pop3Session) → Within n s → Within n (send_line text s)
  unfolding send_line
  send_line-Within text s h = do_async_write-Within _ s h

  pub write_reply-Within :
      (text : Bytes) (s : Pop3Session) → Within n s → Within n (write_reply text s)
  unfolding write_reply
  write_reply-Within [] s h = h
  write_reply-Within (c ∷ cs) s h = if_Within n s.closed h (do_async_write-Within _ s h)

  pub do_async_read-Within : (s : Pop3Session) → Within n s → Within n (do_async_read s)
  unfolding do_async_read
  do_async_read-Within s h = if_Within n (s.closed || has_line s.buffer) h (emit-Within _ s h)

  pub close_after_flush-Within : (s : Pop3Session) → Within n s → Within n (close_after_flush s)
  unfolding close_after_flush
  close_after_flush-Within s h = if_Within n s.closed h (emit-Within _ s h)

  pub close-Within : (s : Pop3Session) → Within n s → Within n (close s)
  unfolding close flush_pending emit
  close-Within s h = if_Within n s.closed h (
      emit-Within _ _
        (if_Within n (length s.pending_write == 0) (as_long n refl h) (as_long n refl h)))

  pub bump_error_budget-Within :
      (budget : ℕ) (s : Pop3Session) → Within n s → Within n (bump_error_budget budget s)
  unfolding bump_error_budget
  bump_error_budget-Within budget s h =
      let s' = record s { stay_times = s.stay_times + 1 } in
      let h' : Within n s' = as_long n refl h in
      if_Within n (budget == 0) h
        (if_Within n (ltb (s.stay_times + 1) budget) h' (close_after_flush-Within s' h'))

  pub set_job-Within : (job : Job) (s : Pop3Session) → Within n s → Within n (set_job job s)
  unfolding set_job
  set_job-Within job s h = as_long n refl h

  pub begin_transition-Within :
      (job : Job) (s : Pop3Session) → Within n s → Within n (begin_transition job s)
  unfolding begin_transition set_job
  begin_transition-Within job s h = as_long n refl h

  pub check_strict_guard-Within :
      (v : Server) (target : Pop3State) (s : Pop3Session)
      → Within n s
      → Within n (check_strict_guard (bare_engine v) target s)
  unfolding check_strict_guard
  check_strict_guard-Within v target s h =
      if_Within n
        ((bare_engine v).strict && not (passes_strict (bare_engine v).desc s.state target))
        (as_long n refl h) h

  pub enter-Within :
      (v : Server) (target : Option Pop3State) (s : Pop3Session)
      → Within n s
      → Within n (unpause (bare_engine v) (enter (bare_engine v) target s))
  unfolding enter unpause
  enter-Within v none s h = as_long n refl h
  enter-Within v (some t) s h = as_long n refl (check_strict_guard-Within v t s h)

  pub settle_closing-Within :
      (v : Server) (target : Option Pop3State) (s : Pop3Session)
      → Within n s
      → Within n (settle_closing (bare_engine v) target s)
  unfolding settle_closing
  settle_closing-Within v target s h = if_Within n s.closed h (enter-Within v target s h)

-- ===== src/Pop3/Commands/ShorterTable.antt =====
-- include/mail_system/back/mailServer/fsm/pop3/traditional_pop3_fsm.tpp: the handlers and the dispatch of
-- an event put nothing back into the buffer.
use proto_relay.Base.{
  ℕ, ◌≡◌, refl, sym, arith, Bool, true, false, ◌&&◌, not, Option, none, some, List, [], ◌∷◌, length,
  ◌==◌, if◌then◌else◌, All,
}
use proto_relay.Fsm.{is_terminal}
use proto_relay.Fsm.Pop3.{Pop3State, Pop3Event}
use proto_relay.Fsm.Engine.{
  Entry, settle, enter, unpause, rearm_read, write_optional, write_reply, violate, reject_missing,
  guarded, run_handler, guard_then, dispatch, find_handler, or_else,
}
use proto_relay.Pop3.Listing.{marked}
use proto_relay.Pop3.{Pop3Session, Context, Job, Message, Op, pop3_state_key, pop3_event_key}
use proto_relay.Pop3.Handlers.{
  Server, Drain, bare_engine, pop3_engine, pop3_handlers, handle_init_connect, handle_capa,
  handle_user, handle_pass, handle_stat, handle_list, handle_uidl, start_retr, handle_retr,
  mark_deleted, delete_found, handle_dele, handle_noop, handle_rset, handle_quit, handle_error,
}
use proto_relay.Pop3.Commands.Shorter.{
  Within, as_long, if_Within, emit-Within, send_line-Within, write_reply-Within,
  do_async_read-Within, close_after_flush-Within, close-Within, bump_error_budget-Within,
  set_job-Within, begin_transition-Within, enter-Within, settle_closing-Within,
}

module _ (n : ℕ) where
  handle_user-Within : (s : Pop3Session) → Within n s → Within n (handle_user s)
  unfolding handle_user
  handle_user-Within s h =
      if_Within n (length s.last_args == 0) (send_line-Within n _ s h)
        (send_line-Within n _ _ (as_long n refl h))

  handle_pass-Within : (v : Server) (s : Pop3Session) → Within n s → Within n (handle_pass v s)
  unfolding handle_pass
  handle_pass-Within v s h =
      if_Within n (not s.context.is_authenticated && length s.context.username == 0)
        (send_line-Within n _ s h)
        (if_Within n (length s.last_args == 0) (send_line-Within n _ s h)
          (emit-Within n _ _ (begin_transition-Within n _ s h)))

  start_retr-Within :
      (v : Server) (o : Option Message) (s : Pop3Session) → Within n s → Within n (start_retr v o s)
  unfolding start_retr
  start_retr-Within v none s h = send_line-Within n _ s h
  start_retr-Within v (some m) s h =
      let b = begin_transition-Within n (Job.retrieving m) s h in
      if_Within n v.has_worker (emit-Within n _ _ b)
        (set_job-Within n _ _ (send_line-Within n _ _ b))

  handle_retr-Within : (v : Server) (s : Pop3Session) → Within n s → Within n (handle_retr v s)
  unfolding handle_retr
  handle_retr-Within v s h =
      if_Within n (length s.last_args == 0) (send_line-Within n _ s h) (start_retr-Within v _ s h)

  delete_found-Within :
      (k : ℕ) (o : Option Message) (s : Pop3Session) → Within n s → Within n (delete_found k o s)
  unfolding delete_found mark_deleted
  delete_found-Within k none s h = send_line-Within n _ s h
  delete_found-Within k (some m) s h =
      if_Within n (marked m.mail_id s.context.deleted) (send_line-Within n _ s h)
        (send_line-Within n _ _ (as_long n refl h))

  handle_dele-Within : (s : Pop3Session) → Within n s → Within n (handle_dele s)
  unfolding handle_dele
  handle_dele-Within s h =
      if_Within n (length s.last_args == 0) (send_line-Within n _ s h) (delete_found-Within _ _ s h)

  handle_quit-Within : (v : Server) (s : Pop3Session) → Within n s → Within n (handle_quit v s)
  unfolding handle_quit
  handle_quit-Within v s h =
      if_Within n (not s.context.is_authenticated)
        (close_after_flush-Within n _
          (send_line-Within n _ _ (settle_closing-Within n v _ _ (as_long n refl h))))
        (emit-Within n _ _ (
          begin_transition-Within n Job.quitting
            (record s { context = record s.context { dropped = true; heartbeat = false } })
            (as_long n refl h)))

  handle_error-Within : (s : Pop3Session) → Within n s → Within n (handle_error s)
  unfolding handle_error
  handle_error-Within s h = if_Within n s.closed h (send_line-Within n _ s h)

  -- A drain leaves no more in the buffer than there was.
  abbrev pub Shrinks : Drain → Type 0
  Shrinks onward = (s : Pop3Session) → Within n s → Within n (onward s)

  settle-Within :
      (v : Server) (onward : Drain) (target : Option Pop3State) (s : Pop3Session)
      → Shrinks onward
      → Within n s
      → Within n (settle (bare_engine v) onward target none s)
  unfolding settle write_optional rearm_read
  settle-Within v onward target s d h =
      let s' = onward (unpause (bare_engine v) (enter (bare_engine v) target s)) in
      let h' : Within n s' = d _ (enter-Within n v target s h) in
      if_Within n s.closed h (if_Within n s'.paused h' (do_async_read-Within n s' h'))

  handle_init_connect-Within :
      (v : Server) (onward : Drain) (s : Pop3Session)
      → Shrinks onward
      → Within n s
      → Within n (handle_init_connect v onward s)
  unfolding handle_init_connect
  handle_init_connect-Within v onward s d h =
      settle-Within v onward (some Pop3State.authorization) _ d (send_line-Within n _ s h)

  -- What a handler of the table does to the buffer.
  record Shrunk (e : Entry Pop3State Pop3Event Context Op) : Type 0 where
    shrinks :
        (onward : Drain) (s : Pop3Session)
        → Shrinks onward
        → Within n s
        → Within n (e.run onward s).0

  pop3_handlers-Shrunk : (v : Server) → All Shrunk (pop3_handlers v)
  unfolding pop3_handlers handle_capa handle_noop handle_stat handle_list handle_uidl handle_rset
  pop3_handlers-Shrunk v = (
    record { shrinks = handle_init_connect-Within v },
    (
      record { shrinks = λ d s k h. handle_user-Within s h },
      (
        record { shrinks = λ d s k h. handle_pass-Within v s h },
        (
          record { shrinks = λ d s k h. send_line-Within n _ s h },
          (
            record { shrinks = λ d s k h. send_line-Within n _ s h },
            (
              record { shrinks = λ d s k h. handle_quit-Within v s h },
              (
                record { shrinks = λ d s k h. send_line-Within n _ s h },
                (
                  record { shrinks = λ d s k h. send_line-Within n _ s h },
                  (
                    record { shrinks = λ d s k h. send_line-Within n _ s h },
                    (
                      record { shrinks = λ d s k h. handle_retr-Within v s h },
                      (
                        record { shrinks = λ d s k h. handle_dele-Within s h },
                        (
                          record { shrinks = λ d s k h. send_line-Within n _ s h },
                          (
                            record {
                              shrinks = λ d s k h. send_line-Within n _ _ (as_long n refl h);
                            },
                            (
                              record { shrinks = λ d s k h. send_line-Within n _ s h },
                              (
                                record { shrinks = λ d s k h. handle_quit-Within v s h },
                                (
                                  record { shrinks = λ d s k h. handle_error-Within s h },
                                  (
                                    record { shrinks = λ d s k h. handle_error-Within s h },
                                    (
                                      record { shrinks = λ d s k h. handle_error-Within s h },
                                      (record { shrinks = λ d s k h. handle_error-Within s h }, tt),
                                    ),
                                  ),
                                ),
                              ),
                            ),
                          ),
                        ),
                      ),
                    ),
                  ),
                ),
              ),
            ),
          ),
        ),
      ),
    ),
  )

  find_handler-Shrunk :
      (hs : List (Entry Pop3State Pop3Event Context Op))
      → All Shrunk hs
      → (state : Pop3State) (event : Pop3Event) (h : Entry Pop3State Pop3Event Context Op)
      → find_handler state event hs ≡ some h
      → Shrunk h
  unfolding find_handler
  find_handler-Shrunk [] a state event h e = ground (arith, e)
  find_handler-Shrunk (x ∷ xs) a state event h e =
      found (pop3_state_key.beq x.from state && pop3_event_key.beq x.on event)
        (find_handler-Shrunk xs a.1 state event h) e
    where
      found :
          (b : Bool)
          → (find_handler state event xs ≡ some h → Shrunk h)
          → (if b then some x else find_handler state event xs) ≡ some h
          → Shrunk h
      found true later r = let same : x ≡ h = cc r in rw (sym same) a.0
      found false later r = later r

  guarded-Within :
      (v : Server) (event : Pop3Event) (r : Pop3Session × Bool)
      → Within n r.0
      → Within n (guarded (pop3_engine v) event r)
  unfolding guarded
  guarded-Within v event (s, true) h = h
  guarded-Within v event (s, false) h = write_reply-Within n _ s h

  run_handler-Within :
      (v : Server) (onward : Drain) (event : Pop3Event) (s : Pop3Session)
      (o : Option (Entry Pop3State Pop3Event Context Op))
      → find_handler s.state event (pop3_handlers v) ≡ o
      → Shrinks onward
      → Within n s
      → Within n (run_handler (pop3_engine v) onward event o s)
  unfolding run_handler reject_missing pop3_engine bare_engine
  run_handler-Within v onward event s none e d h =
      let g = pop3_engine v in
      let text = or_else (g.missing_text s event) g.desc.error_reply in
      bump_error_budget-Within n g.desc.error_budget (write_reply text s)
        (write_reply-Within n text s h)
  run_handler-Within v onward event s (some x) e d h = guarded-Within v event (x.run onward s) (
      (find_handler-Shrunk (pop3_handlers v) (pop3_handlers-Shrunk v) s.state event x e).shrinks
        onward s d h)

  guard_then-Within :
      (v : Server) (onward : Drain) (event : Pop3Event) (row : Option (Option Pop3State))
      (s : Pop3Session)
      → Shrinks onward
      → Within n s
      → Within n (guard_then (pop3_engine v) onward event row s)
  unfolding guard_then violate pop3_engine bare_engine
  guard_then-Within v onward event none s d h =
      let g = pop3_engine v in
      let text = or_else (g.violation_text s event) g.desc.error_reply in
      bump_error_budget-Within n g.desc.error_budget (write_reply text s)
        (write_reply-Within n text s h)
  guard_then-Within v onward event (some row) s d h = run_handler-Within v onward event s _ refl d h

  pub dispatch-Within :
      (v : Server) (onward : Drain) (event : Pop3Event) (s : Pop3Session)
      → Shrinks onward
      → Within n s
      → Within n (dispatch (pop3_engine v) onward event s)
  unfolding dispatch
  dispatch-Within v onward event s d h = if_Within n s.closed h (
      if_Within n (is_terminal (pop3_engine v).desc s.state) (close-Within n s h)
        (guard_then-Within v onward event _ s d h))

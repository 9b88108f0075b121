-- ===== src/Pop3/Commands/Safe.antt =====
-- include/mail_system/back/mailServer/fsm/pop3/traditional_pop3_fsm.tpp: the invariant of a session
-- through the dispatch of an event and the loops that drain the buffer.
use proto_relay.Base.{
  ℕ, zero, suc, ◌≡◌, refl, sym, ap, ◌∙◌, arith, Bool, true, false, ◌&&◌, not, Option, none, some,
  List, [], ◌∷◌, ◌++◌, length, ltb, ◌==◌, if◌then◌else◌, Bytes, All,
}
use proto_relay.Fsm.{is_terminal}
use proto_relay.Fsm.Pop3.{Pop3State, Pop3Event, make_pop3_desc}
use proto_relay.Fsm.Session.{
  has_line, after_drain, drain_loop, drain_with, drain, max_command_buffer, first_line, after_line,
}
use proto_relay.Fsm.Engine.{
  Entry, violate, reject_missing, guarded, run_handler, guard_then, dispatch, find_handler, or_else,
  write_reply,
}
use proto_relay.Pop3.{Pop3Session, Context, Op, pop3_state_key, pop3_event_key}
use proto_relay.Pop3.Handlers.{Server, Drain, bare_engine, pop3_engine, pop3_handlers}
use proto_relay.Pop3.Commands.{parse_command, consume, pop3_drain, read_loop, received}
use proto_relay.Pop3.Commands.Kept.{
  IsOk, core, keep, if_Ok, write_reply-IsOk, close-IsOk, bump_error_budget-IsOk, Drains, is_idle,
  do_async_read-IsOk, do_async_write-IsOk,
}
use proto_relay.Pop3.Commands.KeptTable.{EntryOk, pop3_handlers-Ok}

-- A branch that is taken knows its test.
pub if_taken :
    {s1 s2 : Pop3Session} (b : Bool)
    → ((b ≡ true) → IsOk s1)
    → IsOk s2
    → IsOk (if b then s1 else s2)
if_taken true h k = h refl
if_taken false h k = k

-- A handler that is found is of the table, and stands at the state.
find_handler-Ok :
    (hs : List (Entry Pop3State Pop3Event Context Op))
    → All EntryOk hs
    → (state : Pop3State) (event : Pop3Event) (h : Entry Pop3State Pop3Event Context Op)
    → find_handler state event hs ≡ some h
    → EntryOk h × (h.from ≡ state)
unfolding find_handler
find_handler-Ok [] a state event h e = ground (arith, e)
find_handler-Ok (x ∷ xs) a state event h e =
    found (find_handler-Ok xs a.1 state event h) (pop3_state_key.beq x.from state)
      (pop3_event_key.beq x.on event) refl e
  where
    found :
        (find_handler state event xs ≡ some h → EntryOk h × (h.from ≡ state))
        → (b c : Bool) → pop3_state_key.beq x.from state ≡ b
        → (if b && c then some x else find_handler state event xs) ≡ some h
        → EntryOk h × (h.from ≡ state)
    found later true true q r =
        let same : x ≡ h = cc r in
        (rw (sym same) a.0, ap (λ y. y.from) (sym same) ∙ (pop3_state_key.beq_iff x.from state).0 q)
    found later true false q r = later r
    found later false c q r = later r

pub violate-IsOk :
    (v : Server) (event : Pop3Event) (s : Pop3Session)
    → IsOk s
    → IsOk (violate (pop3_engine v) event s)
unfolding violate pop3_engine bare_engine
violate-IsOk v event s h =
    let g = pop3_engine v in
    let text = or_else (g.violation_text s event) g.desc.error_reply in
    bump_error_budget-IsOk g.desc.error_budget (write_reply text s) (write_reply-IsOk text s h)

reject_missing-IsOk :
    (v : Server) (event : Pop3Event) (s : Pop3Session)
    → IsOk s
    → IsOk (reject_missing (pop3_engine v) event s)
unfolding reject_missing pop3_engine bare_engine
reject_missing-IsOk v event s h =
    let g = pop3_engine v in
    let text = or_else (g.missing_text s event) g.desc.error_reply in
    bump_error_budget-IsOk g.desc.error_budget (write_reply text s) (write_reply-IsOk text s h)

guarded-IsOk :
    (v : Server) (event : Pop3Event) (r : Pop3Session × Bool)
    → IsOk r.0
    → IsOk (guarded (pop3_engine v) event r)
unfolding guarded
guarded-IsOk v event (s, true) h = h
guarded-IsOk v event (s, false) h = write_reply-IsOk _ s h

run_handler-IsOk :
    (v : Server) (onward : Drain) (event : Pop3Event) (s : Pop3Session)
    (o : Option (Entry Pop3State Pop3Event Context Op))
    → find_handler s.state event (pop3_handlers v) ≡ o
    → Drains onward
    → is_idle s.context.job ≡ true
    → IsOk s
    → IsOk (run_handler (pop3_engine v) onward event o s)
unfolding run_handler pop3_engine bare_engine
run_handler-IsOk v onward event s none e d i h = reject_missing-IsOk v event s h
run_handler-IsOk v onward event s (some x) e d i h =
    let found = find_handler-Ok (pop3_handlers v) (pop3_handlers-Ok v) s.state event x e in
    guarded-IsOk v event (x.run onward s) (found.0.keeps onward s d (sym found.1) i h)

guard_then-IsOk :
    (v : Server) (onward : Drain) (event : Pop3Event) (row : Option (Option Pop3State))
    (s : Pop3Session)
    → Drains onward
    → is_idle s.context.job ≡ true
    → IsOk s
    → IsOk (guard_then (pop3_engine v) onward event row s)
unfolding guard_then pop3_engine
guard_then-IsOk v onward event none s d i h = violate-IsOk v event s h
guard_then-IsOk v onward event (some row) s d i h = run_handler-IsOk v onward event s _ refl d i h

-- An event is dispatched, with nothing in flight.
pub dispatch-IsOk :
    (v : Server) (onward : Drain) (event : Pop3Event) (s : Pop3Session)
    → Drains onward
    → is_idle s.context.job ≡ true
    → IsOk s
    → IsOk (dispatch (pop3_engine v) onward event s)
unfolding dispatch pop3_engine bare_engine
dispatch-IsOk v onward event s d i h = if_Ok s.closed h (
    if_Ok (is_terminal make_pop3_desc s.state) (close-IsOk s h)
      (guard_then-IsOk v onward event _ s d i h))

parse_command-core : (line : Bytes) (s : Pop3Session) → core (parse_command line s) ≡ core s
unfolding parse_command
parse_command-core line s = ground arith

consume-IsOk :
    (v : Server) (onward : Drain) (s : Pop3Session)
    → Drains onward
    → is_idle s.context.job ≡ true
    → IsOk s
    → IsOk (consume v onward s)
unfolding consume
consume-IsOk v onward s d i h =
    let line = first_line s.buffer in
    let s1 = record s { buffer = after_line s.buffer } in
    let e = parse_command-core line s1 in
    dispatch-IsOk v onward (parse_command line s1).next_event (parse_command line s1) d
      (ap (λ c. is_idle c.1.job) e ∙ i) (keep e (keep {s = s} {s' = s1} refl h))

-- Without a pause there is nothing in flight.
runs_idle :
    (s : Pop3Session) (b : Bool)
    → (b && not s.paused) ≡ true
    → IsOk s
    → is_idle s.context.job ≡ true
runs_idle s b p h = ground (arith, p, h.waits)

after_drain-IsOk : (v : Server) (s : Pop3Session) → IsOk s → IsOk (after_drain (consume v) s)
unfolding after_drain
after_drain-IsOk v s h =
    if_Ok
      (not s.paused
        && (not s.closed && (not (has_line s.buffer) && not (length s.pending_write == 0))))
      (do_async_write-IsOk [] s h) h

unpaused-IsOk :
    (s : Pop3Session) → is_idle s.context.job ≡ true → IsOk s → IsOk (record s { paused = false })
unpaused-IsOk s i h = record {
  logged = h.logged;
  job = h.job;
  waits = ground (arith, i);
  sound = h.sound;
  known = h.known;
}

drain_loop-IsOk :
    (v : Server) (n : ℕ) (s : Pop3Session) → IsOk s → IsOk (drain_loop (consume v) n s)
unfolding drain_loop
drain_loop-IsOk v zero s h = h
drain_loop-IsOk v (suc n) s h =
    if_taken (has_line s.buffer && not s.paused)
      (λ p. drain_loop-IsOk v n _ (
        consume-IsOk v _ s
          (λ t i k. after_drain-IsOk v _ (drain_loop-IsOk v n _ (unpaused-IsOk t i k)))
          (runs_idle s (has_line s.buffer) p h) h))
      h

pub pop3_drain-Drains : (v : Server) → Drains (pop3_drain v)
unfolding pop3_drain drain drain_with
pop3_drain-Drains v s i h = after_drain-IsOk v _ (drain_loop-IsOk v _ _ (unpaused-IsOk s i h))

read_loop-IsOk : (v : Server) (n : ℕ) (s : Pop3Session) → IsOk s → IsOk (read_loop v n s)
unfolding read_loop
read_loop-IsOk v zero s h = h
read_loop-IsOk v (suc n) s h =
    if_taken (has_line s.buffer && not s.paused)
      (λ p.
        read_loop-IsOk v n _
          (consume-IsOk v _ s (pop3_drain-Drains v) (runs_idle s (has_line s.buffer) p h) h))
      h

pub received-IsOk :
    (v : Server) (bytes : Bytes) (s : Pop3Session) → IsOk s → IsOk (received v bytes s)
unfolding received
received-IsOk v bytes s h =
    let s1 = record s { buffer = s.buffer ++ bytes } in
    let h1 = keep {s = s} {s' = s1} refl h in
    let s2 = read_loop v (length s1.buffer) s1 in
    let h2 = read_loop-IsOk v (length s1.buffer) s1 h1 in
    if_Ok s.closed h (
      if_Ok (length bytes == 0) (do_async_read-IsOk s h) (
        if_Ok (ltb max_command_buffer (length s1.buffer)) (close-IsOk s1 h1) (
          if_Ok (not (has_line s1.buffer && not s1.paused) && (not s2.paused && not s2.closed))
            (do_async_read-IsOk s2 h2) h2)))

-- ===== src/Pop3/Commands/Drained.antt =====
-- include/framework/session_base.tpp, `drain_buffered_commands`, over the handlers of POP3: the length
-- of the buffer is fuel enough.
use proto_relay.Base.{
  ℕ, zero, suc, ◌<◌, ◌≤◌, ◌≡◌, refl, arith, Bool, true, false, ◌&&◌, not, [], ◌∷◌, length, ◌==◌,
  if◌then◌else◌, Bytes,
}
use proto_relay.Fsm.Session.{
  emit, do_async_write, has_line, first_line, after_line, after_drain, drain_loop, drain_with,
  drain,
}
use proto_relay.Pop3.{Pop3Session, pop3_state_key, pop3_event_key}
use proto_relay.Pop3.Handlers.{Server, Drain}
use proto_relay.Pop3.Commands.{parse_command, consume, pop3_drain, read_loop}
use proto_relay.Pop3.Commands.Shorter.{Within, as_long, if_Within, do_async_write-Within}
use proto_relay.Pop3.Commands.ShorterTable.{dispatch-Within, Shrinks}

-- Behind a line that is taken, the buffer is shorter.
after_line-shorter : (s : Bytes) → has_line s ≡ true → length (after_line s) < length s
unfolding has_line after_line
after_line-shorter [] h = ground (arith, h)
after_line-shorter (c ∷ s) h = ground (arith, h, after_line-shorter s)

after_line-no_longer : (s : Bytes) → length (after_line s) ≤ length s
unfolding after_line
after_line-no_longer [] = omega arith
after_line-no_longer (c ∷ s) = ground (arith, after_line-no_longer s)

parse_command-buffer : (line : Bytes) (s : Pop3Session) → (parse_command line s).buffer ≡ s.buffer
unfolding parse_command
parse_command-buffer line s = ground arith

consume-Within :
    (n : ℕ) (v : Server) (onward : Drain) (s : Pop3Session)
    → Shrinks n onward
    → length (after_line s.buffer) ≤ n
    → Within n (consume v onward s)
unfolding consume
consume-Within n v onward s d h =
    let s1 = record s { buffer = after_line s.buffer } in
    let s2 = parse_command (first_line s.buffer) s1 in
    dispatch-Within n v onward s2.next_event s2 d
      (record { fits = rw (parse_command-buffer (first_line s.buffer) s1) h })

after_drain-Within :
    (n : ℕ) (v : Server) (s : Pop3Session) → Within n s → Within n (after_drain (consume v) s)
unfolding after_drain
after_drain-Within n v s h =
    if_Within n
      (not s.paused
        && (not s.closed && (not (has_line s.buffer) && not (length s.pending_write == 0))))
      (do_async_write-Within n [] s h) h

drain_loop-Within :
    (n : ℕ) (v : Server) (m : ℕ) (s : Pop3Session)
    → Within n s
    → Within n (drain_loop (consume v) m s)
unfolding drain_loop
drain_loop-Within n v zero s h = h
drain_loop-Within n v (suc m) s h =
    if_Within n (has_line s.buffer && not s.paused)
      (drain_loop-Within n v m _ (
        consume-Within n v _ s
          (λ t k. after_drain-Within n v _ (drain_loop-Within n v m _ (as_long n refl k)))
          (omega (arith, after_line-no_longer s.buffer, h.fits))))
      h

-- Nothing more to do: no line waits, or an operation does.
abbrev pub rests : Pop3Session → Bool
rests s = not (has_line s.buffer && not s.paused)

no_line : (b : Bytes) → length b ≤ 0 → has_line b ≡ false
unfolding has_line
no_line [] h = refl
no_line (c ∷ b) h = ground (arith, h)

rests_turn :
    (s' s : Pop3Session) (b : Bool)
    → (has_line s.buffer && not s.paused) ≡ b
    → ((b ≡ true) → rests s' ≡ true)
    → rests (if b then s' else s) ≡ true
rests_turn s' s true e k = k refl
rests_turn s' s false e k = ground (arith, e)

drain_loop-rests :
    (v : Server) (n : ℕ) (s : Pop3Session) → Within n s → rests (drain_loop (consume v) n s) ≡ true
unfolding drain_loop
drain_loop-rests v zero s h = ground (arith, no_line s.buffer h.fits)
drain_loop-rests v (suc n) s h = rests_turn _ s (has_line s.buffer && not s.paused) refl (λ p.
    drain_loop-rests v n _ (
      consume-Within n v _ s
        (λ t k. after_drain-Within n v _ (drain_loop-Within n v n _ (as_long n refl k)))
        (ground (arith, p, after_line-shorter s.buffer, h.fits))))

after_drain-rests :
    (v : Server) (s : Pop3Session) → rests s ≡ true → rests (after_drain (consume v) s) ≡ true
unfolding after_drain do_async_write emit
after_drain-rests v s h = ground (arith, h)

-- A drain of the buffer ends only when no line waits in it or an operation has paused the pipeline:
-- the length of the buffer is turns enough, in every session.
pub pop3_drain-rests : (v : Server) (s : Pop3Session) → rests (pop3_drain v s) ≡ true
unfolding pop3_drain drain drain_with
pop3_drain-rests v s = after_drain-rests v _ (
    drain_loop-rests v (length s.buffer) (record s { paused = false })
      (record { fits = omega arith }))

pop3_drain-Within : (n : ℕ) (v : Server) (s : Pop3Session) → Within n s → Within n (pop3_drain v s)
unfolding pop3_drain drain drain_with
pop3_drain-Within n v s h =
    after_drain-Within n v _ (drain_loop-Within n v (length s.buffer) _ (as_long n refl h))

-- The loop of a completed read, too.
pub read_loop-rests :
    (v : Server) (n : ℕ) (s : Pop3Session) → length s.buffer ≤ n → rests (read_loop v n s) ≡ true
unfolding read_loop
read_loop-rests v zero s h = ground (arith, no_line s.buffer h)
read_loop-rests v (suc n) s h = rests_turn _ s (has_line s.buffer && not s.paused) refl (λ p.
    read_loop-rests v n _
      (consume-Within n v _ s (pop3_drain-Within n v)
        (ground (arith, p, after_line-shorter s.buffer, h))).fits)

-- ===== src/Fsm/Session.antt =====
-- include/framework/session_base.tpp: the session under a protocol machine, its command buffer and its
-- pipeline, with the line ending of pop3_session.tpp (LF). The executor, the socket and the timers are
-- the log of what the session asked them for.
use proto_relay.Base.{
  ℕ, zero, suc, ◌+◌, Bool, true, false, ◌&&◌, ◌||◌, not, List, [], ◌∷◌, ◌++◌, length, leb, ◌==◌,
  if◌then◌else◌, Bytes,
}

-- What a session asks of its connection; `operation` is work that a protocol starts elsewhere.
pub data Effect (Op : Type 0) : Type 0 where
  written : Bytes → Effect Op
  reading : Effect Op
  close_posted : Effect Op
  closed_now : Effect Op
  operation : Op → Effect Op

-- `aborted` says that a check has ended the process.
pub record Session (State Event Context Op : Type 0) : Type 0 where
  pub state : State
  pub next_event : Event
  pub last_args : Bytes
  pub closed : Bool
  pub paused : Bool
  pub aborted : Bool
  pub clean_close : Bool
  pub buffer : Bytes
  pub pending_write : Bytes
  pub stay_times : ℕ
  pub auth_attempts : ℕ
  pub context : Context
  pub effects : List (Effect Op)

-- `command_read_buffer_.find('\n') != npos`
unfoldable pub has_line : Bytes → Bool
has_line [] = false
has_line (c ∷ cs) = c == 10 || has_line cs

-- The first line with its LF, and the rest; without a line, nothing is taken.
unfoldable pub first_line : Bytes → Bytes
first_line [] = []
first_line (c ∷ cs) = let rest = first_line cs in if c == 10 then c ∷ [] else c ∷ rest

unfoldable pub after_line : Bytes → Bytes
after_line [] = []
after_line (c ∷ cs) = let rest = after_line cs in if c == 10 then cs else rest

-- A line that a reply is sent as.
unfoldable pub ends_in_lf : Bytes → Bool
ends_in_lf [] = false
ends_in_lf (c ∷ []) = c == 10
ends_in_lf (c ∷ d ∷ cs) = ends_in_lf (d ∷ cs)

unfoldable pub with_line_end : Bytes → Bytes
unfolding ends_in_lf
with_line_end text = if ends_in_lf text then text else text ++ 13 ∷ 10 ∷ []

abbrev pub max_command_buffer : ℕ
max_command_buffer = 16777216

module _ {State Event Context Op : Type 0} where
  unfoldable pub emit : Effect Op → Session State Event Context Op → Session State Event Context Op
  emit x s = record s { effects = s.effects ++ x ∷ [] }

  -- `do_async_read`; what it posts checks the same again.
  unfoldable pub do_async_read : Session State Event Context Op → Session State Event Context Op
  unfolding emit
  do_async_read s = if s.closed || has_line s.buffer then s else emit reading s

  -- `do_async_write`: while a command waits in the buffer, the reply is kept back.
  unfoldable pub do_async_write :
      Bytes → Session State Event Context Op → Session State Event Context Op
  unfolding emit
  do_async_write data' s =
      if s.closed
      then s
      else if has_line s.buffer
      then record s { pending_write = s.pending_write ++ data' }
      else emit (written (s.pending_write ++ data')) (record s { pending_write = [] })

  unfoldable pub flush_pending : Session State Event Context Op → Session State Event Context Op
  unfolding emit
  flush_pending s =
      if length s.pending_write == 0
      then s
      else emit (written s.pending_write) (record s { pending_write = [] })

  -- `close`
  unfoldable pub close : Session State Event Context Op → Session State Event Context Op
  unfolding emit flush_pending
  close s = if s.closed then s else emit closed_now (flush_pending (record s { closed = true }))

  unfoldable pub close_after_flush : Session State Event Context Op → Session State Event Context Op
  unfolding emit
  close_after_flush s = if s.closed then s else emit close_posted s

  -- `record_auth_failure_and_check`, whether the session is to be closed.
  unfoldable pub record_auth_failure :
      Session State Event Context Op → Session State Event Context Op
  record_auth_failure s = record s { auth_attempts = s.auth_attempts + 1 }

  unfoldable pub too_many_failures : ℕ → Session State Event Context Op → Bool
  too_many_failures max_attempts s = leb max_attempts s.auth_attempts

  -- The loop of `drain_buffered_commands`: `consume` takes a line of the buffer, and gets the drain
  -- that its handlers may call. Each turn takes a byte at least.
  module _
      (consume : (Session State Event Context Op → Session State Event Context Op)
        → Session State Event Context Op
        → Session State Event Context Op) where
    -- The reply that was kept back is written when the buffer is empty.
    unfoldable pub after_drain : Session State Event Context Op → Session State Event Context Op
    unfolding do_async_write
    after_drain s =
        if not s.paused
          && (not s.closed && (not (has_line s.buffer) && not (length s.pending_write == 0)))
        then do_async_write [] s
        else s

    unfoldable pub drain_loop : ℕ → Session State Event Context Op → Session State Event Context Op
    unfolding after_drain
    drain_loop zero s = s
    drain_loop (suc n) s =
        let next =
          drain_loop n
            (consume (λ t. after_drain (drain_loop n (record t { paused = false }))) s) in
        if has_line s.buffer && not s.paused then next else s

    -- `drain_buffered_commands`, whose loop has enough fuel in the length of the buffer.
    unfoldable pub drain_with : ℕ → Session State Event Context Op → Session State Event Context Op
    unfolding drain_loop after_drain
    drain_with n s = after_drain (drain_loop n (record s { paused = false }))

    unfoldable pub drain : Session State Event Context Op → Session State Event Context Op
    unfolding drain_with
    drain s = drain_with (length s.buffer) s

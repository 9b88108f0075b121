-- ===== src/Fsm/Engine.antt =====
-- include/framework/fsm/fsm_engine.h: dispatch, the write points of a transition, the error budget and
-- the strict check. Counting of edges and the registration audit are diagnostics, and left out.
pub mod Chunks
use proto_relay.Base.{
  ℕ, zero, suc, ◌+◌, ◌-◌, Bool, true, false, ◌&&◌, ◌||◌, not, Option, none, some, List, [], ◌∷◌,
  ◌++◌, length, take, drop, ltb, leb, ◌==◌, if◌then◌else◌, Bytes, min,
}
use proto_relay.Base.Eq.{KeyEq}
use proto_relay.Fsm.{GuardRow, Desc, is_terminal, guard_target}
use proto_relay.Fsm.Session.{
  Session, Effect, do_async_read, do_async_write, close, close_after_flush, with_line_end,
}

-- A handler gets the drain of the session, and says whether it has returned (true) or thrown.
pub record Entry (State Event Context Op : Type 0) : Type 0 where
  pub from : State
  pub on : Event
  pub run :
      (Session State Event Context Op → Session State Event Context Op)
      → Session State Event Context Op
      → Session State Event Context Op × Bool

-- `observe` is the violation observer; `formatter` the session-aware one, its arguments settled.
pub record Engine (State Event Context Op : Type 0) : Type 0 where
  pub desc : Desc State Event
  pub handlers : List (Entry State Event Context Op)
  pub observe : Session State Event Context Op → Session State Event Context Op
  pub begin_event : Session State Event Context Op → Session State Event Context Op
  pub violation_text : Session State Event Context Op → Event → Bytes
  pub missing_text : Session State Event Context Op → Event → Bytes
  pub internal_text : Session State Event Context Op → Event → Bytes
  pub strict : Bool

-- An empty text falls through to the next in the chain.
unfoldable pub or_else : Bytes → Bytes → Bytes
or_else [] other = other
or_else (c ∷ cs) other = c ∷ cs

module _ {State Event Context Op : Type 0} ⦃ks : KeyEq State⦄ ⦃ke : KeyEq Event⦄ where
  unfoldable pub find_handler :
      State → Event → List (Entry State Event Context Op) → Option (Entry State Event Context Op)
  find_handler from on [] = none
  find_handler from on (h ∷ hs) =
      if ks.beq h.from from && ke.beq h.on on then some h else find_handler from on hs

  -- `add_handler`, `none` where it throws.
  unfoldable pub add_handler :
      Entry State Event Context Op
      → List (Entry State Event Context Op)
      → Option (List (Entry State Event Context Op))
  unfolding find_handler
  add_handler h hs = elim (find_handler h.from h.on hs) [
    | none ↦ some (hs ++ h ∷ [])
    | some _ ↦ none
  ]

unfoldable pub leads_to : {State : Type 0} ⦃ks : KeyEq State⦄ → State → Option State → Bool
leads_to target none = false
leads_to ⦃ks⦄ target (some to) = ks.beq to target

module _ {State Event : Type 0} ⦃ks : KeyEq State⦄ where
  -- The loop of `check_strict_guard`.
  unfoldable pub has_row : State → State → List (GuardRow State Event) → Bool
  unfolding leads_to
  has_row from target [] = false
  has_row from target (row ∷ rows) =
      ks.beq row.from from && leads_to target row.to || has_row from target rows

  unfoldable pub passes_strict : Desc State Event → State → State → Bool
  unfolding has_row
  passes_strict d from target = ks.beq from target || has_row from target d.guards

module _ {State Event Context Op : Type 0} where
  -- `write_reply`
  unfoldable pub write_reply :
      Bytes → Session State Event Context Op → Session State Event Context Op
  write_reply [] s = s
  write_reply (c ∷ cs) s = if s.closed then s else do_async_write (with_line_end (c ∷ cs)) s

  unfoldable pub write_optional :
      Option Bytes → Session State Event Context Op → Session State Event Context Op
  unfolding write_reply
  write_optional none s = s
  write_optional (some text) s = write_reply text s

  unfoldable pub bump_error_budget :
      ℕ → Session State Event Context Op → Session State Event Context Op
  bump_error_budget budget s =
      if budget == 0
      then s
      else (let s' = record s { stay_times = s.stay_times + 1 } in
          if ltb s'.stay_times budget then s' else close_after_flush s')

module _ {State Event Context Op : Type 0} ⦃ks : KeyEq State⦄ ⦃ke : KeyEq Event⦄
    (g : Engine State Event Context Op) where
  unfoldable pub check_strict_guard :
      State → Session State Event Context Op → Session State Event Context Op
  unfolding passes_strict
  check_strict_guard target s =
      if g.strict && not (passes_strict g.desc s.state target)
      then record s { aborted = true }
      else s

  unfoldable pub enter :
      Option State → Session State Event Context Op → Session State Event Context Op
  unfolding check_strict_guard
  enter none s = s
  enter (some target) s = record (check_strict_guard target s) { state = target }

  unfoldable pub unpause : Session State Event Context Op → Session State Event Context Op
  unpause s = record s { paused = false }

  -- `if (!session->is_paused()) session->do_async_read()`
  unfoldable pub rearm_read : Session State Event Context Op → Session State Event Context Op
  rearm_read s = if s.paused then s else do_async_read s

  -- `settle`, with the drain of the session.
  unfoldable pub settle :
      (Session State Event Context Op → Session State Event Context Op)
      → Option State
      → Option Bytes
      → Session State Event Context Op
      → Session State Event Context Op
  unfolding enter unpause write_optional rearm_read
  settle drain target reply s =
      if s.closed then s else rearm_read (drain (write_optional reply (unpause (enter target s))))

  unfoldable pub settle_closing :
      Option State → Session State Event Context Op → Session State Event Context Op
  unfolding enter unpause
  settle_closing target s = if s.closed then s else unpause (enter target s)

  unfoldable pub reply_then_settle :
      Bytes → State → Session State Event Context Op → Session State Event Context Op
  unfolding check_strict_guard write_reply
  reply_then_settle text target s =
      if s.closed
      then s
      else do_async_read (record (write_reply text (check_strict_guard target s)) {
        paused = false;
        state = target;
      })

  -- `start`
  unfoldable pub start :
      (Session State Event Context Op → Session State Event Context Op)
      → State
      → Session State Event Context Op
      → Session State Event Context Op
  unfolding settle
  start drain first s =
      if s.closed
      then s
      else settle drain (some first) none
          (if length g.desc.greeting == 0 then s else do_async_write g.desc.greeting s)

  unfoldable pub violate : Event → Session State Event Context Op → Session State Event Context Op
  unfolding or_else write_reply bump_error_budget
  violate event s =
      let s' = g.observe s in
      bump_error_budget g.desc.error_budget
        (write_reply (or_else (g.violation_text s' event) g.desc.error_reply) s')

  unfoldable pub reject_missing :
      Event → Session State Event Context Op → Session State Event Context Op
  unfolding or_else write_reply bump_error_budget
  reject_missing event s =
      let s' = g.observe s in
      bump_error_budget g.desc.error_budget
        (write_reply (or_else (g.missing_text s' event) g.desc.error_reply) s')

  -- The barrier around a handler.
  unfoldable pub guarded :
      Event → Session State Event Context Op × Bool → Session State Event Context Op
  unfolding or_else write_reply
  guarded event (s, true) = s
  guarded event (s, false) =
      write_reply (or_else (g.internal_text s event) g.desc.internal_error_reply) s

  unfoldable pub run_handler :
      (Session State Event Context Op → Session State Event Context Op)
      → Event
      → Option (Entry State Event Context Op)
      → Session State Event Context Op
      → Session State Event Context Op
  unfolding reject_missing guarded
  run_handler drain event none s = reject_missing event s
  run_handler drain event (some h) s = guarded event (h.run drain (g.begin_event s))

  unfoldable pub guard_then :
      (Session State Event Context Op → Session State Event Context Op)
      → Event
      → Option (Option State)
      → Session State Event Context Op
      → Session State Event Context Op
  unfolding violate run_handler find_handler
  guard_then drain event none s = violate event s
  guard_then drain event (some row) s =
      run_handler drain event (find_handler s.state event g.handlers) s

  unfoldable pub dispatch :
      (Session State Event Context Op → Session State Event Context Op)
      → Event
      → Session State Event Context Op
      → Session State Event Context Op
  unfolding guard_then
  dispatch drain event s =
      if s.closed
      then s
      else if is_terminal g.desc s.state
      then close s
      else guard_then drain event (guard_target g.desc s.state event) s

-- `BulkAccumulator`
pub record Bulk : Type 0 where
  pub expected : ℕ
  pub sink : Bytes
  pub complete : Bool

unfoldable pub new_bulk : ℕ → Bulk
new_bulk expected = record { expected = expected; sink = []; complete = false }

-- `feed`: the accumulator, and the bytes past the declared length once it is complete.
unfoldable pub feed_bulk : Bytes → Bulk → Bulk × Option Bytes
feed_bulk data' b =
    if b.complete || length data' == 0
    then (b, none)
    else (let room = b.expected - length b.sink in
        let sink = b.sink ++ take (min (length data') room) data' in
        if length sink == b.expected
        then (
          record b { sink = sink; complete = true },
          some (drop (min (length data') room) data'),
        )
        else (record b { sink = sink }, none))

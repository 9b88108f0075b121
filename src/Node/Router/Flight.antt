-- ===== src/Node/Router/Flight.antt =====
-- The in-flight bound of `NodeRouter`: which steps there are, and what they keep.
use proto_relay.Base.Assoc
use proto_relay.Base.Eq.{bytes_key}
use proto_relay.Node.Router.Forward.{uncount}
use proto_relay.Base.Eq.{bytes_key}
use proto_relay.Base.{
  ℕ, ◌+◌, ◌≤◌, Bool, true, false, List, [], ◌∷◌, ◌++◌, ◌≡◌, refl, ◌∙◌, sym, inl, inr, ap, arith,
  leb, if◌then◌else◌, Bytes, Option-cases,
}
use proto_relay.Node.Envelope.{NodeRouterOptions}
use proto_relay.Node.Router.{
  MessageErrorCode, Errc, Handoff, Task, Router, Fresh, post, emit, new_router,
}
use proto_relay.Node.Router.Handlers.{Gcm}
use proto_relay.Node.Router.Forward.{
  receive, start_write, find_link, run_handoff, notify_done, stop, run_task,
}
use proto_relay.Node.Router.Quiet.{
  SameFlight, SameFlight-refl, SameFlight-if, complete-SameFlight, report-SameFlight,
  run_send-SameFlight, receive-SameFlight,
}

-- What the public operations post; `handoff` and the end of `stop` are posted by the router only.
abbrev pub IsRequest : Task → Type 0
IsRequest (Task.task_handoff h) = ⊥
IsRequest Task.task_clear_links = ⊥
IsRequest _ = Unit

-- One step of the router: a public operation posts its task, the executor runs the first task, a
-- link brings a frame, the callback of a write runs, with or without an error, or the router is
-- stopped.
pub data Step (gcm : Gcm) : Router → Router → Type 0 where
  request : (t : Task) (r : Router) → IsRequest t → Step gcm r (post t r)
  run :
      (f : Fresh) (t : Task) (rest : List Task) (r : Router)
      → r.posted ≡ t ∷ rest
      → Step gcm r (run_task gcm f t (record r { posted = rest }))
  frame : (f : Fresh) (w : Bytes) (r : Router) → Step gcm r (receive gcm f w r)
  flushed :
      (f : Fresh) (ec : Errc) (before : List Handoff) (h : Handoff) (later : List Handoff)
      (r : Router)
      → r.outstanding ≡ before ++ h ∷ later
      → Step gcm r (notify_done f h ec (record r { outstanding = before ++ later }))
  stopping : (r : Router) → Step gcm r (stop r)

pub data Reach (gcm : Gcm) (start : Router) : Router → Type 0 where
  here : Reach gcm start start
  next : {r s : Router} → Reach gcm start r → Step gcm r s → Reach gcm start s

-- The messages among the writes; reports and acknowledgements do not count.
abbrev pub messages : List Handoff → ℕ
messages [] = 0
messages (h ∷ hs) = (if h.is_report then 0 else 1) + messages hs

messages-append : (xs ys : List Handoff) → messages (xs ++ ys) ≡ messages xs + messages ys
messages-append [] ys = omega arith
messages-append (x ∷ xs) ys = omega (arith, messages-append xs ys)

-- The counter counts the messages whose callback has not run, and is within the bound.
pub record IsCounted (r : Router) : Type 0 where
  pub counted : r.in_flight ≡ messages r.outstanding
  pub bounded : r.in_flight ≤ r.options.max_in_flight

SameFlight-IsCounted : {r s : Router} → SameFlight r s → IsCounted r → IsCounted s
SameFlight-IsCounted a c = record {
  counted = a.in_flight ∙ c.counted ∙ ap messages (sym a.outstanding);
  bounded = rw (a.in_flight, a.options) c.bounded;
}

IsCounted-if :
    (b : Bool) (s t : Router)
    → (b ≡ true → IsCounted s)
    → (b ≡ false → IsCounted t)
    → IsCounted (if b then s else t)
IsCounted-if true s t a c = a refl
IsCounted-if false s t a c = c refl

-- A message that was counted and is written no more is no longer counted.
uncount-IsCounted :
    (h : Handoff) (r : Router)
    → r.in_flight ≡ (if h.is_report then 0 else 1) + messages r.outstanding
    → r.in_flight ≤ r.options.max_in_flight
    → IsCounted (uncount h r)
unfolding uncount
uncount-IsCounted h r c b = ground arith

start_write-IsCounted :
    (h : Handoff) (link : ℕ) (r : Router)
    → r.in_flight ≡ (if h.is_report then 0 else 1) + messages r.outstanding
    → r.in_flight ≤ r.options.max_in_flight
    → IsCounted (start_write h link r)
unfolding start_write emit
start_write-IsCounted h link r c b = record {
  counted = omega (arith, messages-append r.outstanding (h ∷ []));
  bounded = b;
}

-- Behind the bound: the message that was counted is written, or is no longer counted.
find_link-IsCounted :
    (f : Fresh) (h : Handoff) (r : Router)
    → r.in_flight ≡ (if h.is_report then 0 else 1) + messages r.outstanding
    → r.in_flight ≤ r.options.max_in_flight
    → IsCounted (find_link f h r)
unfolding find_link
find_link-IsCounted f h r c b = elim (Option-cases (Assoc.lookup h.next r.links)) [
  | inl lost ↦
      rw (lost, find_link)
        (SameFlight-IsCounted (complete-SameFlight h.completion Errc.host_unreachable _) (
          SameFlight-IsCounted (report-SameFlight f h.back MessageErrorCode.unroutable _)
            (uncount-IsCounted h r c b)))
  | inr (link, found) ↦ rw (found, find_link) (start_write-IsCounted h link r c b)
]

run_handoff-IsCounted :
    (f : Fresh) (h : Handoff) (r : Router) → IsCounted r → IsCounted (run_handoff f h r)
unfolding run_handoff
run_handoff-IsCounted f h r c =
    IsCounted-if r.stopped _ _
      (λ _. SameFlight-IsCounted (complete-SameFlight h.completion Errc.operation_canceled r) c)
      (λ _.
        IsCounted-if h.is_report _ _
          (λ is. find_link-IsCounted f h r (ground (arith, c.counted)) c.bounded)
          (λ isnt.
            IsCounted-if (leb r.options.max_in_flight r.in_flight) _ _
              (λ _. SameFlight-IsCounted (complete-SameFlight h.completion Errc.no_buffer_space _) (
                SameFlight-IsCounted (report-SameFlight f h.back MessageErrorCode.queue_overflow r)
                  c))
              (λ room.
                find_link-IsCounted f h (record r { in_flight = r.in_flight + 1 })
                  (ground (arith, c.counted)) (ground arith))))

notify_done-IsCounted :
    (f : Fresh) (h : Handoff) (ec : Errc) (r : Router)
    → r.in_flight ≡ (if h.is_report then 0 else 1) + messages r.outstanding
    → r.in_flight ≤ r.options.max_in_flight
    → IsCounted (notify_done f h ec r)
unfolding notify_done
notify_done-IsCounted f h Errc.success r c b =
    SameFlight-IsCounted (complete-SameFlight h.completion _ _) (uncount-IsCounted h r c b)
notify_done-IsCounted f h ec r c b =
    SameFlight-IsCounted (complete-SameFlight h.completion _ _)
      (SameFlight-IsCounted (report-SameFlight f h.back _ _) (uncount-IsCounted h r c b))

post-SameFlight : (t : Task) (r : Router) → SameFlight r (post t r)
unfolding post
post-SameFlight t r = record { in_flight = refl; outstanding = refl; options = refl }

stop-SameFlight : (r : Router) → SameFlight r (stop r)
unfolding stop post
stop-SameFlight r =
    SameFlight-if r.stopped _ _ (SameFlight-refl r)
      (record { in_flight = refl; outstanding = refl; options = refl })

run_task-IsCounted :
    (gcm : Gcm) (f : Fresh) (t : Task) (r : Router) → IsCounted r → IsCounted (run_task gcm f t r)
unfolding run_task
run_task-IsCounted gcm f (Task.task_handoff h) r c = run_handoff-IsCounted f h r c
run_task-IsCounted gcm f (Task.task_send m k) r c =
    SameFlight-IsCounted (run_send-SameFlight gcm f m k r) c
run_task-IsCounted gcm f (Task.task_attach neighbor link) r c =
    IsCounted-if r.stopped _ _ (λ _. c) (λ _. record { counted = c.counted; bounded = c.bounded })
run_task-IsCounted gcm f _ r c = record { counted = c.counted; bounded = c.bounded }

Step-IsCounted : {gcm : Gcm} {r s : Router} → Step gcm r s → IsCounted r → IsCounted s
Step-IsCounted (request t r q) c = SameFlight-IsCounted (post-SameFlight t r) c
Step-IsCounted {gcm} (run f t rest r p) c =
    run_task-IsCounted gcm f t (record r { posted = rest })
      (record { counted = c.counted; bounded = c.bounded })
Step-IsCounted {gcm} (frame f w r) c = SameFlight-IsCounted (receive-SameFlight gcm f w r) c
Step-IsCounted (flushed f ec before h later r p) c =
    notify_done-IsCounted f h ec (record r { outstanding = before ++ later })
      (omega (
        arith,
        c.counted,
        ap messages p,
        messages-append before (h ∷ later),
        messages-append before later,
      ))
      c.bounded
Step-IsCounted (stopping r) c = SameFlight-IsCounted (stop-SameFlight r) c

-- In every state that a new router can reach, by any order of requests, tasks, frames, callbacks of
-- writes and a stop, the in-flight counter is the number of messages that links have taken and whose
-- callback has not run, and is at most `max_in_flight`.
pub Reach-IsCounted :
    (gcm : Gcm) (id : Bytes) (options : NodeRouterOptions) {r : Router}
    → Reach gcm (new_router id options) r
    → IsCounted r
unfolding new_router
Reach-IsCounted gcm id options here = record { counted = refl; bounded = omega arith }
Reach-IsCounted gcm id options (next way st) =
    Step-IsCounted st (Reach-IsCounted gcm id options way)

-- ===== src/Node/Link/KeptTasks.antt =====
-- src/framework/node/node_link.cpp: the tasks keep the account of the completions and the bounds.
use proto_relay.Base.{
  ℕ, ◌+◌, ◌-◌, ◌≡◌, refl, ap, arith, Bool, ◌||◌, not, Option, none, some, List, [], ◌∷◌, length,
  ltb, leb, ◌==◌, Bytes, bytes_eq,
}
use proto_relay.Base.Eq.{nat_key}
use proto_relay.Node.Trust.{Snapshot, trusts}
use proto_relay.Node.LinkWire.{FrameType}
use proto_relay.Node.Link.{Link, LinkError, Task, Effect, Outside, emit, has_connection}
use proto_relay.Node.Link.Tasks.{
  emplace, fail_request, sent_request, send_request, run_request, run_respond, tell, run_notify,
  recheck_target, run_recheck, run_start, stop_on_executor, run_task, run_posted,
}
use proto_relay.Node.Link.Kept.{told-append, keyed, posted_id, is_request_id}
use proto_relay.Node.Link.KeptSessions.{attach-Kept, begin_connect-Kept}
use proto_relay.Node.Link.Kept.{
  one_if, owed, asked, asks, requests, is_request, IsSound, Kept, kept, Kept-refl, then_Kept,
  if_Kept, emit-Kept, complete-Kept, complete_all-Kept, disconnect-Kept, enqueue-Kept,
  enqueue_or-Kept,
}

emplace_lem :
    (id d c i : ℕ) (m : List (ℕ × ℕ))
    → keyed id m ≡ 0
    → (owed c (emplace id d m) ≡ owed c m + one_if (d == c))
      × (length (emplace id d m) ≡ length m + 1)
      × (keyed i (emplace id d m) ≡ keyed i m + one_if (id == i))
unfolding emplace
emplace_lem id d c i [] h = ground arith
emplace_lem id d c i ((j, e) ∷ m) h = ground (arith, emplace_lem id d c i m)

-- The next task leaves the queue; it is no request.
pop_Kept :
    (t : Task) (rest : List Task) (l : Link)
    → l.posted ≡ t ∷ rest
    → ((c : ℕ) → asks c t ≡ 0)
    → is_request t ≡ 0
    → ((i : ℕ) → is_request_id i t ≡ 0)
    → Kept l (record l { posted = rest })
pop_Kept t rest l h a r n =
    kept (λ c. omega (arith, ap (asked c) h, a c)) refl
      (λ s. (
        omega (arith, ap requests h, r, s),
        s.1,
        s.2,
        s.3,
        λ i. omega (arith, ap (posted_id i) h, n i, s.4 i),
      ))

module _ (id timeout c' : ℕ) (payload : Bytes) (rest : List Task) (l : Link)
    (h : l.posted ≡ Task.task_request id payload timeout c' ∷ rest) where
  fail_request-Kept :
      (error : LinkError) → Kept l (fail_request error c' (record l { posted = rest }))
  unfolding fail_request emit
  fail_request-Kept error =
      kept
        (λ c. omega (arith, ap (asked c) h, told-append c l.effects (Effect.completed c' error [])))
        refl
        (λ s. (
          omega (arith, ap requests h, s),
          omega (arith, s),
          s.2,
          s.3,
          λ i. omega (arith, ap (posted_id i) h, s.4 i),
        ))

  not_pending : IsSound l → keyed id l.pending ≡ 0
  not_pending s = ground (arith, ap (posted_id id) h, s.4 id)

  emplaced-Kept : IsSound l → Kept l (record l { posted = rest; pending = emplace id c' l.pending })
  emplaced-Kept s =
      kept (λ c. omega (arith, ap (asked c) h, emplace_lem id c' c 0 l.pending (not_pending s)))
        refl
        (λ s. (
          omega (arith, ap requests h, s, emplace_lem id c' 0 0 l.pending (not_pending s)),
          s.1,
          s.2,
          s.3,
          λ i.
              omega
                (arith, ap (posted_id i) h, s.4 i, emplace_lem id c' 0 i l.pending (not_pending s)),
        ))

  sent_request-Kept : (p : Link × Bool) → Kept p.0 (sent_request id p)
  unfolding sent_request
  sent_request-Kept (l', queued) = if_Kept queued (Kept-refl l') (complete-Kept id _ [] l')

  send_request-Kept :
      IsSound l → Kept l (send_request id payload timeout c' (record l { posted = rest }))
  unfolding send_request
  send_request-Kept s =
      then_Kept
        (then_Kept
          (then_Kept (emplaced-Kept s)
            (emit-Kept (Effect.request_timeout id timeout) _ (λ c. refl)))
          (enqueue-Kept _ _))
        (sent_request-Kept _)

  run_request-Kept :
      IsSound l → Kept l (run_request id payload timeout c' (record l { posted = rest }))
  unfolding run_request
  run_request-Kept s = if_Kept l.stopped (fail_request-Kept _) (
      if_Kept (not l.ready) (fail_request-Kept _) (
        if_Kept
          (leb l.options.max_pending_requests (length l.pending)
            || leb l.options.max_queued_frames (length l.writes))
          (fail_request-Kept _)
          (if_Kept (ltb (l.options.max_frame_bytes - 10) (length payload)) (fail_request-Kept _)
            (send_request-Kept s))))

module _ (x : Outside) where
  run_respond-Kept : (id : ℕ) (payload : Bytes) (l : Link) → Kept l (run_respond x id payload l)
  unfolding run_respond
  run_respond-Kept id payload l = if_Kept l.ready (enqueue_or-Kept x _ _ l) (Kept-refl l)

  tell-Kept : (o : Option ℕ) (error : LinkError) (l : Link) → Kept l (tell o error l)
  unfolding tell
  tell-Kept none error l = Kept-refl l
  tell-Kept (some completion) error l = emit-Kept _ l (λ c. refl)

  run_notify-Kept :
      (t : FrameType) (payload : Bytes) (o : Option ℕ) (l : Link)
      → Kept l (run_notify t payload o l)
  unfolding run_notify
  run_notify-Kept t payload o l =
      if_Kept l.stopped (tell-Kept o _ l)
        (if_Kept (not l.ready) (tell-Kept o _ l) (then_Kept (enqueue-Kept _ l) (tell-Kept o _ _)))

  run_recheck-Kept : (snapshot : Snapshot) (l : Link) → Kept l (run_recheck x snapshot l)
  unfolding run_recheck
  run_recheck-Kept snapshot l =
      if_Kept
        (l.stopped
          || (length (recheck_target l) == 0
              || (bytes_eq (recheck_target l) l.options.node_id
                  || trusts (recheck_target l) snapshot.neighbors)))
        (Kept-refl l) (then_Kept (kept (λ c. refl) refl (λ s. s)) (disconnect-Kept x _ _))

  run_start-Kept : (port : ℕ) (l : Link) → Kept l (run_start x port l)
  unfolding run_start
  run_start-Kept port l =
      if_Kept (l.stopped || (has_connection l || l.started)) (Kept-refl l)
        (then_Kept (kept (λ c. refl) refl (λ s. s)) (begin_connect-Kept x _))

  pub stop_on_executor-Kept : (l : Link) → Kept l (stop_on_executor x l)
  unfolding stop_on_executor
  stop_on_executor-Kept l = then_Kept (disconnect-Kept x _ l) (complete_all-Kept _ _ _)

  pub run_posted-Kept :
      (ts : List Task) (l : Link) → l.posted ≡ ts → IsSound l → Kept l (run_posted x ts l)
  unfolding run_posted run_task
  run_posted-Kept [] l h s = Kept-refl l
  run_posted-Kept (Task.task_start port ∷ rest) l h s =
      then_Kept (pop_Kept _ rest l h (λ c. refl) refl (λ i. refl)) (run_start-Kept port _)
  run_posted-Kept (Task.task_attach connection ∷ rest) l h s =
      then_Kept (pop_Kept _ rest l h (λ c. refl) refl (λ i. refl)) (attach-Kept x connection _)
  run_posted-Kept (Task.task_request id payload timeout c ∷ rest) l h s =
      run_request-Kept id timeout c payload rest l h s
  run_posted-Kept (Task.task_cancel id ∷ rest) l h s =
      then_Kept (pop_Kept _ rest l h (λ c. refl) refl (λ i. refl)) (complete-Kept id _ [] _)
  run_posted-Kept (Task.task_respond id payload ∷ rest) l h s =
      then_Kept (pop_Kept _ rest l h (λ c. refl) refl (λ i. refl)) (run_respond-Kept id payload _)
  run_posted-Kept (Task.task_notify payload o ∷ rest) l h s =
      then_Kept (pop_Kept _ rest l h (λ c. refl) refl (λ i. refl)) (run_notify-Kept _ payload o _)
  run_posted-Kept (Task.task_epoch_config payload o ∷ rest) l h s =
      then_Kept (pop_Kept _ rest l h (λ c. refl) refl (λ i. refl)) (run_notify-Kept _ payload o _)
  run_posted-Kept (Task.task_on_request ∷ rest) l h s =
      then_Kept (pop_Kept _ rest l h (λ c. refl) refl (λ i. refl)) (kept (λ c. refl) refl (λ s. s))
  run_posted-Kept (Task.task_on_notify ∷ rest) l h s =
      then_Kept (pop_Kept _ rest l h (λ c. refl) refl (λ i. refl)) (kept (λ c. refl) refl (λ s. s))
  run_posted-Kept (Task.task_on_state ∷ rest) l h s =
      then_Kept (pop_Kept _ rest l h (λ c. refl) refl (λ i. refl)) (kept (λ c. refl) refl (λ s. s))
  run_posted-Kept (Task.task_recheck snapshot ∷ rest) l h s =
      then_Kept (pop_Kept _ rest l h (λ c. refl) refl (λ i. refl)) (run_recheck-Kept snapshot _)
  run_posted-Kept (Task.task_stop ∷ rest) l h s =
      then_Kept (pop_Kept _ rest l h (λ c. refl) refl (λ i. refl)) (stop_on_executor-Kept _)

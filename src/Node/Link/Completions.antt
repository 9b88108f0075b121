-- ===== src/Node/Link/Completions.antt =====
-- src/framework/node/node_link.cpp: the completions of the requests over any run of a link.
use proto_relay.Base.{
  ℕ, ◌+◌, ◌≡◌, refl, ap, ◌∙◌, arith, Bool, true, false, some, List, [], ◌∷◌, leb, ◌==◌,
  if◌then◌else◌, Bytes,
}
use proto_relay.Base.Assoc
use proto_relay.Base.Eq.{nat_key}
use proto_relay.Node.Trust.{TrustStore}
use proto_relay.Node.Link.{
  Link, LinkOptions, LinkError, Task, Effect, Outside, emit, post, complete, complete_found,
  complete_all, create_link, new_link,
}
use proto_relay.Node.Link.Handlers.{Credentials}
use proto_relay.Node.Link.Tasks.{stop_on_executor, request, stop}
use proto_relay.Node.Link.Events.{Event, hear_trust, step, run}
use proto_relay.Node.Link.Kept.{told-append, posted_id-append, requests-append}
use proto_relay.Node.Link.KeptSessions.{
  tick-Kept, begin_connect-Kept, connected-Kept, tls_done-Kept, received-Kept, written-Kept,
}
use proto_relay.Node.Link.Kept.{
  one_if, told, owed, asked, credit, asked-append, IsSound, Kept, kept, Kept-refl, then_Kept,
  if_Kept, post-Kept, complete-Kept,
}
use proto_relay.Node.Link.KeptTasks.{run_posted-Kept, stop_on_executor-Kept}

-- 1 for the call of `request` with this completion.
abbrev pub called_by : ℕ → Event → ℕ
called_by c (Event.call_request payload timeout d) = one_if (d == c)
called_by c _ = 0

-- How often `request` has been called with the completion.
abbrev pub called : ℕ → List (Outside × Event) → ℕ
called c [] = 0
called c ((x, e) ∷ es) = called_by c e + called c es

-- What a step does to the account: the calls are added to it.
record Accounted (n : ℕ → ℕ) (l l' : Link) : Type 0 where
  credits : (c : ℕ) → credit c l' ≡ credit c l + n c
  same_options : l'.options ≡ l.options
  keeps : IsSound l → IsSound l'

quiet_Accounted : {n : ℕ → ℕ} {l l' : Link} → Kept l l' → ((c : ℕ) → n c ≡ 0) → Accounted n l l'
quiet_Accounted h z = record {
  credits = λ c. omega (arith, h.credits c, z c);
  same_options = h.same_options;
  keeps = h.keeps;
}

if_Accounted :
    {n : ℕ → ℕ} {l l1 l2 : Link} (b : Bool)
    → (b ≡ true → Accounted n l l1)
    → (b ≡ false → Accounted n l l2)
    → Accounted n l (if b then l1 else l2)
if_Accounted true h k = h refl
if_Accounted false h k = k refl

request-Accounted :
    (payload : Bytes) (timeout d : ℕ) (l : Link)
    → Accounted (λ c. one_if (d == c)) l (request payload timeout d l)
unfolding request emit post
request-Accounted payload timeout d l =
    let t = Task.task_request l.next_id payload timeout d in
    if_Accounted (leb l.options.max_pending_requests l.outstanding)
      (λ h. record {
        credits = λ c.
            omega
              (arith, told-append c l.effects (Effect.completed d LinkError.no_buffer_space []));
        same_options = refl;
        keeps = λ s. (s.0, s.1, s.2, s.3, λ i. ground (arith, s.4 i));
      })
      (λ h. record {
        credits = λ c. omega (arith, asked-append c l.posted t);
        same_options = refl;
        keeps = λ s. (
          omega (arith, requests-append l.posted t, s),
          ground (arith, h, s),
          s.2,
          s.3,
          λ i. ground (arith, posted_id-append i l.posted t, s.4 i),
        );
      })

step-Accounted :
    (k : Credentials) (x : Outside) (e : Event) (l : Link)
    → IsSound l
    → Accounted (λ c. called_by c e) l (step k x e l)
unfolding step hear_trust stop
step-Accounted k x (Event.call_request payload timeout d) l s =
    request-Accounted payload timeout d l
step-Accounted k x (Event.call_start port) l s =
    quiet_Accounted (if_Kept l.client (post-Kept _ _ (λ c. refl) refl (λ i. refl)) (Kept-refl l))
      (λ c. refl)
step-Accounted k x (Event.call_cancel id) l s =
    quiet_Accounted (post-Kept _ _ (λ c. refl) refl (λ i. refl)) (λ c. refl)
step-Accounted k x (Event.call_respond id payload) l s =
    quiet_Accounted (post-Kept _ _ (λ c. refl) refl (λ i. refl)) (λ c. refl)
step-Accounted k x (Event.call_notify payload o) l s =
    quiet_Accounted (post-Kept _ _ (λ c. refl) refl (λ i. refl)) (λ c. refl)
step-Accounted k x (Event.call_epoch_config payload o) l s =
    quiet_Accounted (post-Kept _ _ (λ c. refl) refl (λ i. refl)) (λ c. refl)
step-Accounted k x Event.call_on_request l s =
    quiet_Accounted (post-Kept _ _ (λ c. refl) refl (λ i. refl)) (λ c. refl)
step-Accounted k x Event.call_on_notify l s =
    quiet_Accounted (post-Kept _ _ (λ c. refl) refl (λ i. refl)) (λ c. refl)
step-Accounted k x Event.call_on_state l s =
    quiet_Accounted (post-Kept _ _ (λ c. refl) refl (λ i. refl)) (λ c. refl)
step-Accounted k x Event.call_stop l s =
    quiet_Accounted
      (then_Kept (kept (λ c. refl) refl (λ s. s)) (post-Kept _ _ (λ c. refl) refl (λ i. refl)))
      (λ c. refl)
step-Accounted k x (Event.accept connection) l s =
    quiet_Accounted (post-Kept _ _ (λ c. refl) refl (λ i. refl)) (λ c. refl)
step-Accounted k x (Event.trust_changed snapshot) l s =
    quiet_Accounted
      (then_Kept (kept (λ c. refl) refl (λ s. s)) (post-Kept _ _ (λ c. refl) refl (λ i. refl)))
      (λ c. refl)
step-Accounted k x Event.run_next l s =
    quiet_Accounted (run_posted-Kept x l.posted l refl s) (λ c. refl)
step-Accounted k x (Event.on_connected g transport error) l s =
    quiet_Accounted (connected-Kept x g transport error l) (λ c. refl)
step-Accounted k x (Event.on_tls g transport error) l s =
    quiet_Accounted (tls_done-Kept x g transport error l) (λ c. refl)
step-Accounted k x (Event.on_read g error bytes) l s =
    quiet_Accounted (received-Kept x k g error bytes l) (λ c. refl)
step-Accounted k x (Event.on_written g error) l s =
    quiet_Accounted (written-Kept x g error l) (λ c. refl)
step-Accounted k x (Event.on_heartbeat g) l s = quiet_Accounted (tick-Kept x g l) (λ c. refl)
step-Accounted k x (Event.on_timeout id) l s = quiet_Accounted (complete-Kept id _ [] l) (λ c. refl)
step-Accounted k x Event.on_reconnect l s = quiet_Accounted (begin_connect-Kept x l) (λ c. refl)

run_lem :
    (k : Credentials) (es : List (Outside × Event)) (l : Link)
    → IsSound l
    → ((c : ℕ) → credit c (run k es l) ≡ credit c l + called c es)
      × IsSound (run k es l)
      × ((run k es l).options ≡ l.options)
unfolding run
run_lem k [] l s = (λ c. omega arith, s, refl)
run_lem k ((x, e) ∷ es) l s =
    let a = step-Accounted k x e l s in
    let (h, s', o) = run_lem k es (step k x e l) (a.keeps s) in
    (λ c. omega (arith, h c, a.credits c), s', o ∙ a.same_options)

new_link-IsSound :
    (o : LinkOptions) (client authenticated : Bool) (trust : TrustStore)
    → IsSound (new_link o client authenticated trust)
unfolding new_link
new_link-IsSound o client authenticated trust =
    (refl, omega arith, omega arith, omega arith, λ id. omega arith)

create_link-new_link :
    (o : LinkOptions) (client authenticated : Bool) (trust : TrustStore) (l : Link)
    → create_link o client authenticated trust ≡ some l
    → new_link o client authenticated trust ≡ l
unfolding create_link
create_link-new_link o client authenticated trust l h = ground (arith, h)

complete_head :
    (error : LinkError) (id c : ℕ) (m : List (ℕ × ℕ)) (l : Link)
    → l.pending ≡ (id, c) ∷ m
    → (complete id error [] l).pending ≡ m
unfolding complete complete_found emit Assoc.lookup Assoc.erase
complete_head error id c m l h = ground (arith, h)

complete_all-pending :
    (error : LinkError) (m : List (ℕ × ℕ)) (l : Link)
    → l.pending ≡ m
    → (complete_all error m l).pending ≡ []
unfolding complete_all
complete_all-pending error [] l h = h
complete_all-pending error ((id, c) ∷ m) l h =
    complete_all-pending error m _ (complete_head error id c m l h)

stop_on_executor-pending : (x : Outside) (l : Link) → (stop_on_executor x l).pending ≡ []
unfolding stop_on_executor
stop_on_executor-pending x l = complete_all-pending _ _ _ refl

module _ (k : Credentials) (es : List (Outside × Event)) (o : LinkOptions)
    (client authenticated : Bool) (trust : TrustStore) (l : Link)
    (h : create_link o client authenticated trust ≡ some l) where
  created-IsSound : IsSound l
  created-IsSound =
      rw (← create_link-new_link o client authenticated trust l h)
        (new_link-IsSound o client authenticated trust)

  created-options : l.options ≡ o
  unfolding new_link
  created-options = rw (← create_link-new_link o client authenticated trust l h)

  created-credit : (c : ℕ) → credit c l ≡ 0
  unfolding new_link
  created-credit c = rw (← create_link-new_link o client authenticated trust l h)

  -- For a link that the constructor makes, and after any events, each completion has been called, is
  -- kept by a pending request, or waits in a posted one, together as often as `request` was called
  -- with it: none is lost, and none is called twice for one request.
  pub run-credit :
      (c : ℕ)
      → told c (run k es l).effects + (owed c (run k es l).pending + asked c (run k es l).posted)
        ≡ called c es
  run-credit c = (run_lem k es l created-IsSound).0 c ∙ omega (arith, created-credit c)

  -- For a link that the constructor makes, and after any events, `outstanding_` is the number of the
  -- pending and the posted requests and at most `max_pending_requests`, the frames that wait are at
  -- most `max_queued_frames`, at most 256 nonces are kept, and no two requests have the same id. The options stay those that were given.
  pub run-IsSound : IsSound (run k es l) × ((run k es l).options ≡ o)
  run-IsSound = let r = run_lem k es l created-IsSound in (r.1, r.2 ∙ created-options)

  -- For a link that the constructor makes, and after any events, the body of `stop` leaves no request
  -- pending: each completion has then been called as often as `request` was called with it, less the
  -- requests whose task is still posted.
  pub stop_on_executor-told :
      (x : Outside) (c : ℕ)
      → told c (stop_on_executor x (run k es l)).effects
          + asked c (stop_on_executor x (run k es l)).posted
        ≡ called c es
  stop_on_executor-told x c = omega (
    arith,
    ap (owed c) (stop_on_executor-pending x (run k es l)),
    (stop_on_executor-Kept x (run k es l)).credits c,
    run-credit c,
  )

-- ===== src/Node/Link/Kept.antt =====
-- src/framework/node/node_link.cpp: what every step of a link keeps: the account of the completions,
-- and the bounds on its queues.
use proto_relay.Base.{ltb}
use proto_relay.Base.{
  ℕ, ◌+◌, ◌≤◌, ◌≡◌, refl, ◌∙◌, arith, Bool, true, false, ◌&&◌, ◌||◌, not, Option, none, some, List,
  [], ◌∷◌, ◌++◌, length, length-append, leb, ◌==◌, if◌then◌else◌, Bytes, Bool-cases, inl, inr,
}
use proto_relay.Base.Assoc
use proto_relay.Base.Eq.{nat_key}
use proto_relay.Node.LinkWire.{Frame, encode_frame}
use proto_relay.Node.Link.{
  Link, LinkError, Task, Effect, Outside, emit, raise, post, complete, complete_found, complete_all,
  emit_state, schedule_reconnect, reset_connection, maybe_reconnect, disconnect_from, disconnect_at,
  disconnect, write_front, write_next, push_write, enqueue, enqueue_or, set_peer, become_ready,
  nonce_cache, is_failure, success,
}

abbrev pub one_if : Bool → ℕ
one_if true = 1
one_if false = 0

-- 1 for the effect that calls this completion.
abbrev pub tells : ℕ → Effect → ℕ
tells c (Effect.completed d error payload) = one_if (d == c)
tells c _ = 0

-- How often the completion has been called.
abbrev pub told : ℕ → List Effect → ℕ
told c [] = 0
told c (x ∷ xs) = tells c x + told c xs

-- How many pending requests have the completion.
abbrev pub owed : ℕ → List (ℕ × ℕ) → ℕ
owed c [] = 0
owed c ((id, d) ∷ m) = one_if (d == c) + owed c m

abbrev pub asks : ℕ → Task → ℕ
asks c (Task.task_request id payload timeout d) = one_if (d == c)
asks c _ = 0

-- How many posted requests have the completion.
abbrev pub asked : ℕ → List Task → ℕ
asked c [] = 0
asked c (t ∷ ts) = asks c t + asked c ts

abbrev pub is_request : Task → ℕ
is_request (Task.task_request id payload timeout d) = 1
is_request _ = 0

abbrev pub requests : List Task → ℕ
requests [] = 0
requests (t ∷ ts) = is_request t + requests ts

abbrev pub credit : ℕ → Link → ℕ
credit c l = told c l.effects + (owed c l.pending + asked c l.posted)

-- How many pending requests have the id.
abbrev pub keyed : ℕ → List (ℕ × ℕ) → ℕ
keyed id [] = 0
keyed id ((i, d) ∷ m) = one_if (i == id) + keyed id m

abbrev pub is_request_id : ℕ → Task → ℕ
is_request_id id (Task.task_request i payload timeout d) = one_if (i == id)
is_request_id id _ = 0

-- How many posted requests have the id.
abbrev pub posted_id : ℕ → List Task → ℕ
posted_id id [] = 0
posted_id id (t ∷ ts) = is_request_id id t + posted_id id ts

abbrev pub waits : ℕ → Link → ℕ
waits id l = keyed id l.pending + posted_id id l.posted

-- `outstanding_` is the number of the requests that wait, the queues are within their bounds, and
-- no two requests have the same id, which is one that `request` gave out.
abbrev pub IsSound : Link → Type 0
IsSound l =
    (l.outstanding ≡ length l.pending + requests l.posted)
    × (l.outstanding ≤ l.options.max_pending_requests)
    × (length l.writes ≤ l.options.max_queued_frames)
    × (length l.seen_nonces ≤ nonce_cache)
    × ((id : ℕ) → waits id l ≤ one_if (ltb id l.next_id))

pub record Kept (l l' : Link) : Type 0 where
  pub credits : (c : ℕ) → credit c l' ≡ credit c l
  pub same_options : l'.options ≡ l.options
  pub keeps : IsSound l → IsSound l'

-- A step that changes neither the account nor the bounds.
pub kept :
    {l l' : Link}
    → ((c : ℕ) → credit c l' ≡ credit c l)
    → l'.options ≡ l.options
    → (IsSound l → IsSound l')
    → Kept l l'
kept h o k = record { credits = h; same_options = o; keeps = k }

pub Kept-refl : (l : Link) → Kept l l
Kept-refl l = kept (λ c. refl) refl (λ h. h)

pub then_Kept : {l1 l2 l3 : Link} → Kept l1 l2 → Kept l2 l3 → Kept l1 l3
then_Kept h k =
    kept (λ c. k.credits c ∙ h.credits c) (k.same_options ∙ h.same_options)
      (λ s. k.keeps (h.keeps s))

pub told-append :
    (c : ℕ) (xs : List Effect) (x : Effect) → told c (xs ++ x ∷ []) ≡ told c xs + tells c x
told-append c [] x = omega arith
told-append c (y ∷ xs) x = omega (arith, told-append c xs x)

pub asked-append :
    (c : ℕ) (ts : List Task) (t : Task) → asked c (ts ++ t ∷ []) ≡ asked c ts + asks c t
asked-append c [] t = omega arith
asked-append c (u ∷ ts) t = omega (arith, asked-append c ts t)

pub requests-append :
    (ts : List Task) (t : Task) → requests (ts ++ t ∷ []) ≡ requests ts + is_request t
requests-append [] t = omega arith
requests-append (u ∷ ts) t = omega (arith, requests-append ts t)

pub posted_id-append :
    (i : ℕ) (ts : List Task) (t : Task)
    → posted_id i (ts ++ t ∷ []) ≡ posted_id i ts + is_request_id i t
posted_id-append i [] t = omega arith
posted_id-append i (u ∷ ts) t = omega (arith, posted_id-append i ts t)

keyed-erase : (i id : ℕ) (m : List (ℕ × ℕ)) → keyed i (Assoc.erase id m) ≤ keyed i m
unfolding Assoc.erase
keyed-erase i id [] = omega arith
keyed-erase i id ((j, e) ∷ m) = ground (arith, keyed-erase i id m)

owed-erase :
    (c id d : ℕ) (m : List (ℕ × ℕ))
    → Assoc.lookup id m ≡ some d
    → (owed c (Assoc.erase id m) + one_if (d == c) ≡ owed c m)
      × (length (Assoc.erase id m) + 1 ≡ length m)
unfolding Assoc.lookup Assoc.erase
owed-erase c id d [] h = ground arith
owed-erase c id d ((i, e) ∷ m) h = ground (arith, owed-erase c id d m)

pub credit-emit : (c : ℕ) (x : Effect) (l : Link) → credit c (emit x l) ≡ credit c l + tells c x
unfolding emit
credit-emit c x l = omega (arith, told-append c l.effects x)

pub emit-Kept : (x : Effect) (l : Link) → ((c : ℕ) → tells c x ≡ 0) → Kept l (emit x l)
unfolding emit
emit-Kept x l h = kept (λ c. omega (arith, told-append c l.effects x, h c)) refl (λ s. s)

pub post-Kept :
    (t : Task) (l : Link)
    → ((c : ℕ) → asks c t ≡ 0)
    → is_request t ≡ 0
    → ((i : ℕ) → is_request_id i t ≡ 0)
    → Kept l (post t l)
unfolding post
post-Kept t l h k h' =
    kept (λ c. omega (arith, asked-append c l.posted t, h c)) refl
      (λ s. (
        omega (arith, requests-append l.posted t, s, k),
        s.1,
        s.2,
        s.3,
        λ i. omega (arith, posted_id-append i l.posted t, h' i, s.4 i),
      ))

complete_found-Kept :
    (id : ℕ) (error : LinkError) (payload : Bytes) (o : Option ℕ) (l : Link)
    → Assoc.lookup id l.pending ≡ o
    → Kept l (complete_found id error payload o l)
unfolding complete_found emit
complete_found-Kept id error payload none l h = Kept-refl l
complete_found-Kept id error payload (some d) l h =
    kept
      (λ c. omega (
        arith,
        told-append c l.effects (Effect.completed d error payload),
        owed-erase c id d l.pending h,
      ))
      refl
      (λ s. (
        omega (arith, owed-erase 0 id d l.pending h, s),
        omega (arith, s),
        s.2,
        s.3,
        λ i. omega (arith, keyed-erase i id l.pending, s.4 i),
      ))

pub complete-Kept :
    (id : ℕ) (error : LinkError) (payload : Bytes) (l : Link) → Kept l (complete id error payload l)
unfolding complete
complete-Kept id error payload l = complete_found-Kept id error payload _ l refl

pub complete_all-Kept :
    (error : LinkError) (m : List (ℕ × ℕ)) (l : Link) → Kept l (complete_all error m l)
unfolding complete_all
complete_all-Kept error [] l = Kept-refl l
complete_all-Kept error ((id, d) ∷ m) l =
    then_Kept (complete-Kept id error [] l) (complete_all-Kept error m _)

pub if_Kept : {l l1 l2 : Link} (b : Bool) → Kept l l1 → Kept l l2 → Kept l (if b then l1 else l2)
if_Kept true h k = h
if_Kept false h k = k

pub emit_state-Kept :
    (state : Bool) (error : LinkError) (l : Link) → Kept l (emit_state state error l)
unfolding emit_state
emit_state-Kept state error l = if_Kept l.state_handler (emit-Kept _ l (λ c. refl)) (Kept-refl l)

pub schedule_reconnect-Kept : (x : Outside) (l : Link) → Kept l (schedule_reconnect x l)
unfolding schedule_reconnect emit
schedule_reconnect-Kept x l =
    if_Kept l.stopped (Kept-refl l)
      (kept (λ c. omega (arith, told-append c l.effects)) refl (λ s. s))

reset_connection-Kept : (connection : ℕ) (l : Link) → Kept l (reset_connection connection l)
unfolding reset_connection emit
reset_connection-Kept connection l =
    kept (λ c. omega (arith, told-append c l.effects (Effect.closed connection))) refl
      (λ s. (s.0, s.1, omega arith, s.3, s.4))

maybe_reconnect-Kept : (x : Outside) (l : Link) → Kept l (maybe_reconnect x l)
unfolding maybe_reconnect
maybe_reconnect-Kept x l =
    if_Kept (l.client && (not l.stopped && not l.peer_revoked)) (schedule_reconnect-Kept x l)
      (Kept-refl l)

disconnect_from-Kept :
    (x : Outside) (error : LinkError) (connection : ℕ) (l : Link)
    → Kept l (disconnect_from x error connection l)
unfolding disconnect_from
disconnect_from-Kept x error connection l =
    let l1 = reset_connection connection l in
    let l2 = complete_all error l1.pending l1 in
    then_Kept
      (then_Kept (reset_connection-Kept connection l) (complete_all-Kept error l1.pending l1))
      (then_Kept
        (if_Kept (l.ready || is_failure error) (emit_state-Kept false error l2) (Kept-refl l2))
        (maybe_reconnect-Kept x _))

disconnect_at-Kept :
    (x : Outside) (error : LinkError) (o : Option ℕ) (l : Link) → Kept l (disconnect_at x error o l)
unfolding disconnect_at
disconnect_at-Kept x error none l = Kept-refl l
disconnect_at-Kept x error (some connection) l = disconnect_from-Kept x error connection l

pub disconnect-Kept : (x : Outside) (error : LinkError) (l : Link) → Kept l (disconnect x error l)
unfolding disconnect
disconnect-Kept x error l = disconnect_at-Kept x error l.connection l

write_front-Kept : (o : Option ℕ) (writes : List Bytes) (l : Link) → Kept l (write_front o writes l)
unfolding write_front emit
write_front-Kept none writes l = kept (λ c. refl) refl (λ s. s)
write_front-Kept (some connection) [] l = kept (λ c. refl) refl (λ s. s)
write_front-Kept (some connection) (bytes ∷ rest) l =
    kept (λ c. omega (arith, told-append c l.effects)) refl (λ s. s)

pub write_next-Kept : (generation : ℕ) (l : Link) → Kept l (write_next generation l)
unfolding write_next
write_next-Kept generation l =
    if_Kept (generation == l.generation) (write_front-Kept l.connection l.writes l)
      (kept (λ c. refl) refl (λ s. s))

pub raise-Kept : (l : Link) → Kept l (raise l)
unfolding raise emit
raise-Kept l = kept (λ c. omega (arith, told-append c l.effects)) refl (λ s. s)

-- One more frame fits.
queued_Kept :
    (bytes : Bytes) (l : Link)
    → length l.writes + 1 ≤ l.options.max_queued_frames
    → Kept l (record l { writes = l.writes ++ bytes ∷ [] })
queued_Kept bytes l h =
    kept (λ c. refl) refl
      (λ s. (s.0, s.1, omega (arith, length-append l.writes (bytes ∷ [])), s.3, s.4))

push_write-Kept :
    (o : Option Bytes) (l : Link)
    → length l.writes + 1 ≤ l.options.max_queued_frames
    → Kept l (push_write o l).0
unfolding push_write
push_write-Kept none l h = raise-Kept l
push_write-Kept (some bytes) l h =
    then_Kept (queued_Kept bytes l h)
      (if_Kept l.writing (Kept-refl _) (write_next-Kept l.generation _))

pub enqueue-Kept : (f : Frame) (l : Link) → Kept l (enqueue f l).0
unfolding enqueue
enqueue-Kept f l = elim (Bool-cases (leb l.options.max_queued_frames (length l.writes))) [
  | inl h ↦ ground (arith, Kept-refl l, h)
  | inr h ↦ ground (arith, Kept-refl l, push_write-Kept (encode_frame f) l, h)
]

pub enqueue_or-Kept :
    (x : Outside) (error : LinkError) (f : Frame) (l : Link) → Kept l (enqueue_or x error f l)
unfolding enqueue_or
enqueue_or-Kept x error f l =
    then_Kept (enqueue-Kept f l) (if_Kept (enqueue f l).1 (Kept-refl _) (disconnect-Kept x error _))

pub become_ready-Kept : (id : Bytes) (epoch : ℕ) (l : Link) → Kept l (become_ready id epoch l)
unfolding become_ready set_peer
become_ready-Kept id epoch l =
    then_Kept (kept (λ c. refl) refl (λ s. s)) (emit_state-Kept true success _)

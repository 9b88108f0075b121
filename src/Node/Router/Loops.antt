-- ===== src/Node/Router/Loops.antt =====
-- Messages do not run in circles: a seen id is dropped, a replayed nonce is refused, each hop
-- costs one of `ttl`.
use proto_relay.Base.{leb, ◌-◌}
use proto_relay.Base.Assoc.{beq_refl}
use proto_relay.Node.Router.{blank, error_code}
use proto_relay.Base.Wire.{put as put_bytes}
use proto_relay.Base.{
  ℕ, Bool, true, false, Option, none, some, List, ◌∷◌, ◌≡◌, refl, ◌∙◌, inl, inr, ap, arith, Bytes,
  Option-cases,
}
use proto_relay.Base.Assoc
use proto_relay.Base.Assoc.{has_key, has_key-lookup, lookup-insert}
use proto_relay.Base.Eq.{nat_key, bytes_key}
use proto_relay.LruCache.{Hit, get, put}
use proto_relay.LruCache.Valid.{IsValid, get-IsValid, put-IsValid, create-IsValid}
use proto_relay.LruCache.Reads.{get-put_self, get-get}
use proto_relay.Node.Envelope.{MessageType, Envelope, Encoded, encoded, encode_envelope}
use proto_relay.Node.Router.{
  ReturnPath, MessageErrorCode, Router, Fresh, handoff, report, send_generated,
}
use proto_relay.Node.Router.Replay.{
  Window, message_id_seen_and_insert, nonce_seen_and_insert, seen_and_insert, at_window, new_window,
  window_at,
}
use proto_relay.Node.Router.Handlers.{way_back}
use proto_relay.Node.Router.Forward.{forward, forward_on, hop_on, next_hop}

-- The second look finds what the first one found or inserted.
pub seen_and_insert_twice :
    (now later id : ℕ) (w : Window)
    → IsValid w
    → (seen_and_insert later id (seen_and_insert now id w).0).1 ≡ true
unfolding seen_and_insert
seen_and_insert_twice now later id w v = elim (Option-cases (get id now w).1) [
  | inl missed ↦
      rw (missed, seen_and_insert)
        (ground (arith, get-put_self id tt now later (get id now w).0 (get-IsValid id now w v)))
  | inr (hit, found) ↦
      rw (found, seen_and_insert) (rw (get-get id now later w v found, seen_and_insert))
]

seen_and_insert-IsValid :
    (now id : ℕ) (w : Window) → IsValid w → IsValid (seen_and_insert now id w).0
unfolding seen_and_insert
seen_and_insert-IsValid now id w v = elim (Option-cases (get id now w).1) [
  | inl missed ↦
      rw (missed, seen_and_insert) (put-IsValid id tt now (get id now w).0 (get-IsValid id now w v))
  | inr (hit, found) ↦ rw (found, seen_and_insert) (get-IsValid id now w v)
]

handoff-seen_ids :
    (n : Bytes) (x : Encoded) (b : ReturnPath) (p : Bool) (c : Option ℕ) (r : Router)
    → (handoff n x b p c r).seen_ids ≡ r.seen_ids
unfolding handoff
handoff-seen_ids n (encoded w) b p c r = refl
handoff-seen_ids n (Encoded.thrown x) b p c r = refl

send_generated-seen_ids :
    (f : Fresh) (m : Envelope) (r : Router) → (send_generated f m r).seen_ids ≡ r.seen_ids
unfolding send_generated
send_generated-seen_ids f m r = handoff-seen_ids _ _ _ _ _ r

report-seen_ids :
    (f : Fresh) (b : ReturnPath) (c : MessageErrorCode) (r : Router)
    → (report f b c r).seen_ids ≡ r.seen_ids
unfolding report
report-seen_ids f b c r = ground (
  arith,
  send_generated-seen_ids f
      (blank MessageType.error b.source b.route (error_code c ∷ put_bytes 8 b.message_id)) r,
)

forward_on-seen_ids :
    (f : Fresh) (e : Envelope) (r : Router) → (forward_on f e r).seen_ids ≡ r.seen_ids
unfolding forward_on
forward_on-seen_ids f e r =
    let reported = λ (c : MessageErrorCode). report-seen_ids f (way_back e) c r in
    elim (Option-cases (next_hop r e)) [
      | inl off_path ↦
          rw (off_path, forward_on) (ground (arith, reported MessageErrorCode.unroutable))
      | inr (n, on_path) ↦
          rw (on_path, forward_on)
            (ground (
              arith,
              reported MessageErrorCode.unroutable,
              reported MessageErrorCode.ttl_exhausted,
              handoff-seen_ids n (encode_envelope (hop_on e)) (way_back e) false none r,
            ))
    ]

forward-seen_ids :
    (f : Fresh) (e : Envelope) (r : Router)
    → (forward f e r).seen_ids ≡ (seen_and_insert f.now_ms e.message_id r.seen_ids).0
unfolding forward message_id_seen_and_insert
forward-seen_ids f e r =
    ground (arith, forward_on-seen_ids f e (message_id_seen_and_insert f.now_ms e.message_id r).0)

forward_seen :
    (f : Fresh) (e : Envelope) (r : Router)
    → (seen_and_insert f.now_ms e.message_id r.seen_ids).1 ≡ true
    → forward f e r ≡ record r { seen_ids = (forward f e r).seen_ids }
unfolding forward message_id_seen_and_insert
forward_seen f e r h = rw (h, forward)

-- Ring protection: a message that comes round with an id that the router has just forwarded is
-- dropped. Nothing is posted, nothing happens outside, and no write is started.
pub forward_twice :
    (f g : Fresh) (e again : Envelope) (r : Router)
    → IsValid r.seen_ids
    → again.message_id ≡ e.message_id
    → forward g again (forward f e r)
      ≡ record (forward f e r) { seen_ids = (forward g again (forward f e r)).seen_ids }
forward_twice f g e again r v same = forward_seen g again (forward f e r) (
    rw (forward-seen_ids f e r, same)
      (seen_and_insert_twice f.now_ms g.now_ms e.message_id r.seen_ids v))

window_at-insert :
    (r : Router) (address : ℕ) (w : Window) (ws : List (ℕ × Window))
    → r.windows ≡ Assoc.insert address w ws
    → window_at r address ≡ w
unfolding window_at
window_at-insert r address w ws h =
    ground (arith, h, lookup-insert address address w ws, beq_refl address)

-- The window at an address has the nonce that was just looked up there.
at_window_twice :
    (now later nonce address : ℕ) (r s : Router)
    → IsValid (window_at r address)
    → s.windows ≡ (at_window now nonce address r).0.windows
    → (at_window later nonce address s).1 ≡ true
unfolding at_window
at_window_twice now later nonce address r s v h =
    rw (window_at-insert s address _ _ h)
      (seen_and_insert_twice now later nonce (window_at r address) v)

new_window-IsValid :
    (now : ℕ) (source : Bytes) (r : Router)
    → IsValid (window_at (new_window now source r) r.next_window)
unfolding new_window
new_window-IsValid now source r =
    rw (window_at-insert (new_window now source r) r.next_window _ _ refl)
      (create-IsValid r.options.nonce_capacity r.window)

seen_where_found :
    (now : ℕ) (source : Bytes) (nonce : ℕ) (r : Router) (g : Hit ℕ)
    → (get source now r.nonces).1 ≡ some g
    → nonce_seen_and_insert now source nonce r
      ≡ at_window now nonce g.out_value (record r { nonces = (get source now r.nonces).0 })
unfolding nonce_seen_and_insert
seen_where_found now source nonce r g h = rw (h, nonce_seen_and_insert)

seen_where_missed :
    (now : ℕ) (source : Bytes) (nonce : ℕ) (r : Router)
    → (get source now r.nonces).1 ≡ none
    → nonce_seen_and_insert now source nonce r
      ≡ at_window now nonce r.next_window
          (new_window now source (record r { nonces = (get source now r.nonces).0 }))
unfolding nonce_seen_and_insert
seen_where_missed now source nonce r h = rw (h, nonce_seen_and_insert)

at_window-nonces :
    (now nonce address : ℕ) (r : Router) → (at_window now nonce address r).0.nonces ≡ r.nonces
unfolding at_window
at_window-nonces now nonce address r = refl

new_window-nonces :
    (now : ℕ) (source : Bytes) (r : Router)
    → (new_window now source r).nonces ≡ put source r.next_window now r.nonces
unfolding new_window
new_window-nonces now source r = refl

-- Once the source's entry is found again at the same address, the nonce is seen.
found_again :
    (now later : ℕ) (source : Bytes) (nonce : ℕ) (r : Router) (g : Hit ℕ)
    → IsValid (window_at r g.out_value)
    → (get source later r.nonces).1 ≡ some g
    → (nonce_seen_and_insert later source nonce (at_window now nonce g.out_value r).0).1 ≡ true
found_again now later source nonce r g v h =
    let s = (at_window now nonce g.out_value r).0 in
    ap (λ (p : Router × Bool). p.1)
      (seen_where_found later source nonce s g (rw (at_window-nonces now nonce g.out_value r) h))
    ∙ at_window_twice now later nonce g.out_value r _ v refl

-- A replayed nonce is found: whatever window the source has, or none, the second look at the same
-- nonce reports it as seen.
pub nonce_seen_twice :
    (now later : ℕ) (source : Bytes) (nonce : ℕ) (r : Router)
    → IsValid r.nonces
    → ((address : ℕ) → IsValid (window_at r address))
    → (nonce_seen_and_insert later source nonce (nonce_seen_and_insert now source nonce r).0).1
      ≡ true
nonce_seen_twice now later source nonce r v w = elim (Option-cases (get source now r.nonces).1) [
  | inl missed ↦
      let r' = record r { nonces = (get source now r.nonces).0 } in
      rw (seen_where_missed now source nonce r missed) (
        found_again now later source nonce (new_window now source r')
          (record {
            out_value = r.next_window;
            out_stale = leb (get source now r.nonces).0.m_ttl (later - now);
          })
          (new_window-IsValid now source r')
          (rw (new_window-nonces now source r')
            (get-put_self source r.next_window now later _ (get-IsValid source now r.nonces v))))
  | inr (hit, found) ↦ rw (seen_where_found now source nonce r hit found) (
      found_again now later source nonce (record r { nonces = (get source now r.nonces).0 }) _
        (unfold window_at in w hit.out_value) (get-get source now later r.nonces v found))
]

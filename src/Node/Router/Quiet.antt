-- ===== src/Node/Router/Quiet.antt =====
-- The operations of `NodeRouter` that leave the in-flight counter and the writes alone.
use proto_relay.Node.Router.Replay.{at_window, new_window}
use proto_relay.Node.Router.Replay.{outside_tolerance}
use proto_relay.Base.Eq.{bytes_key}
use proto_relay.Node.Router.Forward.{next_hop}
use proto_relay.Node.Router.Handlers.{unseal_payload}
use proto_relay.LruCache.{get}
use proto_relay.Base.Wire.{put}
use proto_relay.Node.Router.{blank}
use proto_relay.Base.{
  ℕ, Bool, true, false, Option, none, some, ◌++◌, ◌≡◌, refl, ◌∙◌, inl, inr, arith, if◌then◌else◌,
  Bytes, Option-cases,
}
use proto_relay.Node.Envelope.{MessageType, Envelope, Decoded, Encoded, encoded}
use proto_relay.Node.Router.{
  ReturnPath, MessageErrorCode, Errc, Router, Fresh, emit, complete, handoff, report,
  send_generated,
}
use proto_relay.Node.Router.Replay.{message_id_seen_and_insert, nonce_seen_and_insert}
use proto_relay.Node.Router.Handlers.{
  Gcm, Outgoing, run_send, send_out, hand_up, open_payload, dedup, deliver, way_back,
}
use proto_relay.Node.Router.Forward.{forward, forward_on, receive, receive_decoded}

-- Nothing of what the bound is about changes.
pub record SameFlight (r s : Router) : Type 0 where
  pub in_flight : s.in_flight ≡ r.in_flight
  pub outstanding : s.outstanding ≡ r.outstanding
  pub options : s.options ≡ r.options

pub SameFlight-trans : {r s t : Router} → SameFlight r s → SameFlight s t → SameFlight r t
SameFlight-trans a b = record {
  in_flight = b.in_flight ∙ a.in_flight;
  outstanding = b.outstanding ∙ a.outstanding;
  options = b.options ∙ a.options;
}

pub handoff-SameFlight :
    (n : Bytes) (x : Encoded) (b : ReturnPath) (p : Bool) (c : Option ℕ) (r : Router)
    → SameFlight r (handoff n x b p c r)
unfolding handoff
handoff-SameFlight n (encoded w) b p c r = record {
  in_flight = refl;
  outstanding = refl;
  options = refl;
}
handoff-SameFlight n (Encoded.thrown x) b p c r = record {
  in_flight = refl;
  outstanding = refl;
  options = refl;
}

pub complete-SameFlight : (c : Option ℕ) (ec : Errc) (r : Router) → SameFlight r (complete c ec r)
unfolding complete
complete-SameFlight none ec r = record { in_flight = refl; outstanding = refl; options = refl }
complete-SameFlight (some c) ec r = record { in_flight = refl; outstanding = refl; options = refl }

pub send_generated-SameFlight :
    (f : Fresh) (m : Envelope) (r : Router) → SameFlight r (send_generated f m r)
unfolding send_generated
send_generated-SameFlight f m r = handoff-SameFlight _ _ _ _ _ r

pub SameFlight-refl : (r : Router) → SameFlight r r
SameFlight-refl r = record { in_flight = refl; outstanding = refl; options = refl }

pub SameFlight-if :
    {r : Router} (b : Bool) (s t : Router)
    → SameFlight r s
    → SameFlight r t
    → SameFlight r (if b then s else t)
SameFlight-if true s t a c = a
SameFlight-if false s t a c = c

pub report-SameFlight :
    (f : Fresh) (b : ReturnPath) (c : MessageErrorCode) (r : Router) → SameFlight r (report f b c r)
unfolding report
report-SameFlight f b c r = search (SameFlight-if, SameFlight-refl, send_generated-SameFlight)

pub send_out-SameFlight :
    (m : Envelope) (c : Option ℕ) (o : Outgoing) (r : Router) → SameFlight r (send_out m c o r)
unfolding send_out emit
send_out-SameFlight m c (Outgoing.failed ec) r = complete-SameFlight c ec r
send_out-SameFlight m c (Outgoing.to_send (Encoded.thrown x)) r = record {
  in_flight = refl;
  outstanding = refl;
  options = refl;
}
send_out-SameFlight m c (Outgoing.to_send (encoded w)) r =
    SameFlight-if _ _ _ (complete-SameFlight c _ r) (handoff-SameFlight _ _ _ _ c r)

pub run_send-SameFlight :
    (gcm : Gcm) (f : Fresh) (m : Envelope) (c : Option ℕ) (r : Router)
    → SameFlight r (run_send gcm f m c r)
unfolding run_send
run_send-SameFlight gcm f m c r =
    search (SameFlight-if, complete-SameFlight, send_out-SameFlight) depth 9

pub hand_up-SameFlight :
    (f : Fresh) (b : ReturnPath) (e : Envelope) (r : Router) → SameFlight r (hand_up f b e r)
unfolding hand_up emit
hand_up-SameFlight f b e r = ground (
  arith,
  send_generated-SameFlight f
      (blank MessageType.ack e.source b.route (put 8 e.message_id ++ e.payload)) r,
)

pub open_payload-SameFlight :
    (gcm : Gcm) (f : Fresh) (b : ReturnPath) (e : Envelope) (r : Router)
    → SameFlight r (open_payload gcm f b e r)
unfolding open_payload
open_payload-SameFlight gcm f b e r = elim (Option-cases (unseal_payload gcm e r)) [
  | inl sealed ↦
      rw (sealed, open_payload) (search (SameFlight-if, report-SameFlight, hand_up-SameFlight))
  | inr (plain, unsealed) ↦ rw (unsealed, open_payload) (search (SameFlight-if, hand_up-SameFlight))
]

pub message_id-SameFlight :
    (now id : ℕ) (r : Router) → SameFlight r (message_id_seen_and_insert now id r).0
unfolding message_id_seen_and_insert
message_id-SameFlight now id r = record { in_flight = refl; outstanding = refl; options = refl }

pub dedup-SameFlight :
    (gcm : Gcm) (f : Fresh) (b : ReturnPath) (e : Envelope) (r : Router)
    → SameFlight r (dedup gcm f b e r)
unfolding dedup
dedup-SameFlight gcm f b e r =
    SameFlight-if _ _ _
      (SameFlight-if _ _ _ (message_id-SameFlight f.now_ms e.message_id r) (
        SameFlight-trans (message_id-SameFlight f.now_ms e.message_id r)
          (open_payload-SameFlight gcm f b e _)))
      (open_payload-SameFlight gcm f b e r)

pub nonce-SameFlight :
    (now : ℕ) (source : Bytes) (nonce : ℕ) (r : Router)
    → SameFlight r (nonce_seen_and_insert now source nonce r).0
unfolding nonce_seen_and_insert at_window new_window
nonce-SameFlight now source nonce r = elim (Option-cases (get source now r.nonces).1) [
  | inl missed ↦
      rw (missed, nonce_seen_and_insert)
        (record { in_flight = refl; outstanding = refl; options = refl })
  | inr (hit, found) ↦
      rw (found, nonce_seen_and_insert)
        (record { in_flight = refl; outstanding = refl; options = refl })
]

pub deliver-SameFlight :
    (gcm : Gcm) (f : Fresh) (e : Envelope) (r : Router) → SameFlight r (deliver gcm f e r)
unfolding deliver
deliver-SameFlight gcm f e r =
    let looked = nonce-SameFlight f.now_ms e.source e.nonce r in
    SameFlight-if (outside_tolerance f.now_ms e.timestamp_ms r.options.timestamp_tolerance) _ _
      (report-SameFlight f (way_back e) MessageErrorCode.replay_rejected r)
      (SameFlight-if (nonce_seen_and_insert f.now_ms e.source e.nonce r).1 _ _
        (SameFlight-trans looked
          (report-SameFlight f (way_back e) MessageErrorCode.replay_rejected _))
        (SameFlight-trans looked (dedup-SameFlight gcm f (way_back e) e _)))

pub forward_on-SameFlight :
    (f : Fresh) (e : Envelope) (r : Router) → SameFlight r (forward_on f e r)
unfolding forward_on
forward_on-SameFlight f e r = elim (Option-cases (next_hop r e)) [
  | inl off_path ↦ rw (off_path, forward_on) (search (SameFlight-if, report-SameFlight))
  | inr (n, on_path) ↦
      rw (on_path, forward_on) (search (SameFlight-if, report-SameFlight, handoff-SameFlight))
]

pub forward-SameFlight : (f : Fresh) (e : Envelope) (r : Router) → SameFlight r (forward f e r)
unfolding forward
forward-SameFlight f e r =
    SameFlight-if _ _ _ (message_id-SameFlight f.now_ms e.message_id r) (
      SameFlight-trans (message_id-SameFlight f.now_ms e.message_id r)
        (forward_on-SameFlight f e _))

pub receive_decoded-SameFlight :
    (gcm : Gcm) (f : Fresh) (d : Decoded) (r : Router) → SameFlight r (receive_decoded gcm f d r)
unfolding receive_decoded
receive_decoded-SameFlight gcm f Decoded.malformed r = SameFlight-refl r
receive_decoded-SameFlight gcm f Decoded.unknown_version r = SameFlight-refl r
receive_decoded-SameFlight gcm f (Decoded.ok_unknown_type e) r = report-SameFlight f _ _ r
receive_decoded-SameFlight gcm f (Decoded.ok e) r =
    SameFlight-if _ _ _ (deliver-SameFlight gcm f e r) (forward-SameFlight f e r)

pub receive-SameFlight :
    (gcm : Gcm) (f : Fresh) (w : Bytes) (r : Router) → SameFlight r (receive gcm f w r)
unfolding receive
receive-SameFlight gcm f w r =
    SameFlight-if _ _ _ (SameFlight-refl r) (receive_decoded-SameFlight gcm f _ r)

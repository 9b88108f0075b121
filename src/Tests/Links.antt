-- ===== src/Tests/Links.antt =====
-- src/framework/node/node_link.cpp, at concrete inputs.
use proto_relay.Base.{
  ℕ, true, false, none, some, List, [], ◌∷◌, ◌++◌, ◌≡◌, ◌+◌, refl, bytes_eq, codes, arith, Bytes,
}
use proto_relay.Base.Assoc
use proto_relay.Base.Wire
use proto_relay.Base.Wire.{put}
use proto_relay.Node.Trust.{Snapshot, TrustStore, trusts}
use proto_relay.Node.LinkWire.{
  Frame, FrameType, Challenge, EpochUpdate, encode_frame, frame_body, decode_frame, decode_typed,
  bad_frame_id, frame_code, frame_type_of, encode_challenge, encode_auth_response, encode_sized,
  decode_challenge, decode_auth_response, decode_versioned, decode_identity, decode_epoch,
  decode_tail, read_word, read_fixed, read_sized,
}
use proto_relay.Node.LinkWire.Payloads.{decode_challenge-encode_challenge}
use proto_relay.Node.Link.{
  Link, LinkOptions, LinkError, AuthState, Outside, new_link, create_link, bad_options, disconnect,
  has_connection, emit, post, enqueue, push_write, write_next, write_front, is_failure,
  become_ready, set_peer, emit_state, complete, complete_found,
}
use proto_relay.Node.Link.Handlers.{
  peer_acceptable, seen_nonce, Credentials, handle_frame, handle_control, handle_authenticated,
  handle_hello_auth, accept_auth, verified, is_responding, is_done, consume, consume_on,
  consume_front, front, framed_or_broken, erase_front, handle_unauthenticated, first_hello, expects,
  is_hello, is_handshake, handle_hello_challenge,
}
use proto_relay.Node.Link.Sessions.{
  attach, fresh_connection, send_hello, begin_session, tick, tick_on, heartbeat, read_next,
  received,
}
use proto_relay.Node.Link.Tasks.{
  recheck_target, run_recheck, request, run_posted, run_task, run_request, send_request,
  sent_request, emplace, stop_on_executor,
}
use proto_relay.Node.Link.Events.{Event, step, run}
use proto_relay.Node.Link.Kept.{told, owed, asked, IsSound}
use proto_relay.Node.Link.Completions.{called, run-credit, run-IsSound, stop_on_executor-told}
use proto_relay.Node.Link.Handshake.{Verifies, handle_frame-ready}
use proto_relay.Node.Link.Drained.{IsDrained, consume-IsDrained}
use proto_relay.Node.Link.Revoked.{run_recheck-revoked}
use proto_relay.Node.Link.Replay.{handle_hello_challenge-replayed}

abbrev link_options : LinkOptions
link_options = record {
  node_id = codes "a";
  expected_peer_id = [];
  max_frame_bytes = 1000;
  max_pending_requests = 2;
  max_queued_frames = 8;
  heartbeat_interval = 15000;
  heartbeat_timeout = 5000;
  reconnect_min = 200;
  reconnect_max = 30000;
  use_tls = false;
}

abbrev repeated : ℕ → ℕ → Bytes
repeated Prim.Native.Nat.zero c = []
repeated (Prim.Native.Nat.suc n) c = c ∷ repeated n c

abbrev store : TrustStore
store = record {
  controller_public_key = repeated 32 1;
  snapshot = record {
    epoch = 4;
    neighbors = record { node_id = codes "b"; public_key = repeated 32 2 } ∷ [];
    revoked = [];
  };
}

-- Every signature verifies.
abbrev all_pass : Credentials
all_pass = record { sign = λ m. some (repeated 64 9); verify = λ key m s. true }

abbrev outside : Outside
outside = record { now = 100; nonce = repeated 32 5; jitter = 50; transport = none }

abbrev accepted_link : Link
accepted_link = new_link link_options false false store

accepted_created : create_link link_options false false store ≡ some accepted_link
unfolding create_link bad_options
accepted_created = refl

-- A session with a plain peer: its hello comes, a request is made and sent, and runs into its
-- timeout.
abbrev session : List (Outside × Event)
session =
    (outside, Event.accept 6)
    ∷ (outside, Event.run_next)
    ∷ (
      outside,
      Event.on_read 1 LinkError.success
          (put 4 11 ++ frame_body (record { type = FrameType.hello; id = 0; payload = codes "b" })),
    )
    ∷ (outside, Event.call_request (codes "hi") 3000 77)
    ∷ (outside, Event.run_next)
    ∷ (outside, Event.on_timeout 1)
    ∷ []

session_test : told 77 (run all_pass session accepted_link).effects ≡ 1
unfolding run step new_link post request run_posted run_task attach fresh_connection send_hello
    begin_session tick tick_on heartbeat read_next received consume consume_on consume_front front
    framed_or_broken erase_front handle_frame handle_unauthenticated first_hello expects is_hello
    is_handshake is_done enqueue push_write write_next write_front encode_frame frame_body put
    has_connection emit become_ready set_peer emit_state complete complete_found run_request
    send_request sent_request emplace Assoc.lookup Assoc.erase decode_frame decode_typed
    bad_frame_id frame_code frame_type_of Wire.get is_failure
session_test = refl

run-credit_example :
    told 77 (run all_pass session accepted_link).effects
      + (owed 77 (run all_pass session accepted_link).pending
          + asked 77 (run all_pass session accepted_link).posted)
    ≡ called 77 session
run-credit_example =
    run-credit all_pass session link_options false false store accepted_link accepted_created 77

run-IsSound_example :
    IsSound (run all_pass session accepted_link)
    × ((run all_pass session accepted_link).options ≡ link_options)
run-IsSound_example =
    run-IsSound all_pass session link_options false false store accepted_link accepted_created

stop_on_executor-told_example :
    told 77 (stop_on_executor outside (run all_pass session accepted_link)).effects
      + asked 77 (stop_on_executor outside (run all_pass session accepted_link)).posted
    ≡ called 77 session
stop_on_executor-told_example =
    stop_on_executor-told all_pass session link_options false false store accepted_link
      accepted_created outside 77

consume-IsDrained_example :
    IsDrained (consume all_pass outside (put 4 11 ++ codes "xyz") accepted_link)
consume-IsDrained_example =
    consume-IsDrained all_pass outside (put 4 11 ++ codes "xyz") accepted_link

abbrev response_frame : Frame
response_frame = record { type = FrameType.response; id = 12; payload = codes "done" }

abbrev peer_hello : Challenge
peer_hello = record { node_id = codes "b"; epoch = 4; nonce = repeated 32 7 }

peer_hello_decodes : decode_challenge (encode_challenge peer_hello) ≡ some peer_hello
peer_hello_decodes =
    decode_challenge-encode_challenge peer_hello
      (record { node_id = omega arith; epoch = omega arith; nonce = refl })

abbrev update : EpochUpdate
update = record {
  epoch = 5;
  neighbors = record { node_id = codes "b"; public_key = repeated 32 2 } ∷ [];
  revoked = codes "c" ∷ [];
  signature = repeated 64 3;
}

-- An authenticated link that has answered the challenge of its peer.
abbrev waiting_link : Link
waiting_link = record (new_link link_options false true store) {
  connection = some 6;
  auth_state = AuthState.responding;
  peer_challenge = peer_hello;
}

abbrev auth_frame : Frame
auth_frame = record {
  type = FrameType.hello_auth;
  id = 0;
  payload = encode_auth_response (record { node_id = codes "b"; epoch = 4; nonce = repeated 64 9 });
}

becomes_ready : (handle_frame all_pass outside auth_frame waiting_link).ready ≡ true
unfolding handle_frame handle_authenticated handle_control handle_hello_auth accept_auth verified
    is_responding new_link become_ready set_peer emit_state decode_auth_response decode_versioned
    decode_identity decode_epoch decode_tail read_word read_sized read_fixed Wire.get
    encode_auth_response encode_sized put bytes_eq
becomes_ready = refl

handle_frame-ready_example :
    (auth_frame.type ≡ FrameType.hello_auth)
    × Verifies all_pass outside auth_frame.payload waiting_link
handle_frame-ready_example =
    handle_frame-ready all_pass outside auth_frame waiting_link (unfold new_link in refl)
      (unfold new_link in refl) becomes_ready

-- A link that waits for a challenge, and a later session of it.
abbrev first_link : Link
first_link = record (new_link link_options false true store) { connection = some 7 }

abbrev later_link : Link
later_link = record first_link {
  connection = some 8;
  seen_nonces =
      (handle_hello_challenge all_pass outside (encode_challenge peer_hello)
        first_link).seen_nonces;
}

handle_hello_challenge-replayed_example :
    handle_hello_challenge all_pass outside (encode_challenge peer_hello) later_link
    ≡ disconnect outside LinkError.permission_denied later_link
unfolding new_link peer_acceptable seen_nonce bytes_eq trusts
handle_hello_challenge-replayed_example =
    handle_hello_challenge-replayed all_pass outside outside (encode_challenge peer_hello)
      (encode_challenge peer_hello) peer_hello peer_hello first_link later_link refl
      peer_hello_decodes refl refl refl refl peer_hello_decodes refl

-- The link has the peer "b", and the snapshot has no neighbors.
abbrev revoked_link : Link
revoked_link = record (new_link link_options true true store) {
  connection = some 6;
  peer_id = codes "b";
  ready = true;
}

abbrev emptied : Snapshot
emptied = record { epoch = 5; neighbors = []; revoked = codes "b" ∷ [] }

run_recheck-revoked_example :
    (has_connection (run_recheck outside emptied revoked_link) ≡ false)
    × ((run_recheck outside emptied revoked_link).peer_revoked ≡ true)
    × ((run_recheck outside emptied revoked_link).reconnect_count ≡ revoked_link.reconnect_count)
unfolding new_link recheck_target bytes_eq trusts
run_recheck-revoked_example = run_recheck-revoked outside emptied revoked_link refl refl refl refl

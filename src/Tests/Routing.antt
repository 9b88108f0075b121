-- ===== src/Tests/Routing.antt =====
-- src/framework/node/node_proto.cpp, the router, at concrete inputs.
use proto_relay.Base.{ℕ, ◌<◌, true, false, none, some, [], ◌∷◌, ◌++◌, ◌≡◌, refl, bytes_eq, codes}
use proto_relay.Base.Assoc
use proto_relay.Base.Eq.{nat_key, bytes_key}
use proto_relay.LruCache.{get}
use proto_relay.LruCache.Valid.{IsValid, create-IsValid}
use proto_relay.Node.Envelope.{encoded, encode_envelope, encode_header}
use proto_relay.Node.Router.{Router, Fresh, Handoff, Task, new_router, post, handoff}
use proto_relay.Node.Router.Replay.{
  nonce_seen_and_insert, seen_and_insert, message_id_seen_and_insert, window_at,
}
use proto_relay.Node.Router.Handlers.{Gcm, way_back}
use proto_relay.Node.Router.Forward.{forward, forward_on, next_hop, hop_on, receive, run_task}
use proto_relay.Node.Router.Flight.{Step, here, next, IsCounted, Reach-IsCounted}
use proto_relay.Node.Router.Loops.{forward_twice, nonce_seen_twice}
use proto_relay.Node.Router.Hops.{forward-hop_on, one_hop_less}
use proto_relay.Tests.Envelopes.{default_options, letter}

-- A cipher that appends an empty tag, and takes it off.
abbrev plain_gcm : Gcm
plain_gcm = record { seal = λ k n a p. some p; unseal = λ k n a c. some c }

abbrev clock : Fresh
clock = record { now_ms = 1700000000100; rand32 = 5; rand64 = 6 }

abbrev relay : Router
relay = new_router (codes "c") default_options

abbrev forwarded : Handoff
forwarded = record {
  next = codes "d";
  wire = encode_header (hop_on letter) 2 ++ codes "hi";
  back = way_back letter;
  is_report = false;
  completion = none;
}

-- The relay passes the letter on to its destination.
forward_test : (forward clock letter relay).posted ≡ Task.task_handoff forwarded ∷ []
unfolding forward forward_on message_id_seen_and_insert seen_and_insert next_hop get Assoc.lookup
    handoff post encode_envelope bytes_eq new_router hop_on way_back
forward_test = refl

forward-hop_on_example :
    (encode_envelope (one_hop_less letter) ≡ encoded forwarded.wire) × (0 < letter.ttl)
unfolding new_router
forward-hop_on_example = forward-hop_on clock letter relay forwarded forward_test refl

relay_ids-IsValid : IsValid relay.seen_ids
unfolding new_router
relay_ids-IsValid = create-IsValid 4096 60

forward_twice_example :
    forward clock letter (forward clock letter relay) ≡ record (forward clock letter relay) {
      seen_ids = (forward clock letter (forward clock letter relay)).seen_ids;
    }
forward_twice_example = forward_twice clock clock letter letter relay relay_ids-IsValid refl

relay_nonces-IsValid : IsValid relay.nonces
unfolding new_router
relay_nonces-IsValid = create-IsValid 256 60

relay_windows-IsValid : (address : ℕ) → IsValid (window_at relay address)
unfolding new_router window_at Assoc.lookup
relay_windows-IsValid address = create-IsValid 4096 60

nonce_seen_twice_example :
    (nonce_seen_and_insert 9 (codes "a") 77 (nonce_seen_and_insert 8 (codes "a") 77 relay).0).1
    ≡ true
nonce_seen_twice_example =
    nonce_seen_twice 8 9 (codes "a") 77 relay relay_nonces-IsValid relay_windows-IsValid

-- A link to `d`, then a letter from the link's other end, passed on.
abbrev linked : Router
linked = post (Task.task_attach (codes "d") 1) relay

attached : linked.posted ≡ Task.task_attach (codes "d") 1 ∷ []
unfolding post new_router
attached = refl

abbrev ready : Router
ready = run_task plain_gcm clock (Task.task_attach (codes "d") 1) (record linked { posted = [] })

Reach-IsCounted_example : IsCounted (receive plain_gcm clock (codes "no envelope") ready)
Reach-IsCounted_example = Reach-IsCounted plain_gcm (codes "c") default_options (
    next
      (next (next here (Step.request (Task.task_attach (codes "d") 1) relay tt))
        (Step.run clock (Task.task_attach (codes "d") 1) [] linked attached))
      (Step.frame clock (codes "no envelope") ready))

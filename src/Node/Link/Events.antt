-- ===== src/Node/Link/Events.antt =====
-- src/framework/node/node_link.cpp: what happens to a link, as events: the calls from outside the
-- executor, the posted tasks, and the callbacks of the connection and the timers.
use proto_relay.Base.{ℕ, Option, List, [], ◌∷◌, if◌then◌else◌, Bytes}
use proto_relay.Node.Trust.{Snapshot}
use proto_relay.Node.Link.{Link, LinkError, Task, Outside, post, complete}
use proto_relay.Node.Link.Handlers.{Credentials}
use proto_relay.Node.Link.Sessions.{tick, begin_connect, connected, tls_done, received, written}
use proto_relay.Node.Link.Tasks.{run_posted, request, stop}

-- What happens to a link: a call from outside, the next posted task, a callback of the connection
-- or a timer. A callback carries the generation that it was made in.
pub data Event : Type 0 where
  call_request : Bytes → ℕ → ℕ → Event
  call_start : ℕ → Event
  call_cancel : ℕ → Event
  call_respond : ℕ → Bytes → Event
  call_notify : Bytes → Option ℕ → Event
  call_epoch_config : Bytes → Option ℕ → Event
  call_on_request : Event
  call_on_notify : Event
  call_on_state : Event
  call_stop : Event
  accept : ℕ → Event
  trust_changed : Snapshot → Event
  run_next : Event
  on_connected : ℕ → ℕ → LinkError → Event
  on_tls : ℕ → ℕ → LinkError → Event
  on_read : ℕ → LinkError → Bytes → Event
  on_written : ℕ → LinkError → Event
  on_heartbeat : ℕ → Event
  on_timeout : ℕ → Event
  on_reconnect : Event

-- The shared store has a new snapshot: another link's `apply` tells this link's listener.
unfoldable pub hear_trust : Snapshot → Link → Link
hear_trust snapshot l =
    post (Task.task_recheck snapshot) (record l { trust = record l.trust { snapshot = snapshot } })

unfoldable pub step : Credentials → Outside → Event → Link → Link
unfolding request stop hear_trust run_posted received written connected tls_done tick begin_connect
step k x (call_request payload timeout completion) l = request payload timeout completion l
step k x (call_start port) l = if l.client then post (Task.task_start port) l else l
step k x (call_cancel id) l = post (Task.task_cancel id) l
step k x (call_respond id payload) l = post (Task.task_respond id payload) l
step k x (call_notify payload completion) l = post (Task.task_notify payload completion) l
step k x (call_epoch_config payload completion) l =
    post (Task.task_epoch_config payload completion) l
step k x call_on_request l = post Task.task_on_request l
step k x call_on_notify l = post Task.task_on_notify l
step k x call_on_state l = post Task.task_on_state l
step k x call_stop l = stop l
step k x (accept connection) l = post (Task.task_attach connection) l
step k x (trust_changed snapshot) l = hear_trust snapshot l
step k x run_next l = run_posted x l.posted l
step k x (on_connected generation transport error) l = connected x generation transport error l
step k x (on_tls generation transport error) l = tls_done x generation transport error l
step k x (on_read generation error bytes) l = received k x generation error bytes l
step k x (on_written generation error) l = written x generation error l
step k x (on_heartbeat generation) l = tick x generation l
step k x (on_timeout id) l = complete id LinkError.timed_out [] l
step k x on_reconnect l = begin_connect x l

-- The events in their order, each with what it reads from the outside.
unfoldable pub run : Credentials → List (Outside × Event) → Link → Link
unfolding step
run k [] l = l
run k ((x, e) ∷ es) l = run k es (step k x e l)

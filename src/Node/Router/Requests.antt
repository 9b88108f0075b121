-- ===== src/Node/Router/Requests.antt =====
-- src/framework/node/node_proto.cpp: the public operations of `NodeRouter`, which check their
-- arguments and post a task; `none` where the source throws `invalid_argument`.
use proto_relay.Base.{ℕ, ◌||◌, Option, none, some, length, ltb, ◌==◌, if◌then◌else◌, Bytes}
use proto_relay.Node.Envelope.{Envelope}
use proto_relay.Node.Router.{Router, Task, post}

unfoldable pub add_key : ℕ → Bytes → Router → Option Router
add_key key_id key r =
    if length key == 32 then some (post (Task.task_add_key key_id key) r) else none

-- A link is a number here, so `!link` does not arise.
unfoldable pub attach : Bytes → ℕ → Router → Option Router
attach neighbor_id link r =
    if length neighbor_id == 0 || ltb r.options.max_node_id_bytes (length neighbor_id)
    then none
    else some (post (Task.task_attach neighbor_id link) r)

unfoldable pub detach : Bytes → Router → Router
detach neighbor_id r = post (Task.task_detach neighbor_id) r

unfoldable pub on_message : Router → Router
on_message r = post Task.task_on_message r

unfoldable pub on_error_report : Router → Router
on_error_report r = post Task.task_on_error_report r

unfoldable pub send : Envelope → Option ℕ → Router → Router
send m completion r = post (Task.task_send m completion) r

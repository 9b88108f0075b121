-- ===== src/Node/Router/Guarantees.antt =====
-- What the router promises about reports, hops, loops and the way back.
use mathlib.Core.List.{reverse, reverse-append, reverse-cons}
use proto_relay.Base.{
  ℕ, All, ◌-◌, ◌^◌, ◌≤◌, ◌<◌, true, false, List, [], ◌∷◌, ◌++◌, ◌≡◌, ◌↔◌, ◌⊎◌, refl, arith, length,
  take, drop, length-append, drop-append, length-drop, take-append-drop, Bytes,
}
use proto_relay.Base.Assoc
use proto_relay.Base.Eq.{nat_key, bytes_key}
use proto_relay.Node.Envelope.{Envelope}
use proto_relay.Node.Router.{Task, Router, Fresh, return_route, Errc}
use proto_relay.Node.Router.Replay.{outside_tolerance}
use proto_relay.Node.Router.Forward.{run_handoff, notify_done}

length-reverse {ℓ} : {A : Type ℓ} (xs : List A) → length (reverse xs) ≡ length xs
length-reverse [] = refl
length-reverse (x ∷ xs) =
    rw (reverse-cons x xs) (omega (arith, length-append (reverse xs) (x ∷ []), length-reverse xs))

drop-reverse {ℓ} :
    {A : Type ℓ} (xs ys : List A) → drop (length ys) (reverse (xs ++ ys)) ≡ reverse xs
drop-reverse xs ys =
    rw (reverse-append xs ys) (rw (← length-reverse ys) (drop-append (reverse ys) (reverse xs)))

-- The way back runs through the hops consumed so far, the latest first.
pub return_route-reverse-take :
    (route : List Bytes) (consumed : ℕ)
    → consumed ≤ length route
    → return_route route consumed ≡ reverse (take consumed route)
unfolding return_route
return_route-reverse-take route consumed h =
    let rest : length (drop consumed route) ≡ length route - consumed =
      length-drop consumed route in
    rw (← rest) (
      rw (take-append-drop consumed route) at
        (drop-reverse {A = Bytes} (take consumed route) (drop consumed route)))

-- For clocks below 2^63 ms the test of `deliver` is the distance from the clock.
pub outside_tolerance_iff :
    (now timestamp tolerance : ℕ)
    → now < 2 ^ 63
    → timestamp < 2 ^ 63
    → (outside_tolerance now timestamp tolerance ≡ true)
      ↔ ((tolerance < now - timestamp) ⊎ (tolerance < timestamp - now))
unfolding outside_tolerance
outside_tolerance_iff now timestamp tolerance a b = (λ h. ground arith, λ h. ground arith)

-- A message, not a report, whose failure is reported to nobody.
abbrev pub Silent : Task → Type 0
Silent (Task.task_handoff h) = (h.is_report ≡ false) × (h.back.silent ≡ true)
Silent _ = ⊥

-- What a router posts on the way from one state to another.
record Posts (r s : Router) : Type 0 where
  new : List Task
  all_posted : s.posted ≡ r.posted ++ new
  all_silent : All Silent new

-- The task runs, and the callback of its write, with or without an error, and nothing is posted.
abbrev pub PostsNothing : Fresh → Errc → Router → Task → Type 0
PostsNothing f ec r (Task.task_handoff h) =
    (h.is_report ≡ false)
    × (((run_handoff f h r).posted ≡ r.posted) × ((notify_done f h ec r).posted ≡ r.posted))
PostsNothing f ec r _ = ⊥

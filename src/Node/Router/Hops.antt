-- ===== src/Node/Router/Hops.antt =====
-- Each forward costs one of `ttl`.
use proto_relay.Base.{◌==◌}
use mathlib.Core.List.{append_cancel_left}
use proto_relay.Base.{
  ℕ, ◌+◌, ◌-◌, ◌<◌, ap, length, ltb, Bool, true, false, not, Option, none, List, [], ◌∷◌, ◌++◌, ◌≡◌,
  refl, ◌∙◌, sym, inl, inr, arith, if◌then◌else◌, Bytes, Option-cases,
}
use proto_relay.Base.Eq.{nat_key, bytes_key}
use proto_relay.Node.Envelope.{Envelope, Encoded, encoded, encode_envelope}
use proto_relay.Node.Router.{
  ReturnPath, MessageErrorCode, Handoff, Task, Router, Fresh, handoff, report, send_generated,
}
use proto_relay.Node.Router.Replay.{message_id_seen_and_insert, seen_and_insert}
use proto_relay.Node.Router.Forward.{forward, forward_on, hop_on, next_hop}

append_nil_absurd {ℓ} : {A : Type ℓ} (xs : List A) (y : A) → xs ≡ xs ++ y ∷ [] → ⊥
append_nil_absurd [] y h = cc
append_nil_absurd (x ∷ xs) y h =
    let shorter : xs ≡ xs ++ y ∷ [] = cc in append_nil_absurd xs y shorter

-- A report posts nothing, or one task that is marked as a report.
data Reported (r s : Router) : Type 0 where
  nothing : s.posted ≡ r.posted → Reported r s
  one :
      (h : Handoff)
      → s.posted ≡ r.posted ++ Task.task_handoff h ∷ []
      → h.is_report ≡ true
      → Reported r s

handoff-Reported :
    (n : Bytes) (x : Encoded) (b : ReturnPath) (c : Option ℕ) (r : Router)
    → Reported r (handoff n x b true c r)
unfolding handoff
handoff-Reported n (encoded w) b c r = one _ refl refl
handoff-Reported n (Encoded.thrown x) b c r = nothing refl

Reported-if :
    (b : Bool) (r s t : Router) → Reported r s → Reported r t → Reported r (if b then s else t)
Reported-if true r s t a c = a
Reported-if false r s t a c = c

unchanged : (r : Router) → Reported r r
unchanged r = nothing refl

report-Reported :
    (f : Fresh) (b : ReturnPath) (c : MessageErrorCode) (r : Router) → Reported r (report f b c r)
unfolding report send_generated
report-Reported f b c r = search (Reported-if, unchanged, handoff-Reported)

Reported-only :
    {r s : Router} (h : Handoff)
    → Reported r s
    → s.posted ≡ r.posted ++ Task.task_handoff h ∷ []
    → h.is_report ≡ true
Reported-only {r} h (nothing e) left = absurd (append_nil_absurd r.posted _ (sym e ∙ left))
Reported-only {r} h (one k e is) left =
    let same : Task.task_handoff k ∷ [] ≡ Task.task_handoff h ∷ [] =
      append_cancel_left r.posted _ _ (sym e ∙ left) in
    ground arith

handoff_only :
    (n : Bytes) (x : Encoded) (b : ReturnPath) (c : Option ℕ) (r : Router) (h : Handoff)
    → (handoff n x b false c r).posted ≡ r.posted ++ Task.task_handoff h ∷ []
    → x ≡ encoded h.wire
unfolding handoff
handoff_only n (encoded w) b c r h left =
    let same : Task.task_handoff
            (record { next = n; wire = w; back = b; is_report = false; completion = c })
          ∷ []
        ≡ Task.task_handoff h ∷ [] =
      append_cancel_left r.posted _ _ left in
    ground arith
handoff_only n (Encoded.thrown x) b c r h left = absurd (append_nil_absurd r.posted _ left)

-- The envelope of the next hop, written out: `ttl` is one less, the next route entry is consumed while
-- the route lasts, and all else is as it came.
abbrev pub one_hop_less : Envelope → Envelope
one_hop_less e = record e {
  ttl = e.ttl - 1;
  route_pos = if ltb e.route_pos (length e.route) then e.route_pos + 1 else e.route_pos;
}

hop_on-one_hop_less : (e : Envelope) → hop_on e ≡ one_hop_less e
unfolding hop_on
hop_on-one_hop_less e = ap (λ p. record e { ttl = e.ttl - 1; route_pos = p }) (ground arith)

-- A message that leaves on the way from `r` to `s` is `e` with one hop less to go.
record HopSpent (e : Envelope) (r s : Router) : Type 0 where
  spent :
      (h : Handoff)
      → s.posted ≡ r.posted ++ Task.task_handoff h ∷ []
      → h.is_report ≡ false
      → (encode_envelope (one_hop_less e) ≡ encoded h.wire) × (0 < e.ttl)

HopSpent-if :
    (e : Envelope) (b : Bool) (r s t : Router)
    → (b ≡ true → HopSpent e r s)
    → (b ≡ false → HopSpent e r t)
    → HopSpent e r (if b then s else t)
HopSpent-if e true r s t a c = a refl
HopSpent-if e false r s t a c = c refl

HopSpent-refl : (e : Envelope) (r : Router) → HopSpent e r r
HopSpent-refl e r = record { spent = λ h left m. absurd (append_nil_absurd r.posted _ left) }

report-HopSpent :
    (e : Envelope) (f : Fresh) (b : ReturnPath) (c : MessageErrorCode) (r : Router)
    → HopSpent e r (report f b c r)
report-HopSpent e f b c r = record {
  spent = λ h left message.
      let is = Reported-only h (report-Reported f b c r) left in absurd (clash h is message);
}
  where
    clash : (h : Handoff) → h.is_report ≡ true → h.is_report ≡ false → ⊥
    clash h p q = cc

HopSpent-handoff :
    (e : Envelope) (n : Bytes) (b : ReturnPath) (r : Router)
    → (e.ttl == 0) ≡ false
    → HopSpent e r (handoff n (encode_envelope (hop_on e)) b false none r)
HopSpent-handoff e n b r more = record {
  spent = λ h left message. (
    ap encode_envelope (sym (hop_on-one_hop_less e))
        ∙ handoff_only n (encode_envelope (hop_on e)) b none r h left,
    ground (arith, more),
  );
}

forward_on-HopSpent : (f : Fresh) (e : Envelope) (r : Router) → HopSpent e r (forward_on f e r)
unfolding forward_on
forward_on-HopSpent f e r = elim (Option-cases (next_hop r e)) [
  | inl off_path ↦
      rw (off_path, forward_on)
        (HopSpent-if e (not r.options.forward_enabled) r _ _ (λ _. report-HopSpent e f _ _ r)
          (λ _. report-HopSpent e f _ _ r))
  | inr (n, on_path) ↦
      rw (on_path, forward_on)
        (HopSpent-if e (not r.options.forward_enabled) r _ _ (λ _. report-HopSpent e f _ _ r)
          (λ _.
            HopSpent-if e (e.ttl == 0) r _ _ (λ _. report-HopSpent e f _ _ r)
              (λ more. HopSpent-handoff e n _ r more)))
]

forward-HopSpent : (f : Fresh) (e : Envelope) (r : Router) → HopSpent e r (forward f e r)
unfolding forward message_id_seen_and_insert
forward-HopSpent f e r =
    HopSpent-if e (seen_and_insert f.now_ms e.message_id r.seen_ids).1 r _ _
      (λ _. record { spent = (HopSpent-refl e r).spent })
      (λ _. record {
        spent =
            (forward_on-HopSpent f e (message_id_seen_and_insert f.now_ms e.message_id r).0).spent;
      })

-- A message, not a report, that leaves `forward` is the encoding of the envelope that came with its `ttl`
-- one less and, while the route lasts, its `route_pos` one more, every other field unchanged; and the
-- `ttl` that came was above 0, so with `ttl` 0 nothing but a report leaves.
pub forward-hop_on :
    (f : Fresh) (e : Envelope) (r : Router) (h : Handoff)
    → (forward f e r).posted ≡ r.posted ++ Task.task_handoff h ∷ []
    → h.is_report ≡ false
    → (encode_envelope (one_hop_less e) ≡ encoded h.wire) × (0 < e.ttl)
forward-hop_on f e r = (forward-HopSpent f e r).spent

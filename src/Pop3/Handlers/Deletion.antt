-- ===== src/Pop3/Handlers/Deletion.antt =====
-- include/mail_system/back/mailServer/fsm/pop3/traditional_pop3_fsm.tpp, `handle_dele`: which message
-- it marks, and what it does to the numbers of the others.
use proto_relay.Base.{
  ℕ, zero, suc, ◌+◌, ◌^◌, ◌<◌, ◌≡◌, refl, sym, ap, ◌∙◌, arith, Bool, true, false, ◌&&◌, not, some,
  List, [], ◌∷◌, ◌++◌, length, ◌==◌, if◌then◌else◌, Bytes, codes,
}
use proto_relay.Pop3.{Message, Context, Pop3Session}
use proto_relay.Pop3.Numbers.{decimal, safe_stoull}
use proto_relay.Pop3.Numbers.Decimals.{parse_uint-decimal, decimal-length}
use proto_relay.Pop3.Listing.{marked, live, find_nth, find_message}
use proto_relay.Pop3.Listing.Numbering.{message_at, find_message-live}
use proto_relay.Pop3.Handlers.{delete_found, mark_deleted, handle_dele}
use proto_relay.Pop3.Commands.Kept.{has_id}
use proto_relay.Pop3.Commands.KeptHandlers.{send_line-core}

find_nth-unmarked :
    (n seen : ℕ) (deleted : List ℕ) (ms : List Message) (m : Message)
    → find_nth n seen deleted ms ≡ some m
    → marked m.mail_id deleted ≡ false
unfolding find_nth
find_nth-unmarked n seen deleted [] m e = ground (arith, e)
find_nth-unmarked n seen deleted (x ∷ ms) m e =
    step (marked x.mail_id deleted) (seen + 1 == n) refl (find_nth-unmarked n seen deleted ms m)
      (find_nth-unmarked n (seen + 1) deleted ms m) e
  where
    step :
        (a b : Bool)
        → marked x.mail_id deleted ≡ a
        → (find_nth n seen deleted ms ≡ some m → marked m.mail_id deleted ≡ false)
        → (find_nth n (seen + 1) deleted ms ≡ some m → marked m.mail_id deleted ≡ false)
        → (if a
            then find_nth n seen deleted ms
            else if b
            then some x
            else find_nth n (seen + 1) deleted ms)
          ≡ some m
        → marked m.mail_id deleted ≡ false
    step true b q f g r = f r
    step false true q f g r =
        let same : x ≡ m = cc r in sym (ap (λ y. marked y.mail_id deleted) same) ∙ q
    step false false q f g r = g r

-- A message that a number names is not marked as deleted.
pub find_message-unmarked :
    (c : Context) (n : ℕ) (m : Message)
    → find_message c n ≡ some m
    → marked m.mail_id c.deleted ≡ false
unfolding find_message
find_message-unmarked c n m e = ground (arith, e, find_nth-unmarked n 0 c.deleted c.messages m)

delete_found-marks :
    (n : ℕ) (m : Message) (s : Pop3Session)
    → marked m.mail_id s.context.deleted ≡ false
    → (delete_found n (some m) s).context
      ≡ record s.context { deleted = m.mail_id ∷ s.context.deleted }
unfolding delete_found mark_deleted
delete_found-marks n m s e = rw (e) (
    ap (λ c. c.1)
      (send_line-core (codes "+OK message " ++ (decimal n ++ codes " deleted"))
        (mark_deleted m.mail_id s)))

-- DELE with the decimal of a number below 2^64 that names a message, counted over those that are not
-- marked, adds that message's id to the marks, and changes nothing else of the context.
pub handle_dele-marks :
    (k : ℕ) (m : Message) (s : Pop3Session)
    → k + 1 < 2 ^ 64
    → s.last_args ≡ decimal (k + 1)
    → message_at k (live s.context.deleted s.context.messages) ≡ some m
    → (handle_dele s).context ≡ record s.context { deleted = m.mail_id ∷ s.context.deleted }
unfolding handle_dele
handle_dele-marks k m s small a e =
    let number = ap safe_stoull a ∙ (parse_uint-decimal (k + 1) small).1 in
    let found = ap (find_message s.context) number ∙ (find_message-live s.context k ∙ e) in
    let some_args : (length s.last_args == 0) ≡ false =
      given s.last_args (ap length a) (decimal-length (k + 1)) in
    rw (some_args, found)
      (delete_found-marks (safe_stoull s.last_args) m s
        (find_message-unmarked s.context (safe_stoull s.last_args) m found))
  where
    given :
        (args : Bytes)
        → length args ≡ length (decimal (k + 1))
        → 0 < length (decimal (k + 1))
        → (length args == 0) ≡ false
    given args p q = ground (arith, p, q)

-- The mailbox has each id once.
unfoldable pub all_unlike : List Message → Bool
all_unlike [] = true
all_unlike (m ∷ ms) = not (has_id m.mail_id ms) && all_unlike ms

live-absent :
    (id : ℕ) (deleted : List ℕ) (ms : List Message)
    → has_id id ms ≡ false
    → live (id ∷ deleted) ms ≡ live deleted ms
unfolding live marked
live-absent id deleted [] h = refl
live-absent id deleted (m ∷ ms) h = ground (arith, h, live-absent id deleted ms)

message_at-has_id :
    (k : ℕ) (deleted : List ℕ) (ms : List Message) (m : Message)
    → message_at k (live deleted ms) ≡ some m
    → has_id m.mail_id ms ≡ true
unfolding live message_at
message_at-has_id k deleted [] m e = ground (arith, e)
message_at-has_id zero deleted (x ∷ ms) m e = ground (arith, e, message_at-has_id 0 deleted ms m)
message_at-has_id (suc k) deleted (x ∷ ms) m e =
    ground (arith, e, message_at-has_id (suc k) deleted ms m, message_at-has_id k deleted ms m)

live-renumbered :
    (k : ℕ) (deleted : List ℕ) (ms : List Message) (m : Message)
    → all_unlike ms ≡ true
    → message_at k (live deleted ms) ≡ some m
    → message_at k (live (m.mail_id ∷ deleted) ms) ≡ message_at (k + 1) (live deleted ms)
unfolding live marked message_at all_unlike
live-renumbered k deleted [] m u e = ground (arith, e)
live-renumbered zero deleted (x ∷ ms) m u e =
    ground (arith, u, e, live-renumbered 0 deleted ms m, live-absent m.mail_id deleted ms)
live-renumbered (suc k) deleted (x ∷ ms) m u e = ground (
  arith,
  u,
  e,
  live-renumbered (suc k) deleted ms m,
  live-renumbered k deleted ms m,
  message_at-has_id k deleted ms m,
)

-- In a mailbox where no id comes twice, behind a DELE with the decimal of a number below 2^64 that names
-- a message, the number names the message that had the next number: the messages behind it move down.
pub handle_dele-renumbers :
    (k : ℕ) (m : Message) (s : Pop3Session)
    → k + 1 < 2 ^ 64
    → s.last_args ≡ decimal (k + 1)
    → all_unlike s.context.messages ≡ true
    → message_at k (live s.context.deleted s.context.messages) ≡ some m
    → find_message (handle_dele s).context (k + 1) ≡ find_message s.context (k + 1 + 1)
handle_dele-renumbers k m s small a u e =
    ap (λ c. find_message c (k + 1)) (handle_dele-marks k m s small a e)
    ∙ (find_message-live (record s.context { deleted = m.mail_id ∷ s.context.deleted }) k
        ∙ (live-renumbered k s.context.deleted s.context.messages m u e
            ∙ sym (find_message-live s.context (k + 1))))

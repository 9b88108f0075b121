-- ===== src/Pop3/Listing/Numbering.antt =====
-- include/mail_system/back/mailServer/fsm/pop3/traditional_pop3_fsm.tpp: which message a number names.
use proto_relay.Base.{
  ℕ, zero, suc, ◌+◌, ◌≤◌, ◌≡◌, refl, arith, Option, none, some, List, [], ◌∷◌, length,
}
use proto_relay.Pop3.{Message, Context}
use proto_relay.Pop3.Listing.{live, find_nth, find_message}

-- The message at a position of a list, from 0.
unfoldable pub message_at : ℕ → List Message → Option Message
message_at n [] = none
message_at zero (m ∷ ms) = some m
message_at (suc n) (m ∷ ms) = message_at n ms

find_nth-message_at :
    (k seen : ℕ) (deleted : List ℕ) (ms : List Message)
    → find_nth (seen + 1 + k) seen deleted ms ≡ message_at k (live deleted ms)
unfolding find_nth live message_at
find_nth-message_at k seen deleted [] = refl
find_nth-message_at zero seen deleted (m ∷ ms) =
    ground (arith, find_nth-message_at 0 seen deleted ms)
find_nth-message_at (suc k) seen deleted (m ∷ ms) = ground (
  arith,
  find_nth-message_at (suc k) seen deleted ms,
  find_nth-message_at k (seen + 1) deleted ms,
)

live-length : (deleted : List ℕ) (ms : List Message) → length (live deleted ms) ≤ length ms
unfolding live
live-length deleted [] = omega arith
live-length deleted (m ∷ ms) = ground (arith, live-length deleted ms)

message_at-beyond : (k : ℕ) (ms : List Message) → length ms ≤ k → message_at k ms ≡ none
unfolding message_at
message_at-beyond k [] h = refl
message_at-beyond zero (m ∷ ms) h = ground (arith, h)
message_at-beyond (suc k) (m ∷ ms) h = message_at-beyond k ms (omega (arith, h))

-- The number of RETR, DELE, LIST and UIDL counts the messages that are not marked.
pub find_message-live :
    (c : Context) (k : ℕ) → find_message c (k + 1) ≡ message_at k (live c.deleted c.messages)
unfolding find_message
find_message-live c k = ground (
  arith,
  find_nth-message_at k 0 c.deleted c.messages,
  live-length c.deleted c.messages,
  message_at-beyond k (live c.deleted c.messages),
)

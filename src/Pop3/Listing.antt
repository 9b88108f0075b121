-- ===== src/Pop3/Listing.antt =====
-- include/mail_system/back/mailServer/fsm/pop3/traditional_pop3_fsm.tpp: the messages that are not
-- marked as deleted, their numbers, and the replies that list them.
pub mod Numbering
use proto_relay.Base.{
  ℕ, zero, suc, ◌+◌, ◌%◌, ◌^◌, Bool, true, false, ◌&&◌, ◌||◌, not, Option, none, some, List, [],
  ◌∷◌, ◌++◌, length, ltb, leb, ◌==◌, if◌then◌else◌, Bytes, codes,
}
use proto_relay.Pop3.{Message, Context}
use proto_relay.Pop3.Numbers.{decimal, safe_stoull}

-- `deleted.count(id)`
unfoldable pub marked : ℕ → List ℕ → Bool
marked id [] = false
marked id (d ∷ ds) = d == id || marked id ds

unfoldable pub live : List ℕ → List Message → List Message
unfolding marked
live deleted [] = []
live deleted (m ∷ ms) =
    let rest = live deleted ms in if marked m.mail_id deleted then rest else m ∷ rest

unfoldable pub total_size : List Message → ℕ
total_size [] = 0
total_size (m ∷ ms) = (m.size + total_size ms) % 2 ^ 64

-- The loops with `if (++seen == n)`.
unfoldable pub find_nth : ℕ → ℕ → List ℕ → List Message → Option Message
unfolding marked
find_nth n seen deleted [] = none
find_nth n seen deleted (m ∷ ms) =
    let next = find_nth n (seen + 1) deleted ms in
    let skipped = find_nth n seen deleted ms in
    if marked m.mail_id deleted then skipped else if seen + 1 == n then some m else next

-- The message of an argument, with the check of the range.
unfoldable pub find_message : Context → ℕ → Option Message
unfolding find_nth
find_message c n =
    if ltb n 1 || ltb (length c.messages) n then none else find_nth n 0 c.deleted c.messages

abbrev pub crlf : Bytes
crlf = 13 ∷ 10 ∷ []

abbrev pub no_such_message : Bytes
no_such_message = codes "-ERR no such message"

unfoldable pub stat_reply : Context → Bytes
unfolding live total_size decimal
stat_reply c =
    let ms = live c.deleted c.messages in
    codes "+OK " ++ (decimal (length ms) ++ (codes " " ++ decimal (total_size ms)))

unfoldable pub scan_lines : ℕ → List Message → Bytes
unfolding decimal
scan_lines n [] = []
scan_lines n (m ∷ ms) =
    decimal (n + 1) ++ (codes " " ++ (decimal m.size ++ (crlf ++ scan_lines (n + 1) ms)))

unfoldable pub uid_lines : ℕ → List Message → Bytes
unfolding decimal
uid_lines n [] = []
uid_lines n (m ∷ ms) =
    decimal (n + 1) ++ (codes " " ++ (decimal m.mail_id ++ (crlf ++ uid_lines (n + 1) ms)))

unfoldable pub one_line : ℕ → Option ℕ → Bytes
unfolding decimal
one_line n none = no_such_message
one_line n (some value) = codes "+OK " ++ (decimal n ++ (codes " " ++ decimal value))

unfoldable pub size_of : Option Message → Option ℕ
size_of none = none
size_of (some m) = some m.size

unfoldable pub id_of : Option Message → Option ℕ
id_of none = none
id_of (some m) = some m.mail_id

unfoldable pub list_reply : Bytes → Context → Bytes
unfolding live total_size scan_lines one_line size_of find_message safe_stoull
list_reply args c =
    if not (length args == 0)
    then one_line (safe_stoull args) (size_of (find_message c (safe_stoull args)))
    else (let ms = live c.deleted c.messages in
        codes "+OK "
        ++ (decimal (length ms)
            ++ (codes " messages ("
                ++ (decimal (total_size ms)
                    ++ (codes " octets)" ++ (crlf ++ (scan_lines 0 ms ++ (codes "." ++ crlf))))))))

unfoldable pub uidl_reply : Bytes → Context → Bytes
unfolding live uid_lines one_line id_of find_message safe_stoull
uidl_reply args c =
    if not (length args == 0)
    then one_line (safe_stoull args) (id_of (find_message c (safe_stoull args)))
    else codes "+OK Unique-ID listing follows"
      ++ (crlf ++ (uid_lines 0 (live c.deleted c.messages) ++ (codes "." ++ crlf)))

-- ===== src/Pop3/Retrieve/Transparency.antt =====
-- include/mail_system/back/mailServer/fsm/pop3/traditional_pop3_fsm.tpp: what a client reads from the
-- body that RETR sends, by RFC 1939, section 3.
use proto_relay.Base.{
  ℕ, ◌≡◌, refl, ap, sym, ◌∙◌, arith, Bool, true, false, ◌&&◌, not, Option, none, some, List, [],
  ◌∷◌, ◌++◌, ◌==◌, if◌then◌else◌, Bytes, map,
}
use mathlib.Core.List.{append_assoc, append-nil}
use proto_relay.Pop3.Listing.{crlf}
use proto_relay.Pop3.Retrieve.{grow, body_lines, drop_cr, stuff_line, stuffed_lines, stuffed_body}

-- The client's side: lines end in LF, lose a CR before it, and lose a leading dot; the line of a dot
-- alone ends the body, and what follows it stays.
unfoldable pub unstuff_line : Bytes → Bytes
unstuff_line [] = []
unstuff_line (c ∷ cs) = if c == 46 then cs else c ∷ cs

unfoldable pub is_dot : Bytes → Bool
is_dot [] = false
is_dot (c ∷ []) = c == 46
is_dot (c ∷ d ∷ cs) = false

unfoldable pub with_line : Bytes → Option (List Bytes × Bytes) → Option (List Bytes × Bytes)
with_line line none = none
with_line line (some (lines, rest)) = some (unstuff_line line ∷ lines, rest)

unfoldable pub read_body_lines : Bytes → Bytes → Option (List Bytes × Bytes)
read_body_lines line [] = none
read_body_lines line (c ∷ cs) =
    let more = with_line (drop_cr line) (read_body_lines [] cs) in
    let longer = read_body_lines (line ++ c ∷ []) cs in
    if c == 10 then if is_dot (drop_cr line) then some ([], cs) else more else longer

unfoldable pub no_lf : Bytes → Bool
no_lf [] = true
no_lf (c ∷ cs) = not (c == 10) && no_lf cs

unfoldable pub all_no_lf : List Bytes → Bool
all_no_lf [] = true
all_no_lf (l ∷ ls) = no_lf l && all_no_lf ls

drop_cr-cr : (s : Bytes) → drop_cr (s ++ 13 ∷ []) ≡ s
unfolding drop_cr
drop_cr-cr [] = refl
drop_cr-cr (c ∷ []) = refl
drop_cr-cr (c ∷ d ∷ s) = ap (λ t. c ∷ t) (drop_cr-cr (d ∷ s))

-- A line of the stream, whole.
read_line :
    (line s rest : Bytes)
    → no_lf s ≡ true
    → read_body_lines line (s ++ (crlf ++ rest)) ≡ (
        if is_dot (line ++ s)
        then some ([], rest)
        else with_line (line ++ s) (read_body_lines [] rest))
unfolding read_body_lines no_lf
read_line line [] rest h = rw (drop_cr-cr line, append-nil line) refl
read_line line (c ∷ s) rest h =
    rw (sym (append_assoc line (c ∷ []) s)) (ground (arith, h, read_line (line ++ c ∷ []) s rest))

pub stuff_line-back :
    (s : Bytes) → (is_dot (stuff_line s) ≡ false) × (unstuff_line (stuff_line s) ≡ s)
unfolding is_dot stuff_line unstuff_line
stuff_line-back [] = (refl, refl)
stuff_line-back (c ∷ []) = ground arith
stuff_line-back (c ∷ d ∷ s) = ground arith

stuff_line-no_lf : (s : Bytes) → no_lf s ≡ true → no_lf (stuff_line s) ≡ true
unfolding no_lf stuff_line
stuff_line-no_lf [] h = refl
stuff_line-no_lf (c ∷ s) h = ground (arith, h)

drop_cr-no_lf : (s : Bytes) → no_lf s ≡ true → no_lf (drop_cr s) ≡ true
unfolding no_lf drop_cr
drop_cr-no_lf [] h = refl
drop_cr-no_lf (c ∷ []) h = ground (arith, h)
drop_cr-no_lf (c ∷ d ∷ s) h = ground (arith, h, drop_cr-no_lf (d ∷ s))

grow-no_lf :
    (c : ℕ) (ls : List Bytes)
    → (c == 10) ≡ false
    → all_no_lf ls ≡ true
    → all_no_lf (grow c ls) ≡ true
unfolding no_lf all_no_lf grow
grow-no_lf c [] e h = ground (arith, e)
grow-no_lf c (l ∷ ls) e h = ground (arith, e, h)

body_lines-no_lf : (s : Bytes) → all_no_lf (body_lines s) ≡ true
unfolding body_lines all_no_lf no_lf
body_lines-no_lf [] = refl
body_lines-no_lf (c ∷ s) = ground (arith, body_lines-no_lf s, grow-no_lf c (body_lines s))

-- A stuffed line is not the last one, and loses its stuffing.
stuffed_turn :
    (l more rest : Bytes) (ls : List Bytes)
    → read_body_lines [] more ≡ some (ls, rest)
    → (if is_dot (stuff_line l)
        then some ([], more)
        else with_line (stuff_line l) (read_body_lines [] more))
      ≡ some (l ∷ ls, rest)
unfolding with_line
stuffed_turn l more rest ls e = rw ((stuff_line-back l).0, e, (stuff_line-back l).1) refl

stuffed_lines-read :
    (ls : List Bytes) (rest : Bytes)
    → all_no_lf ls ≡ true
    → read_body_lines [] (stuffed_lines ls ++ (46 ∷ crlf ++ rest)) ≡ some (map drop_cr ls, rest)
unfolding stuffed_lines all_no_lf no_lf is_dot
stuffed_lines-read [] rest h = read_line [] (46 ∷ []) rest refl
stuffed_lines-read (l ∷ ls) rest h =
    let line = stuff_line (drop_cr l) in
    let more = stuffed_lines ls ++ (46 ∷ crlf ++ rest) in
    rw (append_assoc line (crlf ++ stuffed_lines ls) (46 ∷ crlf ++ rest)) (
      read_line [] line more (stuff_line-no_lf (drop_cr l) (drop_cr-no_lf l (ground (arith, h))))
      ∙ stuffed_turn (drop_cr l) more rest (map drop_cr ls)
          (stuffed_lines-read ls rest (ground (arith, h))))

-- A client that reads the body of RETR gets the lines of the message, without a CR at their ends, and
-- stops at the end of the body, whatever the lines are and whatever follows.
pub stuffed_body-read :
    (body rest : Bytes)
    → read_body_lines [] (stuffed_body body ++ (46 ∷ crlf ++ rest))
      ≡ some (map drop_cr (body_lines body), rest)
unfolding stuffed_body
stuffed_body-read body rest = stuffed_lines-read (body_lines body) rest (body_lines-no_lf body)

-- ===== src/LineFolder.antt =====
-- include/mail_system/back/algorithm/line_folder.h: the filter that takes inbound mail text to the
-- form it is stored in. The folder's state is `carry_`.
pub mod Chunks
pub mod Endless
pub mod Segments
use proto_relay.Base.{
  ℕ, zero, suc, ◌-◌, ◌+◌, Bool, true, false, ◌&&◌, not, Option, none, some, List, [], ◌∷◌, ◌++◌,
  length, take, drop, ltb, leb, ◌==◌, if◌then◌else◌, Bytes,
}

abbrev pub max_line : ℕ
max_line = 2048

-- `unstuff_dot`
unfoldable pub unstuff_dot : Bytes → Bytes
unstuff_dot [] = []
unstuff_dot (c ∷ cs) = if c == 46 then cs else c ∷ cs

-- `(line[cut] & 0xC0) == 0x80`, on a byte.
abbrev pub is_continuation : ℕ → Bool
is_continuation b = leb 128 b && ltb b 192

-- `line[i]`, which the loop reads within the line only.
abbrev pub byte_at : Bytes → ℕ → ℕ
byte_at [] i = 0
byte_at (b ∷ bs) zero = b
byte_at (b ∷ bs) (suc i) = byte_at bs i

-- `utf8_boundary`
unfoldable pub utf8_boundary : Bytes → ℕ → ℕ
utf8_boundary line zero = 0
utf8_boundary line (suc cut) =
    let back = utf8_boundary line cut in
    if is_continuation (byte_at line (suc cut)) then back else suc cut

abbrev pub budget : Bool → ℕ
budget first = if first then max_line else max_line - 1

-- Where the loop of `append_folded` cuts.
unfoldable pub next_cut : Bytes → ℕ → Bool → ℕ
next_cut line start first =
    let cut = utf8_boundary line (start + budget first) in
    if cut == start then start + budget first else cut

-- `line.substr(start, cut - start)`: below 0 the count wraps to a size past the end.
unfoldable pub segment : Bytes → ℕ → ℕ → Bytes
segment line start cut =
    if ltb cut start then drop start line else take (cut - start) (drop start line)

-- CR, LF and a space.
abbrev pub fold_mark : Bytes
fold_mark = 13 ∷ 10 ∷ 32 ∷ []

unfoldable pub with_prefix : Bytes → Option Bytes → Option Bytes
with_prefix s none = none
with_prefix s (some out) = some (s ++ out)

-- The loop of `append_folded` from a state of its variables on, in at most as many turns as the
-- fuel; `none` where it has not ended by then.
unfoldable pub fold_on : ℕ → Bytes → ℕ → Bool → Option Bytes
unfolding next_cut segment with_prefix
fold_on zero line start first = none
fold_on (suc n) line start first =
    let cut = next_cut line start first in
    let rest = fold_on n line cut false in
    if ltb (budget first) (length line - start)
    then with_prefix (segment line start cut ++ fold_mark) rest
    else some (drop start line)

-- A line that is folded in one turn for each of its bytes, and one.
unfoldable pub append_folded : Bytes → Option Bytes
unfolding fold_on
append_folded line = fold_on (length line + 1) line 0 true

-- The lines that end in CRLF, and the rest.
unfoldable pub push_byte : ℕ → List Bytes × Bytes → List Bytes × Bytes
push_byte c ([], rest) = ([], c ∷ rest)
push_byte c (line ∷ lines, rest) = ((c ∷ line) ∷ lines, rest)

unfoldable pub split_lines : Bytes → List Bytes × Bytes
unfolding push_byte
split_lines [] = ([], [])
split_lines (c ∷ []) = ([], c ∷ [])
split_lines (c ∷ d ∷ cs) =
    let tail = split_lines cs in
    let next = split_lines (d ∷ cs) in
    if c == 13 && d == 10 then ([] ∷ tail.0, tail.1) else push_byte c next

unfoldable pub both : Option Bytes → Option Bytes → Option Bytes
unfolding with_prefix
both none more = none
both (some out) more = with_prefix out more

-- `out += "\r\n"`
unfoldable pub ended : Option Bytes → Option Bytes
ended none = none
ended (some out) = some (out ++ 13 ∷ 10 ∷ [])

-- The complete lines, each cleaned, folded and ended by CRLF.
unfoldable pub fold_lines : List Bytes → Option Bytes
unfolding both ended
fold_lines [] = some []
fold_lines (line ∷ lines) = both (ended (append_folded (unstuff_dot line))) (fold_lines lines)

unfoldable pub keep_carry : Bytes → Option Bytes → Option (Bytes × Bytes)
keep_carry carry none = none
keep_carry carry (some out) = some (out, carry)

-- `feed`: the output and the new carry.
unfoldable pub feed : Bytes → Bytes → Option (Bytes × Bytes)
unfolding split_lines fold_lines keep_carry
feed carry chunk =
    let (lines, rest) = split_lines (carry ++ chunk) in keep_carry rest (fold_lines lines)

-- `flush`
unfoldable pub flush : Bytes → Option Bytes
unfolding append_folded unstuff_dot
flush carry = if length carry == 0 then some [] else append_folded (unstuff_dot carry)

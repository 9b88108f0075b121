-- ===== src/Pop3/Retrieve.antt =====
-- include/mail_system/back/mailServer/fsm/pop3/traditional_pop3_fsm.tpp: the body of RETR, in lines
-- that end in CRLF, with their leading dots stuffed.
pub mod Transparency
use proto_relay.Base.{
  ℕ, zero, suc, ◌+◌, ◌-◌, ◌≡◌, refl, ap, sym, ◌∙◌, arith, Bool, true, false, ◌&&◌, ◌||◌, not,
  Option, none, some, List, [], ◌∷◌, ◌++◌, length, ltb, leb, ◌==◌, if◌then◌else◌, Bytes, codes,
}
use proto_relay.Pop3.Listing.{crlf}

-- The pieces between the LFs; an LF at the end makes no further line.
unfoldable pub grow : ℕ → List Bytes → List Bytes
grow c [] = (c ∷ []) ∷ []
grow c (line ∷ lines) = (c ∷ line) ∷ lines

unfoldable pub body_lines : Bytes → List Bytes
unfolding grow
body_lines [] = []
body_lines (c ∷ cs) = let rest = body_lines cs in if c == 10 then [] ∷ rest else grow c rest

-- `if (!line.empty() && line.back() == '\r') line.pop_back()`
unfoldable pub drop_cr : Bytes → Bytes
drop_cr [] = []
drop_cr (c ∷ []) = if c == 13 then [] else c ∷ []
drop_cr (c ∷ d ∷ cs) = c ∷ drop_cr (d ∷ cs)

unfoldable pub stuff_line : Bytes → Bytes
stuff_line [] = []
stuff_line (c ∷ cs) = if c == 46 then 46 ∷ c ∷ cs else c ∷ cs

unfoldable pub stuffed_lines : List Bytes → Bytes
unfolding stuff_line drop_cr
stuffed_lines [] = []
stuffed_lines (line ∷ lines) = stuff_line (drop_cr line) ++ (crlf ++ stuffed_lines lines)

unfoldable pub stuffed_body : Bytes → Bytes
unfolding stuffed_lines body_lines
stuffed_body body = stuffed_lines (body_lines body)

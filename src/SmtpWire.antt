-- ===== src/SmtpWire.antt =====
-- include/mail_system/back/common/smtp_wire.h: the body of a message on the wire behind DATA.
pub mod Receiver
use proto_relay.Base.{
  ℕ, ◌≡◌, refl, ap, sym, ◌∙◌, arith, Bool, true, false, not, Option, none, ◌||◌, ◌&&◌, some, List,
  [], ◌∷◌, ◌++◌, ◌==◌, ==_iff, if◌then◌else◌, Bytes, map, Bool-cases, inl, inr,
}
use mathlib.Core.List.{append_assoc, append-nil}
use proto_relay.Fsm.Session.{ends_in_lf}
use proto_relay.Pop3.Listing.{crlf}
use proto_relay.Pop3.Retrieve.{grow, body_lines, drop_cr, stuff_line}
use proto_relay.Pop3.Retrieve.Transparency.{with_line, is_dot, stuff_line-back}

-- The loop of `dot_stuff`, by whether it stands at the start of a line.
unfoldable pub stuff_on : Bool → Bytes → Bytes
stuff_on start [] = []
stuff_on start (c ∷ cs) =
    let rest = stuff_on (c == 10) cs in if c == 46 && start then 46 ∷ c ∷ rest else c ∷ rest

unfoldable pub dot_stuff : Bytes → Bytes
unfolding stuff_on
dot_stuff body = stuff_on true body

-- `out.compare(out.size() - 2, 2, "\r\n") == 0`
unfoldable pub ends_in_crlf : Bytes → Bool
ends_in_crlf [] = false
ends_in_crlf (c ∷ []) = false
ends_in_crlf (c ∷ d ∷ []) = c == 13 && d == 10
ends_in_crlf (c ∷ d ∷ e ∷ cs) = ends_in_crlf (d ∷ e ∷ cs)

unfoldable pub data_frame : Bytes → Bytes
unfolding dot_stuff ends_in_crlf
data_frame body =
    let out = dot_stuff body in (if ends_in_crlf out then out else out ++ crlf) ++ 46 ∷ crlf

-- What `data_frame` puts behind the body.
unfoldable pub line_ending : Bytes → Bytes
line_ending out = if ends_in_crlf out then [] else crlf

-- ===== src/Tests/Intruders.antt =====
-- include/framework/intrusion_detector.h and include/mail_system/back/common/smtp_wire.h at concrete
-- inputs.
use proto_relay.Base.{
  ℕ, ◌+◌, ◌≤◌, ◌≡◌, refl, arith, true, false, ◌&&◌, not, Option, none, some, List, [], ◌∷◌, ◌++◌,
  ◌==◌, leb, length, Bytes, codes, map,
}
use proto_relay.Base.Assoc
use proto_relay.Intrusion.{IntrusionDetector, is_private_ip, record_session, note_session, query}
use proto_relay.Intrusion.Eviction.{
  record_session-bound, Counts, failing, banned, failing-is_banned,
}
use proto_relay.Pop3.Listing.{crlf}
use proto_relay.Pop3.Retrieve.{drop_cr, body_lines}
use proto_relay.SmtpWire.{dot_stuff, data_frame, line_ending}
use proto_relay.SmtpWire.Receiver.{read_frame, all_crlf, data_frame-read}

abbrev no_number : Bytes → Option ℕ
no_number digits = none

abbrev detector : IntrusionDetector
detector = record {
  enabled = true;
  max_records = 2;
  ban_threshold = 2;
  persist_interval_sec = 60;
  persist_dirty_threshold = 256;
  records_since_persist = 0;
  last_persist_time = 0;
  writable = true;
  records = [];
  disk = [];
}

abbrev stranger : Bytes
stranger = codes "8.8.8.8"

abbrev ends : List ℕ
ends = 5 ∷ 6 ∷ []

counts : Counts no_number stranger detector
unfolding is_private_ip Assoc.has_key
counts = record { enabled = refl; named = refl; public_address = refl; room = omega arith }

failing-is_banned_example :
    banned stranger (failing no_number stranger ends detector)
    ≡ some (not (2 == 0) && leb 2 ((query stranger detector).failed_count + length ends))
failing-is_banned_example = failing-is_banned no_number stranger ends detector counts

record_session-bound_example :
    length (note_session stranger false 5 detector).records
    ≤ (note_session stranger false 5 detector).max_records
unfolding record_session is_private_ip
record_session-bound_example =
    record_session-bound no_number stranger false 5 detector
      (note_session stranger false 5 detector) refl (omega arith)

-- A body with a dot alone on a line, and an end without CRLF.
abbrev letter_body : Bytes
letter_body = codes "a" ++ (crlf ++ (codes "." ++ (crlf ++ codes ".end")))

data_frame-read_example :
    read_frame true [] (data_frame letter_body ++ codes "QUIT")
    ≡ some (
      map drop_cr (body_lines (letter_body ++ line_ending (dot_stuff letter_body))),
      codes "QUIT",
    )
unfolding all_crlf
data_frame-read_example = data_frame-read true letter_body (codes "QUIT") refl

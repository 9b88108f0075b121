-- ===== src/SmtpWire/Receiver.antt =====
-- include/mail_system/back/common/smtp_wire.h: what a receiver reads of a body, by RFC 5321, section
-- 4.5.2.
use proto_relay.Base.{
  ℕ, ◌≡◌, refl, ap, sym, ◌∙◌, arith, Bool, true, false, not, Option, none, ◌||◌, ◌&&◌, some, List,
  [], ◌∷◌, ◌++◌, ◌==◌, ==_iff, if◌then◌else◌, Bytes, map, Bool-cases, inl, inr,
}
use mathlib.Core.List.{append_assoc, append-nil}
use proto_relay.Fsm.Session.{ends_in_lf}
use proto_relay.Pop3.Listing.{crlf}
use proto_relay.Pop3.Retrieve.{grow, body_lines, drop_cr, stuff_line}
use proto_relay.Pop3.Retrieve.Transparency.{with_line, is_dot, stuff_line-back}
use proto_relay.SmtpWire.{stuff_on, dot_stuff, ends_in_crlf, data_frame, line_ending}

abbrev pub ends_in_cr : Bytes → Bool
ends_in_cr [] = false
ends_in_cr (c ∷ []) = c == 13
ends_in_cr (c ∷ d ∷ cs) = ends_in_cr (d ∷ cs)

-- A receiver, behind the bytes of a line that has begun. A line ends in LF, and a strict receiver wants
-- a CR before it; that CR is of the line's end, a leading dot is taken off, and the line of a dot alone
-- ends the message.
unfoldable pub read_frame : Bool → Bytes → Bytes → Option (List Bytes × Bytes)
read_frame strict line [] = none
read_frame strict line (c ∷ cs) =
    let more = with_line (drop_cr line) (read_frame strict [] cs) in
    let longer = read_frame strict (line ++ c ∷ []) cs in
    if c == 10 && (not strict || ends_in_cr line)
    then if is_dot (drop_cr line) then some ([], cs) else more
    else longer

-- Every LF of a body stands behind a CR, `p` being the line that has begun.
unfoldable pub all_crlf : Bytes → Bytes → Bool
all_crlf p [] = true
all_crlf p (c ∷ cs) =
    let ended = all_crlf [] cs in
    let longer = all_crlf (p ++ c ∷ []) cs in if c == 10 then ends_in_cr p && ended else longer

-- A line that has begun.
unfoldable pub begun : Bytes → List Bytes → List Bytes
begun p [] = p ∷ []
begun p (l ∷ ls) = (p ++ l) ∷ ls

unfoldable pub is_nil : Bytes → Bool
is_nil [] = true
is_nil (c ∷ cs) = false

drop_cr-stuff_line : (p : Bytes) → drop_cr (stuff_line p) ≡ stuff_line (drop_cr p)
unfolding drop_cr stuff_line
drop_cr-stuff_line [] = refl
drop_cr-stuff_line (c ∷ []) = ground arith
drop_cr-stuff_line (c ∷ d ∷ p) = ground arith

stuff_line-end :
    (p : Bytes) (c : ℕ) → is_nil p ≡ false → stuff_line (p ++ c ∷ []) ≡ stuff_line p ++ c ∷ []
unfolding is_nil stuff_line
stuff_line-end [] c h = ground (arith, h)
stuff_line-end (d ∷ p) c h = ground arith

begun-grow : (p : Bytes) (c : ℕ) (ls : List Bytes) → begun p (grow c ls) ≡ begun (p ++ c ∷ []) ls
unfolding begun grow
begun-grow p c [] = refl
begun-grow p c (l ∷ ls) = ap (λ x. x ∷ ls) (sym (append_assoc p (c ∷ []) l))

begun_nothing : (l : Bytes) (ls : List Bytes) → begun [] (l ∷ ls) ≡ l ∷ ls
unfolding begun
begun_nothing l ls = refl

begun-grow_nothing : (c : ℕ) (ls : List Bytes) → begun [] (grow c ls) ≡ grow c ls
unfolding begun grow
begun-grow_nothing c [] = refl
begun-grow_nothing c (l ∷ ls) = refl

body_lines-begun : (c : ℕ) (b : Bytes) → begun [] (body_lines (c ∷ b)) ≡ body_lines (c ∷ b)
unfolding begun body_lines
body_lines-begun c b = ground (arith, begun-grow_nothing c (body_lines b))

ends_in_cr-stuff_line : (p : Bytes) → ends_in_cr p ≡ true → ends_in_cr (stuff_line p) ≡ true
unfolding stuff_line
ends_in_cr-stuff_line [] h = h
ends_in_cr-stuff_line (c ∷ []) h = ground (arith, h)
ends_in_cr-stuff_line (c ∷ d ∷ p) h = ground (arith, h)

ends_in_cr-end : (p : Bytes) → ends_in_cr (p ++ 13 ∷ []) ≡ true
ends_in_cr-end [] = refl
ends_in_cr-end (c ∷ []) = refl
ends_in_cr-end (c ∷ d ∷ p) = ends_in_cr-end (d ∷ p)

-- What the receiver makes of the end of a line.
line_end :
    (strict : Bool) (p more rest : Bytes) (ls : List Bytes)
    → (not strict || ends_in_cr p) ≡ true
    → read_frame strict [] more ≡ some (ls, rest)
    → read_frame strict (stuff_line p) (10 ∷ more) ≡ some (drop_cr p ∷ ls, rest)
unfolding read_frame with_line
line_end strict p more rest ls h e =
    let ends : (not strict || ends_in_cr (stuff_line p)) ≡ true =
      ground (arith, h, ends_in_cr-stuff_line p) in
    rw
      (
        ends,
        drop_cr-stuff_line p,
        (stuff_line-back (drop_cr p)).0,
        e,
        (stuff_line-back (drop_cr p)).1,
      )
      refl

last_dot :
    (strict : Bool) (rest : Bytes) → read_frame strict [] (46 ∷ crlf ++ rest) ≡ some ([], rest)
unfolding read_frame is_dot drop_cr
last_dot true rest = refl
last_dot false rest = refl

-- A byte that ends no line.
next_byte :
    (strict : Bool) (c : ℕ) (p b tail : Bytes)
    → (c == 10) ≡ false
    → read_frame strict (stuff_line p) (stuff_on (is_nil p) (c ∷ b) ++ tail)
      ≡ read_frame strict (stuff_line (p ++ c ∷ [])) (stuff_on false b ++ tail)
unfolding read_frame stuff_on is_nil stuff_line
next_byte strict c [] b tail h = ground (arith, h)
next_byte strict c (d ∷ p) b tail h = ground (arith, h)

is_nil-end : (p : Bytes) (c : ℕ) → is_nil (p ++ c ∷ []) ≡ false
unfolding is_nil
is_nil-end [] c = refl
is_nil-end (d ∷ p) c = refl

lf_read :
    (strict : Bool) (c : ℕ) (p b rest : Bytes)
    → c ≡ 10
    → (not strict || ends_in_cr p) ≡ true
    → read_frame strict [] (stuff_on true b ++ (46 ∷ crlf ++ rest))
      ≡ some (map drop_cr (body_lines b), rest)
    → read_frame strict (stuff_line p) (stuff_on (is_nil p) (c ∷ b) ++ (46 ∷ crlf ++ rest))
      ≡ some (map drop_cr (begun p (body_lines (c ∷ b))), rest)
unfolding stuff_on body_lines begun
lf_read strict c p b rest e h ih =
    rw (e, append-nil p)
      (line_end strict p (stuff_on true b ++ (46 ∷ crlf ++ rest)) rest (map drop_cr (body_lines b))
        h ih)

grow_line : (c : ℕ) (b : Bytes) → (c == 10) ≡ false → grow c (body_lines b) ≡ body_lines (c ∷ b)
unfolding body_lines
grow_line c b e = ground (arith, e)

byte_read :
    (strict : Bool) (c : ℕ) (p b rest : Bytes)
    → (c == 10) ≡ false
    → read_frame strict
        (stuff_line (p ++ c ∷ []))
        (stuff_on (is_nil (p ++ c ∷ [])) b ++ (46 ∷ crlf ++ rest))
      ≡ some (map drop_cr (begun (p ++ c ∷ []) (body_lines b)), rest)
    → read_frame strict (stuff_line p) (stuff_on (is_nil p) (c ∷ b) ++ (46 ∷ crlf ++ rest))
      ≡ some (map drop_cr (begun p (body_lines (c ∷ b))), rest)
unfolding body_lines
byte_read strict c p b rest e ih =
    next_byte strict c p b (46 ∷ crlf ++ rest) e
    ∙ (ap (λ x. read_frame strict (stuff_line (p ++ c ∷ [])) (stuff_on x b ++ (46 ∷ crlf ++ rest)))
          (sym (is_nil-end p c))
        ∙ (ih
            ∙ ap (λ ls. some (map drop_cr ls, rest))
                (sym (begun-grow p c (body_lines b)) ∙ ap (begun p) (grow_line c b e))))

-- A receiver that is not strict takes every body.
abbrev pub takes : Bool → Bytes → Bytes → Bool
takes strict p b = not strict || all_crlf p b

takes-lf :
    (strict : Bool) (c : ℕ) (p b : Bytes)
    → (c == 10) ≡ true
    → takes strict p (c ∷ b) ≡ true
    → ((not strict || ends_in_cr p) ≡ true) × (takes strict [] b ≡ true)
unfolding all_crlf
takes-lf strict c p b e h = (ground (arith, e, h), ground (arith, e, h))

takes-byte :
    (strict : Bool) (c : ℕ) (p b : Bytes)
    → (c == 10) ≡ false
    → takes strict p (c ∷ b) ≡ true
    → takes strict (p ++ c ∷ []) b ≡ true
unfolding all_crlf
takes-byte strict c p b e h = ground (arith, e, h)

frame_read :
    (strict : Bool) (p b rest : Bytes)
    → ends_in_lf b ≡ true
    → takes strict p b ≡ true
    → read_frame strict (stuff_line p) (stuff_on (is_nil p) b ++ (46 ∷ crlf ++ rest))
      ≡ some (map drop_cr (begun p (body_lines b)), rest)
unfolding ends_in_lf stuff_on body_lines is_nil stuff_line
frame_read strict p [] rest h k = ground (arith, h)
frame_read strict p (c ∷ []) rest h k =
    lf_read strict c p [] rest ((==_iff c 10).0 h) (takes-lf strict c p [] h k).0
      (last_dot strict rest)
frame_read strict p (c ∷ d ∷ b) rest h k = elim (Bool-cases (c == 10)) [
  | inl e ↦
      let t = takes-lf strict c p (d ∷ b) e k in
      lf_read strict c p (d ∷ b) rest ((==_iff c 10).0 e) t.0 (
        frame_read strict [] (d ∷ b) rest h t.1
        ∙ ap (λ ls. some (map drop_cr ls, rest)) (body_lines-begun d b))
  | inr e ↦
      byte_read strict c p (d ∷ b) rest e
        (frame_read strict (p ++ c ∷ []) (d ∷ b) rest h (takes-byte strict c p (d ∷ b) e k))
]

all_crlf-crlf : (p b : Bytes) → all_crlf p (b ++ crlf) ≡ all_crlf p b
unfolding all_crlf
all_crlf-crlf p [] = ground (arith, ends_in_cr-end p)
all_crlf-crlf p (c ∷ b) = ground (arith, all_crlf-crlf [] b, all_crlf-crlf (p ++ c ∷ []) b)

-- Stuffing leaves the end of the body.
stuff_on-crlf : (s : Bool) (b : Bytes) → stuff_on s (b ++ crlf) ≡ stuff_on s b ++ crlf
unfolding stuff_on
stuff_on-crlf s [] = refl
stuff_on-crlf s (c ∷ b) = ground (arith, stuff_on-crlf (c == 10) b)

ends_in_crlf-lf : (s : Bytes) → ends_in_crlf s ≡ true → ends_in_lf s ≡ true
unfolding ends_in_crlf ends_in_lf
ends_in_crlf-lf [] h = ground (arith, h)
ends_in_crlf-lf (c ∷ []) h = ground (arith, h)
ends_in_crlf-lf (c ∷ d ∷ []) h = ground (arith, h)
ends_in_crlf-lf (c ∷ d ∷ e ∷ s) h = ends_in_crlf-lf (d ∷ e ∷ s) h

crlf-lf : (s : Bytes) → ends_in_lf (s ++ crlf) ≡ true
unfolding ends_in_lf
crlf-lf [] = refl
crlf-lf (c ∷ []) = refl
crlf-lf (c ∷ d ∷ s) = crlf-lf (d ∷ s)

ends_in_lf-behind : (c : ℕ) (s : Bytes) → is_nil s ≡ false → ends_in_lf (c ∷ s) ≡ ends_in_lf s
unfolding ends_in_lf is_nil
ends_in_lf-behind c [] h = ground (arith, h)
ends_in_lf-behind c (d ∷ s) h = refl

stuff_on-some : (s : Bool) (d : ℕ) (b : Bytes) → is_nil (stuff_on s (d ∷ b)) ≡ false
unfolding stuff_on is_nil
stuff_on-some s d b = ground arith

-- A body that is stuffed ends in LF only if the body does.
stuff_on-lf : (s : Bool) (b : Bytes) → ends_in_lf (stuff_on s b) ≡ true → ends_in_lf b ≡ true
unfolding ends_in_lf stuff_on
stuff_on-lf s [] h = h
stuff_on-lf s (c ∷ []) h = ground (arith, h)
stuff_on-lf s (c ∷ d ∷ b) h =
    let more = stuff_on (c == 10) (d ∷ b) in
    stuff_on-lf (c == 10) (d ∷ b)
      (ground (arith, h, ends_in_lf-behind c more (stuff_on-some (c == 10) d b)))

whole_read :
    (strict : Bool) (b rest : Bytes)
    → ends_in_lf b ≡ true
    → takes strict [] b ≡ true
    → read_frame strict [] (stuff_on true b ++ (46 ∷ crlf ++ rest))
      ≡ some (map drop_cr (body_lines b), rest)
unfolding ends_in_lf stuff_line is_nil
whole_read strict [] rest h k = ground (arith, h)
whole_read strict (c ∷ b) rest h k =
    frame_read strict [] (c ∷ b) rest h k
    ∙ ap (λ ls. some (map drop_cr ls, rest)) (body_lines-begun c b)

-- A receiver that ends its lines at LF, with or without a CR before it, gets from the frame of any body
-- the lines of the body, and a strict receiver, which ends them at CRLF only, gets them of a body whose
-- every LF stands behind a CR. The lines are those between the LFs, without the CR before an LF, and
-- a CRLF is added behind a body whose stuffed bytes do not end in one.
-- The receiver stops at the end of the frame, whatever follows: no line of the body ends the message.
pub data_frame-read :
    (strict : Bool) (body rest : Bytes)
    → takes strict [] body ≡ true
    → read_frame strict [] (data_frame body ++ rest)
      ≡ some (map drop_cr (body_lines (body ++ line_ending (dot_stuff body))), rest)
unfolding data_frame dot_stuff line_ending
data_frame-read strict body rest k = framed (ends_in_crlf (stuff_on true body)) refl
  where
    framed :
        (e : Bool)
        → ends_in_crlf (stuff_on true body) ≡ e
        → read_frame strict []
            (((if e then stuff_on true body else stuff_on true body ++ crlf) ++ 46 ∷ crlf) ++ rest)
          ≡ some (map drop_cr (body_lines (body ++ (if e then [] else crlf))), rest)
    framed true h =
        rw (append_assoc (stuff_on true body) (46 ∷ crlf) rest, append-nil body)
          (whole_read strict body rest
            (stuff_on-lf true body (ends_in_crlf-lf (stuff_on true body) h)) k)
    framed false h =
        rw
          (
            sym (stuff_on-crlf true body),
            append_assoc (stuff_on true (body ++ crlf)) (46 ∷ crlf) rest,
          )
          (whole_read strict (body ++ crlf) rest (crlf-lf body)
            (ap (λ x. not strict || x) (all_crlf-crlf [] body) ∙ k))

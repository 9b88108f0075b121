-- ===== src/Fsm/Runs.antt =====
-- The runs along the rows of a table, and what the SMTP table says of them.
use proto_relay.Base.{
  Bool, true, false, not, ◌&&◌, ◌||◌, none, some, List, [], ◌∷◌, ◌≡◌, refl, arith,
}
use proto_relay.Fsm.{GuardRow, Desc}
use proto_relay.Fsm.Smtps.{SmtpsState, SmtpsEvent, make_smtps_desc}

-- A row stands in the list.
pub data Stands {A : Type 0} (x : A) : List A → Type 0 where
  first : {xs : List A} → Stands x (x ∷ xs)
  later : {y : A} {xs : List A} → Stands x xs → Stands x (y ∷ xs)

-- A row's target, its own state for a self loop.
abbrev pub target : {State Event : Type 0} → GuardRow State Event → State
target r = elim r.to [ none ↦ r.from | some to ↦ to ]

-- The events of a run, the last first.
pub data Run {State Event : Type 0} (d : Desc State Event) (start : State)
    : List Event → State → Type 0 where
  here : Run d start [] start
  next :
      {events : List Event} {s : State} (r : GuardRow State Event)
      → Run d start events s
      → Stands r d.guards
      → r.from ≡ s
      → Run d start (r.on ∷ events) (target r)

-- A test that holds for every element of a list.
abbrev pub all : {A : Type 0} → (A → Bool) → List A → Bool
all p [] = true
all p (x ∷ xs) = p x && all p xs

pub all-Stands :
    {A : Type 0} (p : A → Bool) (x : A) (xs : List A) → all p xs ≡ true → Stands x xs → p x ≡ true
all-Stands p x [] h there = elim there [ ]
all-Stands p x (y ∷ xs) h first = ground arith
all-Stands p x (y ∷ xs) h (later there) = all-Stands p x xs (ground arith) there

abbrev pub is_greeting : SmtpsEvent → Bool
is_greeting SmtpsEvent.ehlo = true
is_greeting _ = false

abbrev pub is_mail : SmtpsEvent → Bool
is_mail SmtpsEvent.mail_from = true
is_mail _ = false

abbrev pub is_starttls : SmtpsEvent → Bool
is_starttls SmtpsEvent.starttls = true
is_starttls _ = false

-- An event of the kind has come, and no STARTTLS since.
abbrev pub some_event : (SmtpsEvent → Bool) → List SmtpsEvent → Bool
some_event p [] = false
some_event p (e ∷ events) = p e || not (is_starttls e) && some_event p events

-- Whether a state may stand where `greeted` and `mailed` say which commands have come.
abbrev fits : SmtpsState → Bool → Bool → Bool
fits SmtpsState.init greeted mailed = true
fits SmtpsState.greeting greeted mailed = true
fits SmtpsState.wait_ehlo greeted mailed = true
fits SmtpsState.closed greeted mailed = true
fits SmtpsState.wait_data greeted mailed = false
fits SmtpsState.wait_rcpt_to greeted mailed = greeted && mailed
fits SmtpsState.in_message greeted mailed = greeted && mailed
fits SmtpsState.wait_quit greeted mailed = greeted && mailed
fits _ greeted mailed = greeted

abbrev keeps : Bool → Bool → GuardRow SmtpsState SmtpsEvent → Bool
keeps greeted mailed r =
    not (fits r.from greeted mailed)
    || fits (target r) (is_greeting r.on || not (is_starttls r.on) && greeted)
        (is_mail r.on || not (is_starttls r.on) && mailed)

table_keeps :
    (tls greeted mailed : Bool) → all (keeps greeted mailed) (make_smtps_desc tls).guards ≡ true
unfolding make_smtps_desc
table_keeps true true true = refl
table_keeps true true false = refl
table_keeps true false true = refl
table_keeps true false false = refl
table_keeps false true true = refl
table_keeps false true false = refl
table_keeps false false true = refl
table_keeps false false false = refl

Run-fits :
    (tls : Bool) {events : List SmtpsEvent} {s : SmtpsState}
    → Run (make_smtps_desc tls) SmtpsState.init events s
    → fits s (some_event is_greeting events) (some_event is_mail events) ≡ true
Run-fits tls here = refl
Run-fits tls (next {events} r run there e) =
    let kept =
      all-Stands (keeps (some_event is_greeting events) (some_event is_mail events)) r _
        (table_keeps tls _ _) there in
    let ih : fits r.from (some_event is_greeting events) (some_event is_mail events) ≡ true =
      rw e (Run-fits tls run) in
    ground (arith, kept, ih)

-- In the guard table of SMTP, with and without STARTTLS: every path along its rows from the start to the
-- state of a message has an EHLO and a MAIL FROM among its events, both behind the last STARTTLS. (Which
-- of the table's transitions the handlers make is not part of this.)
pub Run-in_message :
    (tls : Bool) (events : List SmtpsEvent)
    → Run (make_smtps_desc tls) SmtpsState.init events SmtpsState.in_message
    → (some_event is_greeting events ≡ true) × (some_event is_mail events ≡ true)
Run-in_message tls events run = ground (arith, Run-fits tls run)

-- In the guard table of SMTP, with and without STARTTLS, no path along the rows from the start comes to
-- the state that waits for DATA.
pub Run-wait_data :
    (tls : Bool) (events : List SmtpsEvent)
    → ¬ Run (make_smtps_desc tls) SmtpsState.init events SmtpsState.wait_data
Run-wait_data tls events run = ground (arith, Run-fits tls run)

-- ===== src/Pop3.antt =====
-- include/mail_system/back/mailServer/fsm/pop3/pop3_types.hpp: the data of a POP3 session, and the
-- keys of its states and events.
pub mod Numbers
pub mod Listing
pub mod Login
pub mod Retrieve
pub mod Handlers
pub mod Commands
use proto_relay.Base.{
  ℕ, ◌≡◌, refl, ap, sym, ◌∙◌, arith, Bool, true, false, Option, none, some, List, [], ◌∷◌, ◌==◌,
  ==_iff, Bytes, ◌↔◌, if◌then◌else◌,
}
use proto_relay.Base.Eq.{KeyEq}
use proto_relay.Fsm.Pop3.{Pop3State, Pop3Event}
use proto_relay.Fsm.Session.{Session}

abbrev pub state_code : Pop3State → ℕ
state_code Pop3State.initial = 0
state_code Pop3State.authorization = 1
state_code Pop3State.transaction = 2
state_code Pop3State.update = 3
state_code Pop3State.closing = 4

abbrev pub state_of : ℕ → Pop3State
state_of n =
    if n == 0
    then Pop3State.initial
    else if n == 1
    then Pop3State.authorization
    else if n == 2
    then Pop3State.transaction
    else if n == 3
    then Pop3State.update
    else Pop3State.closing

abbrev pub event_code : Pop3Event → ℕ
event_code Pop3Event.connect_event = 0
event_code Pop3Event.capa = 1
event_code Pop3Event.user = 2
event_code Pop3Event.pass = 3
event_code Pop3Event.stat = 4
event_code Pop3Event.list_event = 5
event_code Pop3Event.uidl = 6
event_code Pop3Event.retr = 7
event_code Pop3Event.dele = 8
event_code Pop3Event.noop = 9
event_code Pop3Event.rset = 10
event_code Pop3Event.quit_event = 11
event_code Pop3Event.error_event = 12
event_code Pop3Event.timeout_event = 13

abbrev pub event_of : ℕ → Pop3Event
event_of n =
    if n == 0
    then Pop3Event.connect_event
    else if n == 1
    then Pop3Event.capa
    else if n == 2
    then Pop3Event.user
    else if n == 3
    then Pop3Event.pass
    else if n == 4
    then Pop3Event.stat
    else if n == 5
    then Pop3Event.list_event
    else if n == 6
    then Pop3Event.uidl
    else if n == 7
    then Pop3Event.retr
    else if n == 8
    then Pop3Event.dele
    else if n == 9
    then Pop3Event.noop
    else if n == 10
    then Pop3Event.rset
    else if n == 11
    then Pop3Event.quit_event
    else if n == 12
    then Pop3Event.error_event
    else Pop3Event.timeout_event

pub state_of-state_code : (s : Pop3State) → state_of (state_code s) ≡ s
state_of-state_code Pop3State.initial = refl
state_of-state_code Pop3State.authorization = refl
state_of-state_code Pop3State.transaction = refl
state_of-state_code Pop3State.update = refl
state_of-state_code Pop3State.closing = refl

pub event_of-event_code : (e : Pop3Event) → event_of (event_code e) ≡ e
event_of-event_code Pop3Event.connect_event = refl
event_of-event_code Pop3Event.capa = refl
event_of-event_code Pop3Event.user = refl
event_of-event_code Pop3Event.pass = refl
event_of-event_code Pop3Event.stat = refl
event_of-event_code Pop3Event.list_event = refl
event_of-event_code Pop3Event.uidl = refl
event_of-event_code Pop3Event.retr = refl
event_of-event_code Pop3Event.dele = refl
event_of-event_code Pop3Event.noop = refl
event_of-event_code Pop3Event.rset = refl
event_of-event_code Pop3Event.quit_event = refl
event_of-event_code Pop3Event.error_event = refl
event_of-event_code Pop3Event.timeout_event = refl

-- Equality through a code that is read back.
pub coded_iff :
    {A : Type 0} (code : A → ℕ) (read : ℕ → A)
    → ((a : A) → read (code a) ≡ a)
    → (a b : A) → ((code a == code b) ≡ true) ↔ (a ≡ b)
coded_iff code read back a b = (
  λ h. sym (back a) ∙ ap read ((==_iff (code a) (code b)).0 h) ∙ back b,
  λ e. (==_iff (code a) (code b)).1 (ap code e),
)

instance abbrev pub pop3_state_key : KeyEq Pop3State
pop3_state_key = record {
  beq = λ a b. state_code a == state_code b;
  beq_iff = coded_iff state_code state_of state_of-state_code;
}

instance abbrev pub pop3_event_key : KeyEq Pop3Event
pop3_event_key = record {
  beq = λ a b. event_code a == event_code b;
  beq_iff = coded_iff event_code event_of event_of-event_code;
}

pub record Message : Type 0 where
  pub mail_id : ℕ
  pub body_path : Bytes
  pub size : ℕ

-- What a handler has started and not finished: its transition, before and after its `finish`.
pub data Job : Type 0 where
  idle : Job
  login : Bytes → Job
  retrieving : Message → Job
  quitting : Job
  finishing : Option Pop3State → Job
  finishing_closing : Pop3State → Job

pub record Context : Type 0 where
  pub username : Bytes
  pub is_authenticated : Bool
  pub user_id : ℕ
  pub mailbox_id : ℕ
  pub shard_index : ℕ
  pub messages : List Message
  pub deleted : List ℕ
  pub dropped : Bool
  pub session_id : Bytes
  pub heartbeat : Bool
  pub job : Job

-- `Pop3Context::clear`; the job is the handlers', and stays.
unfoldable pub clear : Context → Context
clear c = record {
  username = [];
  is_authenticated = false;
  user_id = 0;
  mailbox_id = 0;
  shard_index = 0;
  messages = [];
  deleted = [];
  dropped = false;
  session_id = [];
  heartbeat = false;
  job = c.job;
}

unfoldable pub new_context : Context
new_context = record {
  username = [];
  is_authenticated = false;
  user_id = 0;
  mailbox_id = 0;
  shard_index = 0;
  messages = [];
  deleted = [];
  dropped = false;
  session_id = [];
  heartbeat = false;
  job = Job.idle;
}

-- The work that a handler gives to the worker threads.
pub data Op : Type 0 where
  start_login : Bytes → Bytes → Bytes → Op
  read_body : Message → Op
  apply_deletions : ℕ → ℕ → List ℕ → Bytes → Op
  release_lock : ℕ → Bytes → Op

abbrev pub Pop3Session : Type 0
Pop3Session = Session Pop3State Pop3Event Context Op

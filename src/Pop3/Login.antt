-- ===== src/Pop3/Login.antt =====
-- include/mail_system/back/mailServer/fsm/pop3/traditional_pop3_fsm.tpp, `LoginOperation`: the chain of
-- continuations from the password to the mailbox, by what each call answers or throws. What the
-- executor of the connection throws is left out.
pub mod Locks
use proto_relay.Base.{
  ℕ, ◌+◌, ◌≡◌, refl, arith, Bool, true, false, ◌&&◌, ◌||◌, not, Option, none, some, List, [], ◌∷◌,
  ◌++◌, ◌==◌, if◌then◌else◌, Bytes, codes, ◌⊎◌,
}
use proto_relay.Pop3.{Message}

pub data LockStatus : Type 0 where
  owned not_owned database_error : LockStatus

-- A row of the mailbox.
pub record Row : Type 0 where
  pub mail_id : ℕ
  pub body_path : Bytes

-- What the operation meets. `closed_*` is the session, looked at behind each wait; `account` is what
-- the authenticator accepts, a user and a shard; `pool` says whether there is one, and whether its
-- context is valid; `inbox` and `rows` are none where the repository fails. `object_size` is the
-- storage of the shard, where there is one. `*_posts` says whether the worker takes a task, or its
-- `post` throws, and `*_throws` that a call throws an exception.
pub record Answers : Type 0 where
  pub has_worker : Bool
  pub start_posts : Bool
  pub has_authenticator : Bool
  pub login_throws : Bool
  pub account : Option (ℕ × ℕ)
  pub inbox_posts : Bool
  pub closed_at_inbox : Bool
  pub pool_throws : Bool
  pub pool : Option Bool
  pub inbox_throws : Bool
  pub inbox : Option ℕ
  pub closed_at_lock : Bool
  pub acquire_throws : Bool
  pub lock : LockStatus
  pub closed_at_rows : Bool
  pub rows_throws : Bool
  pub rows : Option (List Row)
  pub closed_at_measure : Bool
  pub measure_posts : Bool
  pub object_size : Option (Bytes → Option ℕ)
  pub storage_throws : Bool
  pub release_posts : Bool

-- How the operation ends: by the reply of a failure, whether it counts as a failed authentication,
-- and the user whose lock is given back, if it is; or by the mailbox to install.
pub data Ending : Type 0 where
  failed : Bytes → Bool → Option ℕ → Ending
  loaded : ℕ → ℕ → ℕ → List Message → Ending

abbrev pub not_ready : Bytes
not_ready = codes "-ERR Server not ready"

abbrev pub unavailable : Bytes
unavailable = codes "-ERR Server database unavailable"

abbrev pub wrong_password : Bytes
wrong_password = codes "-ERR Authentication failed"

-- `fail` while `lock_attempted` is not set.
unfoldable pub fail_unlocked : Bytes → Bool → Ending
fail_unlocked reply counts = failed reply counts none

-- `fail` while `lock_attempted` is set, and `database` with it: the release of the lock is a task of
-- the worker, and where the worker does not take it the lock is left to its expiry.
unfoldable pub fail_locked : Answers → ℕ → Bytes → Bool → Ending
fail_locked a user reply counts =
    if a.release_posts then failed reply counts (some user) else failed not_ready false none

unfoldable pub measured_size : Option (Bytes → Option ℕ) → Bytes → ℕ
measured_size none path = 0
measured_size (some object_size) path = elim (object_size path) [ none ↦ 0 | some n ↦ n ]

-- The loop of `measure`.
unfoldable pub measured : Option (Bytes → Option ℕ) → List Row → List Message
unfolding measured_size
measured size_at [] = []
measured size_at (row ∷ rows) =
    let rest = measured size_at rows in
    if row.mail_id == 0
    then rest
    else record {
      mail_id = row.mail_id;
      body_path = row.body_path;
      size = measured_size size_at row.body_path;
    }
      ∷ rest

unfoldable pub measure : Answers → ℕ → ℕ → ℕ → List Row → Ending
unfolding measured fail_locked
measure a user shard inbox rows =
    if a.storage_throws
    then fail_locked a user (codes "-ERR Cannot load mailbox") false
    else loaded user inbox shard (measured a.object_size rows)

unfoldable pub rows_ready : Answers → ℕ → ℕ → ℕ → Option (List Row) → Ending
unfolding measure fail_locked
rows_ready a user shard inbox none = fail_locked a user (codes "-ERR Cannot load mailbox") false
rows_ready a user shard inbox (some rows) =
    if a.closed_at_measure
    then fail_locked a user [] false
    else if not a.measure_posts
    then fail_locked a user not_ready false
    else measure a user shard inbox rows

-- What `acquire_async` throws is caught by `guard`, behind `lock_attempted = true`.
unfoldable pub lock_ready : Answers → ℕ → ℕ → ℕ → LockStatus → Ending
unfolding rows_ready fail_unlocked fail_locked
lock_ready a user shard inbox database_error = fail_locked a user unavailable false
lock_ready a user shard inbox not_owned =
    fail_unlocked (codes "-ERR [IN-USE] Mailbox lock busy, try later") false
lock_ready a user shard inbox owned =
    if a.closed_at_rows
    then fail_locked a user [] false
    else if a.rows_throws
    then fail_locked a user unavailable false
    else rows_ready a user shard inbox a.rows

unfoldable pub inbox_ready : Answers → ℕ → ℕ → Option ℕ → Ending
unfolding lock_ready fail_unlocked fail_locked
inbox_ready a user shard none = fail_unlocked unavailable false
inbox_ready a user shard (some inbox) =
    if inbox == 0
    then fail_unlocked (codes "-ERR No INBOX for user") false
    else if a.closed_at_lock
    then fail_unlocked [] false
    else if a.acquire_throws
    then fail_locked a user unavailable false
    else lock_ready a user shard inbox a.lock

unfoldable pub pool_ready : Answers → ℕ → ℕ → Option Bool → Ending
unfolding inbox_ready fail_unlocked
pool_ready a user shard none = fail_unlocked (codes "-ERR Server configuration error") false
pool_ready a user shard (some false) = fail_unlocked unavailable false
pool_ready a user shard (some true) =
    if a.inbox_throws then fail_unlocked unavailable false else inbox_ready a user shard a.inbox

unfoldable pub load_inbox : Answers → ℕ → ℕ → Ending
unfolding pool_ready fail_unlocked
load_inbox a user shard =
    if a.closed_at_inbox
    then fail_unlocked [] false
    else if a.pool_throws
    then fail_unlocked unavailable false
    else pool_ready a user shard a.pool

unfoldable pub account_ready : Answers → Option (ℕ × ℕ) → Ending
unfolding load_inbox fail_unlocked
account_ready a none = fail_unlocked wrong_password true
account_ready a (some (user, shard)) =
    if a.inbox_posts then load_inbox a user shard else fail_unlocked not_ready false

-- `start` and what follows it.
unfoldable pub run_login : Answers → Ending
unfolding account_ready fail_unlocked
run_login a =
    if not a.has_worker || not a.start_posts
    then fail_unlocked not_ready false
    else if not a.has_authenticator
    then fail_unlocked wrong_password true
    else if a.login_throws
    then fail_unlocked unavailable false
    else account_ready a a.account

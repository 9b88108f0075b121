-- ===== src/Pop3/Login/Locks.antt =====
-- include/mail_system/back/mailServer/fsm/pop3/traditional_pop3_fsm.tpp, `LoginOperation`: the lock of
-- a mailbox is kept or given back.
use proto_relay.Base.{
  ℕ, ◌≡◌, Bool, true, false, ◌&&◌, ◌||◌, not, Option, none, some, ◌==◌, if◌then◌else◌,
}
use proto_relay.Pop3.Login.{
  LockStatus, owned, not_owned, database_error, Answers, Ending, failed, loaded,
}

-- The answers by which the operation gets to ask for the lock.
abbrev pub is_valid : Option Bool → Bool
is_valid none = false
is_valid (some b) = b

abbrev pub is_inbox : Option ℕ → Bool
is_inbox none = false
is_inbox (some n) = not (n == 0)

abbrev pub is_account : Option (ℕ × ℕ) → Bool
is_account none = false
is_account (some u) = true

abbrev pub asks_lock : Answers → Bool
asks_lock a =
    a.has_worker
    && (a.start_posts
        && (a.has_authenticator
            && (not a.login_throws
                && (is_account a.account
                    && (a.inbox_posts
                        && (not a.closed_at_inbox
                            && (not a.pool_throws
                                && (is_valid a.pool
                                    && (not a.inbox_throws
                                        && (is_inbox a.inbox && not a.closed_at_lock))))))))))

-- The lock is the session's, or nobody knows.
abbrev pub may_own : LockStatus → Bool
may_own owned = true
may_own not_owned = false
may_own database_error = true

abbrev pub is_owned : LockStatus → Bool
is_owned owned = true
is_owned _ = false

-- The operation has asked for the lock, and may own it.
abbrev pub may_hold : Answers → Bool
may_hold a = asks_lock a && (a.acquire_throws || may_own a.lock)

-- The password was looked at, and no account was accepted.
abbrev pub refused : Answers → Bool
refused a =
    a.has_worker
    && (a.start_posts
        && (not a.has_authenticator || not a.login_throws && not (is_account a.account)))

abbrev pub user_of : Option (ℕ × ℕ) → Option ℕ
user_of none = none
user_of (some (user, shard)) = some user

-- A failure gives the lock of the accepted user back just when the session may hold it and the worker
-- takes the release, and counts as a failed authentication just when no account was accepted; a mailbox
-- is loaded only for the user that was accepted, from the inbox that was found, under the lock.
abbrev pub Safe : Answers → Ending → Type 0
Safe a (failed reply counts released) =
    (released ≡ (if may_hold a && a.release_posts then user_of a.account else none))
    × (counts ≡ refused a)
Safe a (loaded user inbox shard messages) =
    ((asks_lock a && (not a.acquire_throws && is_owned a.lock)) ≡ true)
    × ((a.account ≡ some (user, shard)) × (a.inbox ≡ some inbox))

-- The operation has asked for the lock, and the answer is that it is owned.
record Asked (a : Answers) (user box shard : ℕ) : Type 0 where
  asks : asks_lock a ≡ true
  answers : a.acquire_throws ≡ false
  holds : is_owned a.lock ≡ true
  account : a.account ≡ some (user, shard)
  inbox : a.inbox ≡ some box

-- The account is accepted, and the worker runs `load_inbox`.
abbrev pub starts : Answers → Bool
starts a =
    a.has_worker
    && (a.start_posts && (a.has_authenticator && (not a.login_throws && a.inbox_posts)))

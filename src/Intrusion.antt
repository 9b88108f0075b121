-- ===== src/Intrusion.antt =====
-- include/framework/intrusion_detector.h: the record that the server keeps of the sessions of an
-- address. The list of records stands in the order that the container iterates in.
pub mod Eviction
use proto_relay.Base.{
  ℕ, zero, suc, ◌+◌, ◌-◌, ◌%◌, ◌^◌, ◌<◌, ◌≤◌, ◌≡◌, refl, ap, sym, ◌∙◌, arith, Bool, true, false,
  ◌&&◌, ◌||◌, not, Option, none, some, List, [], ◌∷◌, ◌++◌, ◌==◌, ltb, leb, length, take, drop,
  if◌then◌else◌, Bytes, codes, bytes_eq,
}
use proto_relay.Base.Eq.{bytes_key}
use proto_relay.Base.Assoc

pub record IpRecord : Type 0 where
  pub failed_count : ℕ
  pub total_connections : ℕ
  pub first_seen : ℕ
  pub last_seen : ℕ

abbrev pub no_record : IpRecord
no_record = record { failed_count = 0; total_connections = 0; first_seen = 0; last_seen = 0 }

abbrev pub Records : Type 0
Records = List (Bytes × IpRecord)

-- `disk` is what the last snapshot wrote; `writable` says whether the file can be written.
pub record IntrusionDetector : Type 0 where
  pub enabled : Bool
  pub max_records : ℕ
  pub ban_threshold : ℕ
  pub persist_interval_sec : ℕ
  pub persist_dirty_threshold : ℕ
  pub records_since_persist : ℕ
  pub last_persist_time : ℕ
  pub writable : Bool
  pub records : Records
  pub disk : Records

unfoldable pub until_dot : Bytes → Option Bytes
until_dot [] = none
until_dot (c ∷ cs) =
    let more = until_dot cs in
    if c == 46 then some [] else elim more [ none ↦ none | some rest ↦ some (c ∷ rest) ]

-- `std::stoi` is a parameter, none where it throws; a number below 0 counts as 0.
module _ (stoi : Bytes → Option ℕ) where
  abbrev pub private_block : Option ℕ → Option Bool
  private_block none = none
  private_block (some second) = some (leb 16 second && leb second 31)

  abbrev pub private_second : Option Bytes → Option Bool
  private_second none = some false
  private_second (some digits) = private_block (stoi digits)

  -- `is_private_ip`
  unfoldable pub is_private_ip : Bytes → Option Bool
  unfolding bytes_eq until_dot
  is_private_ip ip =
      if bytes_eq ip (codes "127.0.0.1")
        || (bytes_eq ip (codes "::1") || bytes_eq ip (codes "0.0.0.0"))
      then some true
      else if bytes_eq (take 3 ip) (codes "10.")
      then some true
      else if bytes_eq (take 8 ip) (codes "192.168.")
      then some true
      else if bytes_eq (take 4 ip) (codes "172.")
      then private_second (until_dot (drop 4 ip))
      else some false

unfoldable pub query : Bytes → IntrusionDetector → IpRecord
query ip d = elim (Assoc.lookup ip d.records) [ none ↦ no_record | some r ↦ r ]

-- `m_ban_threshold <= 0` is the threshold 0.
unfoldable pub is_banned : Bytes → IntrusionDetector → Bool
is_banned ip d = if d.ban_threshold == 0 then false else elim (Assoc.lookup ip d.records) [
  | none ↦ false
  | some r ↦ leb d.ban_threshold r.failed_count
]

-- A session of an address is counted.
unfoldable pub counted : Bool → ℕ → IpRecord → IpRecord
counted authenticated now r = record {
  failed_count = if authenticated then r.failed_count else r.failed_count + 1;
  total_connections = r.total_connections + 1;
  first_seen = if r.first_seen == 0 then now else r.first_seen;
  last_seen = now;
}

-- The first of the records that were seen the longest ago.
unfoldable pub oldest_of : Bytes × IpRecord → Records → Bytes × IpRecord
oldest_of best [] = best
oldest_of best (x ∷ xs) =
    let younger = oldest_of best xs in
    let older = oldest_of x xs in if ltb x.1.last_seen best.1.last_seen then older else younger

unfoldable pub without_oldest : Records → Records
unfolding oldest_of
without_oldest [] = []
without_oldest (x ∷ xs) = Assoc.erase (oldest_of x xs).0 (x ∷ xs)

-- The loop of the eviction; each turn erases a record.
unfoldable pub evict : ℕ → ℕ → Records → Records
unfolding without_oldest
evict zero limit rs = rs
evict (suc n) limit rs =
    let next = evict n limit (without_oldest rs) in if ltb limit (length rs) then next else rs

unfoldable pub persist_locked : IntrusionDetector → IntrusionDetector
persist_locked d = if d.writable then record d { disk = d.records } else d

unfoldable pub persist_lazily : ℕ → IntrusionDetector → IntrusionDetector
unfolding persist_locked
persist_lazily now d =
    if leb d.persist_dirty_threshold d.records_since_persist
      && (d.last_persist_time == 0
          || leb d.persist_interval_sec ((now + 2 ^ 64 - d.last_persist_time) % 2 ^ 64))
    then record (persist_locked d) { records_since_persist = 0; last_persist_time = now }
    else d

unfoldable pub note_session : Bytes → Bool → ℕ → IntrusionDetector → IntrusionDetector
unfolding query counted evict persist_lazily
note_session ip authenticated now d =
    let rs = Assoc.insert ip (counted authenticated now (query ip d)) d.records in
    persist_lazily now (record d {
      records = evict (length rs) d.max_records rs;
      records_since_persist = d.records_since_persist + 1;
    })

-- `record_session`, none where it throws.
unfoldable pub record_session :
    (Bytes → Option ℕ) → Bytes → Bool → ℕ → IntrusionDetector → Option IntrusionDetector
unfolding is_private_ip note_session
record_session stoi ip authenticated now d =
    if not d.enabled || length ip == 0 then some d else elim (is_private_ip stoi ip) [
      | none ↦ none
      | some true ↦ some d
      | some false ↦ some (note_session ip authenticated now d)
    ]

-- ===== src/Intrusion/Eviction.antt =====
-- include/framework/intrusion_detector.h: the bound of the records, and when an address is banned.
use proto_relay.Base.{
  ℕ, zero, suc, ◌+◌, ◌-◌, ◌≤◌, ◌≡◌, refl, ap, sym, ◌∙◌, arith, Bool, true, false, ◌&&◌, ◌||◌, not,
  Option, none, some, List, [], ◌∷◌, ◌==◌, leb, length, if◌then◌else◌, Bytes,
}
use proto_relay.Base.Eq.{bytes_key}
use proto_relay.Base.Assoc
use proto_relay.Intrusion.{
  IpRecord, Records, IntrusionDetector, query, is_banned, counted, oldest_of, without_oldest, evict,
  persist_locked, persist_lazily, note_session, is_private_ip, record_session,
}

oldest_of-has_key :
    (best : Bytes × IpRecord) (xs : Records)
    → Assoc.has_key (oldest_of best xs).0 (best ∷ xs) ≡ true
unfolding oldest_of Assoc.has_key
oldest_of-has_key best [] = ground (arith, bytes_key.beq_iff best.0 best.0)
oldest_of-has_key best (x ∷ xs) = ground (arith, oldest_of-has_key x xs, oldest_of-has_key best xs)

without_oldest-length : (rs : Records) → length (without_oldest rs) ≡ length rs - 1
unfolding without_oldest
without_oldest-length [] = refl
without_oldest-length (x ∷ xs) =
    ground (arith, Assoc.length-erase (oldest_of x xs).0 (x ∷ xs), oldest_of-has_key x xs)

evict-bound : (n limit : ℕ) (rs : Records) → length rs ≤ n → length (evict n limit rs) ≤ limit
unfolding evict
evict-bound zero limit rs h = omega (arith, h)
evict-bound (suc n) limit rs h =
    ground (arith, h, evict-bound n limit (without_oldest rs), without_oldest-length rs)

evict-room : (n limit : ℕ) (rs : Records) → length rs ≤ limit → evict n limit rs ≡ rs
unfolding evict
evict-room zero limit rs h = refl
evict-room (suc n) limit rs h = ground (arith, h)

persist_lazily-records :
    (now : ℕ) (d : IntrusionDetector)
    → ((persist_lazily now d).records ≡ d.records)
      × (((persist_lazily now d).max_records ≡ d.max_records)
          × ((persist_lazily now d).ban_threshold ≡ d.ban_threshold))
unfolding persist_lazily persist_locked
persist_lazily-records now d = (ground arith, (ground arith, ground arith))

note_session-bound :
    (ip : Bytes) (a : Bool) (now : ℕ) (d : IntrusionDetector)
    → length (note_session ip a now d).records ≤ (note_session ip a now d).max_records
unfolding note_session
note_session-bound ip a now d =
    let rs = Assoc.insert ip (counted a now (query ip d)) d.records in
    let d1 = record d {
      records = evict (length rs) d.max_records rs;
      records_since_persist = d.records_since_persist + 1;
    } in
    let p = persist_lazily-records now d1 in
    rw (p.0, p.1.0) (evict-bound (length rs) d.max_records rs (omega arith))

-- A session leaves the records within their bound, whichever address it is of.
pub record_session-bound :
    (stoi : Bytes → Option ℕ) (ip : Bytes) (a : Bool) (now : ℕ) (d d' : IntrusionDetector)
    → record_session stoi ip a now d ≡ some d'
    → length d.records ≤ d.max_records
    → length d'.records ≤ d'.max_records
unfolding record_session
record_session-bound stoi ip a now d d' e h =
    recorded (not d.enabled || length ip == 0) (is_private_ip stoi ip) e
  where
    recorded :
        (b : Bool) (o : Option Bool)
        → (if b then some d else elim o [
          | none ↦ none
          | some true ↦ some d
          | some false ↦ some (note_session ip a now d)
        ])
          ≡ some d'
        → length d'.records ≤ d'.max_records
    recorded true o r = let same : d ≡ d' = cc r in rw (sym same) h
    recorded false none r = ground (arith, r)
    recorded false (some true) r = let same : d ≡ d' = cc r in rw (sym same) h
    recorded false (some false) r =
        let same : note_session ip a now d ≡ d' = cc r in
        rw (sym same) (note_session-bound ip a now d)

-- There is a place for the record of an address, and its sessions are counted.
pub record Counts (stoi : Bytes → Option ℕ) (ip : Bytes) (d : IntrusionDetector) : Type 0 where
  pub enabled : d.enabled ≡ true
  pub named : (length ip == 0) ≡ false
  pub public_address : is_private_ip stoi ip ≡ some false
  pub room :
      (if Assoc.has_key ip d.records then length d.records else suc (length d.records))
      ≤ d.max_records

note_session-records :
    (stoi : Bytes → Option ℕ) (ip : Bytes) (a : Bool) (now : ℕ) (d : IntrusionDetector)
    → Counts stoi ip d
    → (note_session ip a now d).records ≡ Assoc.insert ip (counted a now (query ip d)) d.records
unfolding note_session
note_session-records stoi ip a now d h =
    let r = counted a now (query ip d) in
    let rs = Assoc.insert ip r d.records in
    (persist_lazily-records now (record d {
      records = evict (length rs) d.max_records rs;
      records_since_persist = d.records_since_persist + 1;
    })).0
    ∙ evict-room (length rs) d.max_records rs (rw (Assoc.length-insert ip r d.records) h.room)

note_session-rest :
    (ip : Bytes) (a : Bool) (now : ℕ) (d : IntrusionDetector)
    → ((note_session ip a now d).enabled ≡ d.enabled)
      × (((note_session ip a now d).max_records ≡ d.max_records)
          × ((note_session ip a now d).ban_threshold ≡ d.ban_threshold))
unfolding note_session persist_lazily persist_locked
note_session-rest ip a now d = (ground arith, (ground arith, ground arith))

note_session-Counts :
    (stoi : Bytes → Option ℕ) (ip : Bytes) (a : Bool) (now : ℕ) (d : IntrusionDetector)
    → Counts stoi ip d
    → Counts stoi ip (note_session ip a now d)
note_session-Counts stoi ip a now d h =
    let r = counted a now (query ip d) in
    let rest = note_session-rest ip a now d in
    record {
      enabled = rest.0 ∙ h.enabled;
      named = h.named;
      public_address = h.public_address;
      room =
          rw
            (
              note_session-records stoi ip a now d h,
              rest.1.0,
              Assoc.has_key-insert ip ip r d.records,
              Assoc.length-insert ip r d.records,
            )
            (ground (arith, h.room, bytes_key.beq_iff ip ip));
    }

-- The sessions of an address that fail to authenticate, by the times that they end at.
unfoldable pub failing :
    (Bytes → Option ℕ) → Bytes → List ℕ → IntrusionDetector → Option IntrusionDetector
unfolding record_session
failing stoi ip [] d = some d
failing stoi ip (now ∷ times) d = elim (record_session stoi ip false now d) [
  | none ↦ none
  | some d' ↦ failing stoi ip times d'
]

is_banned-query :
    (ip : Bytes) (d : IntrusionDetector)
    → is_banned ip d ≡ (not (d.ban_threshold == 0) && leb d.ban_threshold (query ip d).failed_count)
unfolding is_banned query
is_banned-query ip d = ground arith

note_session-failed :
    (stoi : Bytes → Option ℕ) (ip : Bytes) (now : ℕ) (d : IntrusionDetector)
    → Counts stoi ip d
    → (query ip (note_session ip false now d)).failed_count ≡ (query ip d).failed_count + 1
unfolding query counted
note_session-failed stoi ip now d h = ground (
  arith,
  note_session-records stoi ip false now d h,
  Assoc.lookup-insert ip ip (counted false now (query ip d)) d.records,
  bytes_key.beq_iff ip ip,
)

unfoldable pub banned : Bytes → Option IntrusionDetector → Option Bool
banned ip none = none
banned ip (some d) = some (is_banned ip d)

record_session-note :
    (stoi : Bytes → Option ℕ) (ip : Bytes) (a : Bool) (now : ℕ) (d : IntrusionDetector)
    → Counts stoi ip d
    → record_session stoi ip a now d ≡ some (note_session ip a now d)
unfolding record_session
record_session-note stoi ip a now d h =
    noted (not d.enabled || length ip == 0) (is_private_ip stoi ip)
      (ground (arith, h.enabled, h.named)) h.public_address
  where
    noted :
        (b : Bool) (o : Option Bool)
        → b ≡ false
        → o ≡ some false
        → (if b then some d else elim o [
          | none ↦ none
          | some true ↦ some d
          | some false ↦ some (note_session ip a now d)
        ])
          ≡ some (note_session ip a now d)
    noted true o p q = ground (arith, p)
    noted false none p q = ground (arith, q)
    noted false (some true) p q = ground (arith, q)
    noted false (some false) p q = refl

-- On an enabled detector that has a place for the record of a public address: when sessions of that
-- address have failed to authenticate, it is banned just when the threshold is above 0 and the
-- failures, with those before, reach it.
pub failing-is_banned :
    (stoi : Bytes → Option ℕ) (ip : Bytes) (times : List ℕ) (d : IntrusionDetector)
    → Counts stoi ip d
    → banned ip (failing stoi ip times d)
      ≡ some (
          not (d.ban_threshold == 0)
          && leb d.ban_threshold ((query ip d).failed_count + length times))
unfolding banned failing
failing-is_banned stoi ip [] d h = ap some (is_banned-query ip d ∙ ground arith)
failing-is_banned stoi ip (now ∷ times) d h =
    let d1 = note_session ip false now d in
    let e = (note_session-rest ip false now d).1.1 in
    ap (λ o. banned ip (elim o [ none ↦ none | some d' ↦ failing stoi ip times d' ]))
      (record_session-note stoi ip false now d h)
    ∙ (failing-is_banned stoi ip times d1 (note_session-Counts stoi ip false now d h)
        ∙ ap some (rw (e, note_session-failed stoi ip now d h) (ground arith)))

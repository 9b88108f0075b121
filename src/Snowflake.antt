-- ===== src/Snowflake.antt =====
-- src/mail_system/back/algorithm/snow.cpp, include/mail_system/back/algorithm/snow.h: the generator
-- of mail ids. What `current_millis` returns, call after call, is a list of readings, in
-- milliseconds since 1970; `m_last_timestamp` of -1 is `none`.
pub mod Fields
pub mod Order
use proto_relay.Base.{
  ℕ, ◌+◌, ◌-◌, ◌*◌, ◌%◌, ◌^◌, Bool, ◌||◌, Option, none, some, List, [], ◌∷◌, ltb, ◌==◌,
  if◌then◌else◌,
}

abbrev pub twepoch : ℕ
twepoch = 1288834974657

abbrev pub max_worker_id : ℕ
max_worker_id = 2 ^ 5 - 1

abbrev pub max_datacenter_id : ℕ
max_datacenter_id = 2 ^ 5 - 1

pub record SnowflakeGenerator : Type 0 where
  pub last_timestamp : Option ℕ
  pub sequence : ℕ
  pub worker_id : ℕ
  pub datacenter_id : ℕ
  pub generated_count : ℕ

-- The members as the constructor initialises them.
unfoldable pub new_generator : ℕ → ℕ → SnowflakeGenerator
new_generator worker_id datacenter_id = record {
  last_timestamp = none;
  sequence = 0;
  worker_id = worker_id % 2 ^ 5;
  datacenter_id = datacenter_id % 2 ^ 5;
  generated_count = 0;
}

-- The constructor, `none` where it throws.
unfoldable pub create : ℕ → ℕ → Option SnowflakeGenerator
create worker_id datacenter_id =
    if ltb max_worker_id worker_id || ltb max_datacenter_id datacenter_id
    then none
    else some (new_generator worker_id datacenter_id)

-- `none` while no reading is beyond the last timestamp.
unfoldable pub til_next_millis : ℕ → List ℕ → Option ℕ
til_next_millis last [] = none
til_next_millis last (timestamp ∷ readings) =
    if ltb last timestamp then some timestamp else til_next_millis last readings

-- The 64 bits of the id. The four fields stand in disjoint bits, so that `|` is `+`.
unfoldable pub compose : SnowflakeGenerator → ℕ → ℕ
compose g timestamp =
    ((timestamp + 2 ^ 64 - twepoch) * 2 ^ 22) % 2 ^ 64
    + (g.datacenter_id * 2 ^ 17 + (g.worker_id * 2 ^ 12 + g.sequence))

-- What a call of `next_id` comes to: an exception, the wait for the next millisecond, or an id.
pub data Outcome : Type 0 where
  clock_moved_backwards : Outcome
  waiting : SnowflakeGenerator → Outcome
  issued : ℕ → SnowflakeGenerator → Outcome

unfoldable pub issue : SnowflakeGenerator → ℕ → Outcome
unfolding compose
issue g timestamp =
    issued (compose g timestamp)
      (record g { last_timestamp = some timestamp; generated_count = g.generated_count + 1 })

-- Within the millisecond of the last id.
unfoldable pub same_millis : List ℕ → ℕ → SnowflakeGenerator → Outcome
unfolding issue
same_millis readings timestamp g =
    let g' = record g { sequence = (g.sequence + 1) % 2 ^ 12 } in
    if g'.sequence == 0
    then elim (til_next_millis timestamp readings) [ none ↦ waiting g' | some t ↦ issue g' t ]
    else issue g' timestamp

-- The comparison of the first reading with `m_last_timestamp`.
unfoldable pub next_id_after : Option ℕ → ℕ → List ℕ → SnowflakeGenerator → Outcome
unfolding same_millis issue
next_id_after none timestamp readings g = issue (record g { sequence = 0 }) timestamp
next_id_after (some last) timestamp readings g =
    if ltb timestamp last
    then clock_moved_backwards
    else if timestamp == last
    then same_millis readings timestamp g
    else issue (record g { sequence = 0 }) timestamp

unfoldable pub next_id : List ℕ → SnowflakeGenerator → Outcome
unfolding next_id_after
next_id [] g = waiting g
next_id (timestamp ∷ readings) g = next_id_after g.last_timestamp timestamp readings g

-- The ids of several calls, each with its readings. A call that throws leaves the generator as it
-- is; one that still waits holds the lock, and nothing comes after it.
unfoldable pub ids : List (List ℕ) → SnowflakeGenerator → List ℕ
ids [] g = []
ids (readings ∷ calls) g = elim (next_id readings g) [
  | clock_moved_backwards ↦ ids calls g
  | waiting g' ↦ []
  | issued id g' ↦ id ∷ ids calls g'
]

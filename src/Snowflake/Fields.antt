-- ===== src/Snowflake/Fields.antt =====
-- The fields of an id, and what the generator keeps.
use proto_relay.Base.{
  ℕ, ◌+◌, ◌-◌, ◌*◌, ◌/◌, ◌%◌, ◌^◌, ◌≤◌, ◌<◌, Option, none, some, List, [], ◌∷◌, ◌≡◌, refl, inl, inr,
  arith, ltb, ◌==◌, Bool-cases, Option-cases,
}
use proto_relay.Snowflake.{
  twepoch, SnowflakeGenerator, til_next_millis, compose, Outcome, clock_moved_backwards, waiting,
  issued, issue, same_millis, next_id, next_id_after,
}

-- The 41 bits of milliseconds since `twepoch`.
abbrev pub InRange : ℕ → Type 0
InRange timestamp = (twepoch ≤ timestamp) × (timestamp < twepoch + 2 ^ 41)

abbrev pub AllInRange : List ℕ → Type 0
AllInRange [] = Unit
AllInRange (t ∷ readings) = InRange t × AllInRange readings

pub record IsValid (g : SnowflakeGenerator) : Type 0 where
  pub sequence : g.sequence < 2 ^ 12
  pub worker_id : g.worker_id < 2 ^ 5
  pub datacenter_id : g.datacenter_id < 2 ^ 5
  pub last : (t : ℕ) → g.last_timestamp ≡ some t → InRange t

pub compose_sum :
    (g : SnowflakeGenerator) (t : ℕ)
    → InRange t
    → compose g t
      ≡ (t - twepoch) * 2 ^ 22 + (g.datacenter_id * 2 ^ 17 + (g.worker_id * 2 ^ 12 + g.sequence))
unfolding compose
compose_sum g t range = omega arith

-- One more than the last id, or 0.
abbrev pub top : SnowflakeGenerator → ℕ
top g = elim g.last_timestamp [ none ↦ 0 | some t ↦ compose g t + 1 ]

-- What an id that comes out of `g`, leaving `g'`, is.
pub record Issued (g : SnowflakeGenerator) (id : ℕ) (g' : SnowflakeGenerator) : Type 0 where
  pub valid : IsValid g'
  pub above : top g ≤ id
  pub next_top : top g' ≡ id + 1
  pub bounded : id < 2 ^ 63
  pub of_worker : (id / 2 ^ 12) % 2 ^ 5 ≡ g.worker_id
  pub of_datacenter : (id / 2 ^ 17) % 2 ^ 5 ≡ g.datacenter_id
  pub same_worker : g'.worker_id ≡ g.worker_id
  pub same_datacenter : g'.datacenter_id ≡ g.datacenter_id
  pub counted : g'.generated_count ≡ g.generated_count + 1

-- The id of `g` with another sequence number at a time that makes it later.
Issued-compose :
    (g : SnowflakeGenerator) (s t : ℕ)
    → IsValid g
    → InRange t
    → s < 2 ^ 12
    → ((u : ℕ) → g.last_timestamp ≡ some u → (u * 2 ^ 12 + g.sequence < t * 2 ^ 12 + s))
    → Issued g (compose (record g { sequence = s }) t) (record g {
      sequence = s;
      last_timestamp = some t;
      generated_count = g.generated_count + 1;
    })
unfolding compose
Issued-compose g s t v range small later =
    let sum = compose_sum (record g { sequence = s }) t range in
    record {
      valid = record {
        sequence = small;
        worker_id = v.worker_id;
        datacenter_id = v.datacenter_id;
        last = λ u e. ground arith;
      };
      above = elim (Option-cases g.last_timestamp) [
        | inl e ↦ rw e (omega arith)
        | inr (u, e) ↦ rw e (
            omega (
              arith,
              sum,
              compose_sum g u (v.last u e),
              v.last u e,
              later u e,
              v.worker_id,
              v.datacenter_id,
            ))
      ];
      next_top = refl;
      bounded = omega (arith, sum, v.worker_id, v.datacenter_id);
      of_worker = omega (arith, sum, v.worker_id, v.datacenter_id);
      of_datacenter = omega (arith, sum, v.worker_id, v.datacenter_id);
      same_worker = refl;
      same_datacenter = refl;
      counted = refl;
    }

-- The wait ends at a reading of the list that is later.
til_next_millis-InRange :
    (last : ℕ) (readings : List ℕ) (t : ℕ)
    → AllInRange readings
    → til_next_millis last readings ≡ some t
    → InRange t × (last < t)
unfolding til_next_millis
til_next_millis-InRange last [] t range found = ground arith
til_next_millis-InRange last (r ∷ readings) t range found =
    ground (arith, til_next_millis-InRange last readings t range.1)

-- An outcome whose id, if it has one, is as it should be.
abbrev pub Sound : SnowflakeGenerator → Outcome → Type 0
Sound g clock_moved_backwards = Unit
Sound g (waiting g') = Unit
Sound g (issued id g') = Issued g id g'

same_millis-Sound :
    (readings : List ℕ) (t : ℕ) (g : SnowflakeGenerator)
    → IsValid g
    → InRange t
    → AllInRange readings
    → g.last_timestamp ≡ some t
    → Sound g (same_millis readings t g)
unfolding same_millis issue
same_millis-Sound readings t g v now range last =
    elim (Bool-cases ((g.sequence + 1) % 2 ^ 12 == 0)) [
      | inl wrapped ↦ elim (Option-cases (til_next_millis t readings)) [
        | inl stuck ↦ rw (wrapped, stuck) tt
        | inr (u, found) ↦
            let after = til_next_millis-InRange t readings u range found in
            rw (wrapped, found)
              (Issued-compose g ((g.sequence + 1) % 2 ^ 12) u v after.0 (omega arith)
                (λ w e. ground arith))
      ]
      | inr more ↦
          rw more (
            Issued-compose g ((g.sequence + 1) % 2 ^ 12) t v now (omega arith)
              (λ w e. ground arith))
    ]

next_id_after-Sound :
    (last : Option ℕ) (t : ℕ) (readings : List ℕ) (g : SnowflakeGenerator)
    → g.last_timestamp ≡ last
    → IsValid g
    → InRange t
    → AllInRange readings
    → Sound g (next_id_after last t readings g)
unfolding next_id_after issue
next_id_after-Sound none t readings g e v now range =
    Issued-compose g 0 t v now (omega arith) (λ u f. ground arith)
next_id_after-Sound (some last) t readings g e v now range = elim (Bool-cases (ltb t last)) [
  | inl back ↦ rw back tt
  | inr on ↦ elim (Bool-cases (t == last)) [
    | inl same ↦ rw (on, same) (same_millis-Sound readings t g v now range (ground arith))
    | inr later ↦
        rw (on, later)
          (Issued-compose g 0 t v now (omega arith) (λ u f. ground (arith, v.sequence)))
  ]
]

pub next_id-Sound :
    (readings : List ℕ) (g : SnowflakeGenerator)
    → IsValid g
    → AllInRange readings
    → Sound g (next_id readings g)
unfolding next_id
next_id-Sound [] g v range = tt
next_id-Sound (t ∷ readings) g v range =
    next_id_after-Sound g.last_timestamp t readings g refl v range.0 range.1

-- ===== src/Snowflake/Order.antt =====
use mathlib.Core.Path.{subst}
-- The ids of a generator, in order, and against those of another.
use proto_relay.Base.{◌++◌, ◌%◌, ◌==◌, false}
use proto_relay.Base.{
  ℕ, ◌+◌, ◌≤◌, ◌<◌, ◌^◌, Option, none, some, List, [], ◌∷◌, ◌≡◌, ◌≢◌, ◌⊎◌, refl, inl, inr, arith,
  ltb, Bool-cases,
}
use proto_relay.Snowflake.{
  SnowflakeGenerator, Outcome, clock_moved_backwards, waiting, issued, create, new_generator,
  til_next_millis, issue, same_millis, next_id, next_id_after, ids,
}
use proto_relay.Snowflake.Fields.{AllInRange, IsValid, Issued, Sound, top, next_id-Sound}

abbrev pub CallsInRange : List (List ℕ) → Type 0
CallsInRange [] = Unit
CallsInRange (readings ∷ calls) = AllInRange readings × CallsInRange calls

-- Each number is at least `least` and below those that follow.
abbrev pub Increasing : ℕ → List ℕ → Type 0
Increasing least [] = Unit
Increasing least (id ∷ later) = (least ≤ id) × ((id < 2 ^ 63) × Increasing (id + 1) later)

-- The ids of a sequence of calls, where the generator is as the constructor or an earlier call
-- leaves it and the clock reads within 41 bits of the epoch, increase strictly, lie above all ids
-- issued before, and fit a signed 64-bit integer. The clock may stand still or run backwards.
pub ids-Increasing :
    (calls : List (List ℕ)) (g : SnowflakeGenerator)
    → IsValid g
    → CallsInRange calls
    → Increasing (top g) (ids calls g)
unfolding ids
ids-Increasing [] g v range = tt
ids-Increasing (readings ∷ calls) g v range =
    go (next_id readings g) (next_id-Sound readings g v range.0) refl
      (λ h w. ids-Increasing calls h w range.1)
  where
    go :
        (o : Outcome)
        → Sound g o
        → next_id readings g ≡ o
        → ((h : SnowflakeGenerator) → IsValid h → Increasing (top h) (ids calls h))
        → Increasing (top g) (ids (readings ∷ calls) g)
    go clock_moved_backwards s e rest = rw (e, ids) (rest g v)
    go (waiting g') s e rest = rw (e, ids) tt
    go (issued id g') s e rest =
        rw (e, ids) (s.above, (s.bounded, rw⁻¹ s.next_top (rest g' s.valid)))

-- Two valid generators that differ in their worker or in their data centre do not issue the same id, as
-- long as all readings of both clocks are within 41 bits of the epoch.
pub next_id_disjoint :
    (readings others : List ℕ) (g h : SnowflakeGenerator) (i j : ℕ) (g' h' : SnowflakeGenerator)
    → IsValid g
    → IsValid h
    → AllInRange readings
    → AllInRange others
    → (g.worker_id ≢ h.worker_id) ⊎ (g.datacenter_id ≢ h.datacenter_id)
    → next_id readings g ≡ issued i g'
    → next_id others h ≡ issued j h'
    → i ≢ j
next_id_disjoint readings others g h i j g' h' v w range range' differ p q =
    let a : Issued g i g' = subst (λ o. Sound g o) p (next_id-Sound readings g v range) in
    let b : Issued h j h' = subst (λ o. Sound h o) q (next_id-Sound others h w range') in
    λ same. elim differ [
      | inl worker ↦ worker (omega (arith, a.of_worker, b.of_worker, same))
      | inr datacenter ↦ datacenter (omega (arith, a.of_datacenter, b.of_datacenter, same))
    ]

til_next_millis-some :
    (last : ℕ) (before : List ℕ) (t : ℕ) (after : List ℕ)
    → last < t
    → (u : ℕ) × (til_next_millis last (before ++ t ∷ after) ≡ some u)
unfolding til_next_millis
til_next_millis-some last [] t after later = (t, ground arith)
til_next_millis-some last (r ∷ before) t after later = elim (Bool-cases (ltb last r)) [
  | inl beyond ↦ (r, rw beyond refl)
  | inr early ↦ rw early (til_next_millis-some last before t after later)
]

-- An outcome that is an id.
abbrev pub IsIssued : Outcome → Type 0
IsIssued (issued id g') = Unit
IsIssued _ = ⊥

same_millis-IsIssued :
    (now : ℕ) (before : List ℕ) (t : ℕ) (after : List ℕ) (g : SnowflakeGenerator)
    → now < t
    → IsIssued (same_millis (before ++ t ∷ after) now g)
unfolding same_millis issue
same_millis-IsIssued now before t after g later =
    let (u, found) = til_next_millis-some now before t after later in
    elim (Bool-cases ((g.sequence + 1) % 2 ^ 12 == 0)) [
      | inl wrapped ↦ rw (wrapped, found) tt
      | inr more ↦ rw more tt
    ]

next_id_after-IsIssued :
    (last : Option ℕ) (now : ℕ) (before : List ℕ) (t : ℕ) (after : List ℕ) (g : SnowflakeGenerator)
    → ((u : ℕ) → last ≡ some u → u ≤ now)
    → now < t
    → IsIssued (next_id_after last now (before ++ t ∷ after) g)
unfolding next_id_after issue
next_id_after-IsIssued none now before t after g forward later = tt
next_id_after-IsIssued (some last) now before t after g forward later =
    let on : ltb now last ≡ false = ground (arith, forward last refl) in
    elim (Bool-cases (now == last)) [
      | inl same ↦ rw (on, same) (same_millis-IsIssued now before t after g later)
      | inr apart ↦ rw (on, apart) tt
    ]

-- A call returns an id, without an exception and without waiting for ever, where the clock has not
-- run backwards since the last id and at some later reading has moved on.
pub next_id-IsIssued :
    (now : ℕ) (before : List ℕ) (t : ℕ) (after : List ℕ) (g : SnowflakeGenerator)
    → ((u : ℕ) → g.last_timestamp ≡ some u → u ≤ now)
    → now < t
    → IsIssued (next_id (now ∷ before ++ t ∷ after) g)
unfolding next_id
next_id-IsIssued now before t after g forward later =
    next_id_after-IsIssued g.last_timestamp now before t after g forward later

pub new_generator-IsValid : (worker datacenter : ℕ) → IsValid (new_generator worker datacenter)
unfolding new_generator
new_generator-IsValid worker datacenter = record {
  sequence = omega arith;
  worker_id = omega arith;
  datacenter_id = omega arith;
  last = λ t e. ground arith;
}

-- What the constructor makes is well formed.
pub create-IsValid :
    (worker datacenter : ℕ) (g : SnowflakeGenerator) → create worker datacenter ≡ some g → IsValid g
unfolding create
create-IsValid worker datacenter g made =
    let e : new_generator worker datacenter ≡ g = ground arith in
    subst IsValid e (new_generator-IsValid worker datacenter)

-- ===== src/Tests/Ids.antt =====
-- src/mail_system/back/algorithm/snow.cpp at concrete inputs.
use proto_relay.Base.{ℕ, List, [], ◌∷◌, ◌≡◌, ◌≢◌, refl, inl, some, arith}
use proto_relay.Snowflake.{
  SnowflakeGenerator, new_generator, next_id, next_id_after, issue, compose, same_millis,
  til_next_millis, ids,
}
use proto_relay.Snowflake.Order.{
  Increasing, IsIssued, ids-Increasing, next_id_disjoint, next_id-IsIssued, new_generator-IsValid,
}

abbrev first_generator : SnowflakeGenerator
first_generator = new_generator 3 1

abbrev second_generator : SnowflakeGenerator
second_generator = new_generator 4 1

-- Two calls in one millisecond, one with the clock behind, one in the next millisecond.
abbrev some_calls : List (List ℕ)
some_calls =
    (1700000000000 ∷ []) ∷ (1700000000000 ∷ []) ∷ (1600000000000 ∷ []) ∷ (1700000000001 ∷ []) ∷ []

ids_test :
    ids some_calls first_generator
    ≡ 1724551110456389632 ∷ 1724551110456389633 ∷ 1724551110460583936 ∷ []
unfolding ids next_id next_id_after issue compose same_millis til_next_millis new_generator
ids_test = refl

ids-Increasing_example : Increasing 0 (ids some_calls first_generator)
unfolding new_generator
ids-Increasing_example = ids-Increasing some_calls first_generator (new_generator-IsValid 3 1) (
  ((omega arith, omega arith), tt),
  (
    ((omega arith, omega arith), tt),
    (((omega arith, omega arith), tt), (((omega arith, omega arith), tt), tt)),
  ),
)

next_id-IsIssued_example : IsIssued (next_id (1700000000000 ∷ 1700000000001 ∷ []) first_generator)
unfolding new_generator
next_id-IsIssued_example =
    next_id-IsIssued 1700000000000 [] 1700000000001 [] first_generator (λ u e. ground arith)
      (omega arith)

abbrev after_one : SnowflakeGenerator → SnowflakeGenerator
after_one g = record g { last_timestamp = some 1700000000000; generated_count = 1 }

next_id_disjoint_example : ◌≢◌ {A = ℕ} 1724551110456389632 1724551110456393728
unfolding next_id next_id_after issue compose new_generator
next_id_disjoint_example =
    next_id_disjoint (1700000000000 ∷ []) (1700000000000 ∷ []) first_generator second_generator
      1724551110456389632 1724551110456393728 (after_one first_generator)
      (after_one second_generator) (new_generator-IsValid 3 1) (new_generator-IsValid 4 1)
      ((omega arith, omega arith), tt) ((omega arith, omega arith), tt) (inl (ground arith)) refl
      refl

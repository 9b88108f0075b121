-- ===== src/Fsm.antt =====
-- include/framework/fsm/fsm_desc.h: the description of a protocol machine, as data.
pub mod Smtps
pub mod Runs
pub mod Pop3
pub mod Session
pub mod Engine
use proto_relay.Base.{
  ℕ, ◌+◌, ◌-◌, Bool, true, false, ◌&&◌, ◌||◌, Option, none, some, List, [], ◌∷◌, length, leb, ◌==◌,
  if◌then◌else◌, Bytes,
}
use proto_relay.Base.Eq.{KeyEq}

pub record GuardRow (State Event : Type 0) : Type 0 where
  pub from : State
  pub on : Event
  pub to : Option State

pub record CommandEntry (Event : Type 0) : Type 0 where
  pub word : Bytes
  pub event : Event

pub record Desc (State Event : Type 0) : Type 0 where
  pub commands : List (CommandEntry Event)
  pub guards : List (GuardRow State Event)
  pub error_reply : Bytes
  pub error_budget : ℕ
  pub timeout_reply : Bytes
  pub timeout_close : Bool
  pub greeting : Bytes
  pub internal_error_reply : Bytes
  pub terminals : List State

-- One letter in upper case.
unfoldable pub upper : ℕ → ℕ
upper c = if leb 97 c && leb c 122 then c - 32 else c

-- The loop of `icase_equal`; its callers have compared the sizes.
unfoldable pub icase_equal : Bytes → Bytes → Bool
unfolding upper
icase_equal [] _ = true
icase_equal (c ∷ xs) [] = false
icase_equal (c ∷ xs) (k ∷ ys) = upper c == upper k && icase_equal xs ys

unfoldable pub find_command : {Event : Type 0} → Bytes → List (CommandEntry Event) → Option Event
unfolding icase_equal
find_command word [] = none
find_command word (entry ∷ entries) =
    if length entry.word == length word && icase_equal entry.word word
    then some entry.event
    else find_command word entries

unfoldable pub match_command : {State Event : Type 0} → Desc State Event → Bytes → Option Event
unfolding find_command
match_command d word = if length word == 0 then none else find_command word d.commands

unfoldable pub same_word : {Event : Type 0} → Bytes → List (CommandEntry Event) → Bool
unfolding icase_equal
same_word word [] = false
same_word word (entry ∷ entries) =
    length word == length entry.word && icase_equal word entry.word || same_word word entries

unfoldable pub conflicting : {Event : Type 0} → List (CommandEntry Event) → Bool
unfolding same_word
conflicting [] = false
conflicting (entry ∷ entries) = same_word entry.word entries || conflicting entries

unfoldable pub has_conflicting_command : {State Event : Type 0} → Desc State Event → Bool
unfolding conflicting
has_conflicting_command d = conflicting d.commands

unfoldable pub find_terminal : {State : Type 0} ⦃s : KeyEq State⦄ → State → List State → Bool
find_terminal state [] = false
find_terminal ⦃s⦄ state (t ∷ ts) = s.beq t state || find_terminal state ts

unfoldable pub is_terminal :
    {State Event : Type 0} ⦃s : KeyEq State⦄ → Desc State Event → State → Bool
unfolding find_terminal
is_terminal d state = find_terminal state d.terminals

module _ {State Event : Type 0} ⦃s : KeyEq State⦄ ⦃e : KeyEq Event⦄ where
  -- The first row of the pair, and its target.
  unfoldable pub find_row : State → Event → List (GuardRow State Event) → Option (Option State)
  find_row from on [] = none
  find_row from on (row ∷ rows) =
      if s.beq row.from from && e.beq row.on on then some row.to else find_row from on rows

  unfoldable pub guard_target : Desc State Event → State → Event → Option (Option State)
  unfolding find_row
  guard_target d from on = find_row from on d.guards

-- ===== src/Pop3/Numbers.antt =====
-- include/mail_system/back/common/safe_parse.h: decimal numbers, with `std::stoull`,
-- `std::from_chars` and `std::to_string` of the standard library.
pub mod Decimals
use proto_relay.Base.{
  ℕ, zero, suc, ◌+◌, ◌-◌, ◌*◌, ◌/◌, ◌%◌, ◌^◌, ◌<◌, ◌≤◌, ◌≡◌, refl, sym, ap, ◌∙◌, arith, Bool, true,
  false, ◌&&◌, ◌||◌, not, Option, none, some, List, [], ◌∷◌, ◌++◌, length, ltb, leb, ◌==◌,
  if◌then◌else◌, Bytes,
}

abbrev pub is_digit : ℕ → Bool
is_digit c = leb 48 c && leb c 57

abbrev pub is_space : ℕ → Bool
is_space c = c == 32 || leb 9 c && leb c 13

unfoldable pub skip_space : Bytes → Bytes
skip_space [] = []
skip_space (c ∷ cs) = let rest = skip_space cs in if is_space c then rest else c ∷ cs

-- The value of the digits at the front, none where there is no digit.
unfoldable pub digits_value : ℕ → Bytes → ℕ
digits_value n [] = n
digits_value n (c ∷ cs) =
    let rest = digits_value (n * 10 + (c - 48)) cs in if is_digit c then rest else n

unfoldable pub in_range : ℕ → Option ℕ
in_range n = if ltb n (2 ^ 64) then some n else none

unfoldable pub unsigned : Bytes → Option ℕ
unfolding digits_value in_range
unsigned [] = none
unsigned (c ∷ cs) = if is_digit c then in_range (digits_value 0 (c ∷ cs)) else none

-- A number behind a minus sign wraps around.
unfoldable pub negated : Option ℕ → Option ℕ
negated none = none
negated (some n) = some ((2 ^ 64 - n) % 2 ^ 64)

unfoldable pub signed : Bytes → Option ℕ
unfolding unsigned negated
signed [] = none
signed (c ∷ cs) =
    if c == 45 then negated (unsigned cs) else if c == 43 then unsigned cs else unsigned (c ∷ cs)

-- `std::stoull`, `none` where it throws.
unfoldable pub stoull : Bytes → Option ℕ
unfolding skip_space signed
stoull s = signed (skip_space s)

unfoldable pub or_zero : Option ℕ → ℕ
or_zero none = 0
or_zero (some n) = n

-- `safe_stoull`
unfoldable pub safe_stoull : Bytes → ℕ
unfolding stoull or_zero
safe_stoull s = or_zero (stoull s)

unfoldable pub all_digits : Bytes → Bool
all_digits [] = true
all_digits (c ∷ cs) = is_digit c && all_digits cs

-- `parse_uint`
unfoldable pub parse_uint : Bytes → Option ℕ
unfolding all_digits digits_value in_range
parse_uint s = if length s == 0 || not (all_digits s) then none else in_range (digits_value 0 s)

-- `std::to_string` on an unsigned number.
unfoldable pub digits_on : ℕ → ℕ → Bytes → Bytes
digits_on zero n acc = acc
digits_on (suc f) n acc =
    if ltb n 10 then (48 + n) ∷ acc else digits_on f (n / 10) ((48 + n % 10) ∷ acc)

unfoldable pub decimal : ℕ → Bytes
unfolding digits_on
decimal n = digits_on (n + 1) n []

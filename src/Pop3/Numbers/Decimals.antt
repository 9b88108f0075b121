-- ===== src/Pop3/Numbers/Decimals.antt =====
-- include/mail_system/back/common/safe_parse.h: numbers that are printed are read back.
use proto_relay.Base.{
  ℕ, zero, suc, ◌+◌, ◌/◌, ◌%◌, ◌^◌, ◌<◌, ◌≡◌, refl, ap, ◌∙◌, arith, true, some, [], ◌∷◌, length,
  Bytes,
}
use proto_relay.Pop3.Numbers.{
  skip_space, digits_value, in_range, unsigned, signed, stoull, or_zero, safe_stoull, all_digits,
  parse_uint, digits_on, decimal,
}

digits_on-value :
    (f n : ℕ) (acc : Bytes) → n < f → digits_value 0 (digits_on f n acc) ≡ digits_value n acc
unfolding digits_on digits_value
digits_on-value zero n acc h = ground (arith, h)
digits_on-value (suc f) n acc h =
    ground (arith, h, digits_on-value f (n / 10) ((48 + n % 10) ∷ acc))

digits_on-all_digits :
    (f n : ℕ) (acc : Bytes) → all_digits acc ≡ true → all_digits (digits_on f n acc) ≡ true
unfolding digits_on all_digits
digits_on-all_digits zero n acc h = h
digits_on-all_digits (suc f) n acc h =
    ground (arith, h, digits_on-all_digits f (n / 10) ((48 + n % 10) ∷ acc))

-- Every turn puts a digit in front.
digits_on-longer : (f n : ℕ) (acc : Bytes) → n < f → length acc < length (digits_on f n acc)
unfolding digits_on
digits_on-longer zero n acc h = ground (arith, h)
digits_on-longer (suc f) n acc h =
    ground (arith, h, digits_on-longer f (n / 10) ((48 + n % 10) ∷ acc))

pub decimal-value : (n : ℕ) → digits_value 0 (decimal n) ≡ n
unfolding decimal digits_value
decimal-value n = digits_on-value (n + 1) n [] (omega arith)

pub decimal-all_digits : (n : ℕ) → all_digits (decimal n) ≡ true
unfolding decimal all_digits
decimal-all_digits n = digits_on-all_digits (n + 1) n [] refl

pub decimal-length : (n : ℕ) → 0 < length (decimal n)
unfolding decimal
decimal-length n = digits_on-longer (n + 1) n [] (omega arith)

-- On digits alone, the two readers agree.
stoull-digits :
    (s : Bytes) → 0 < length s → all_digits s ≡ true → stoull s ≡ in_range (digits_value 0 s)
unfolding stoull skip_space signed unsigned all_digits
stoull-digits [] p h = ground (arith, p)
stoull-digits (c ∷ cs) p h = ground (arith, h)

parse_uint-digits :
    (s : Bytes) → 0 < length s → all_digits s ≡ true → parse_uint s ≡ in_range (digits_value 0 s)
unfolding parse_uint
parse_uint-digits s p h = ground (arith, p, h)

-- A number below 2^64 that is printed is read back by both parsers.
pub parse_uint-decimal :
    (n : ℕ) → n < 2 ^ 64 → (parse_uint (decimal n) ≡ some n) × (safe_stoull (decimal n) ≡ n)
unfolding safe_stoull or_zero in_range
parse_uint-decimal n h = (
  parse_uint-digits (decimal n) (decimal-length n) (decimal-all_digits n)
      ∙ (ap in_range (decimal-value n) ∙ ground (arith, h)),
  ap or_zero (
        stoull-digits (decimal n) (decimal-length n) (decimal-all_digits n)
        ∙ ap in_range (decimal-value n))
      ∙ ground (arith, h),
)

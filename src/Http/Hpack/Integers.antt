-- ===== src/Http/Hpack/Integers.antt =====
-- The integers of HPACK: what the writers put, the reader reads.
use proto_relay.Base.{
  ℕ, ◌+◌, ◌-◌, ◌*◌, ◌/◌, ◌%◌, ◌^◌, ◌≤◌, ◌<◌, true, false, some, ◌∷◌, ◌++◌, ◌≡◌, ◌∙◌, refl, inl, inr,
  arith, ltb, leb, Bytes, Bool-cases,
}
use proto_relay.Http.Hpack.{read_more, read_integer, write_more, write_integer_raw}

-- A byte with the high bit goes on, where the sum stays within 32 bits.
read_more_continue :
    (shift acc v : ℕ) (more : Bytes)
    → shift ≤ 28
    → acc + (v % 128) * 2 ^ shift < 2 ^ 32
    → read_more shift acc ((v % 128 + 128) ∷ more)
      ≡ read_more (shift + 7) (acc + (v % 128) * 2 ^ shift) more
unfolding read_more
read_more_continue shift acc v more within fits =
    let low : (v % 128 + 128) % 128 ≡ v % 128 = omega arith in
    let high : leb 128 (v % 128 + 128) ≡ true = ground arith in
    let on : ltb 28 shift ≡ false = ground arith in
    let sum : (acc + ((v % 128) * 2 ^ shift) % 2 ^ 32) % 2 ^ 32 ≡ acc + (v % 128) * 2 ^ shift =
      omega arith in
    rw (on, high, low, sum) refl

read_more_last :
    (shift acc v : ℕ) (rest : Bytes)
    → v < 128
    → shift ≤ 28
    → acc + v * 2 ^ shift < 2 ^ 32
    → read_more shift acc (v % 256 ∷ rest) ≡ some (acc + v * 2 ^ shift, rest)
unfolding read_more
read_more_last shift acc v rest small within fits =
    let byte : v % 256 ≡ v = omega arith in
    let low : v % 128 ≡ v = omega arith in
    let high : leb 128 v ≡ false = ground arith in
    let on : ltb 28 shift ≡ false = ground arith in
    let sum : (acc + (v * 2 ^ shift) % 2 ^ 32) % 2 ^ 32 ≡ acc + v * 2 ^ shift = omega arith in
    rw (byte, on, high, low, sum) refl

read_more-write_more_28 :
    (acc v : ℕ) (rest : Bytes)
    → acc + v * 2 ^ 28 < 2 ^ 32
    → read_more 28 acc (write_more 0 v ++ rest) ≡ some (acc + v * 2 ^ 28, rest)
unfolding write_more
read_more-write_more_28 acc v rest fits =
    read_more_last 28 acc v rest (omega arith) (omega arith) fits

read_more-write_more_21 :
    (acc v : ℕ) (rest : Bytes)
    → acc + v * 2 ^ 21 < 2 ^ 32
    → read_more 21 acc (write_more 1 v ++ rest) ≡ some (acc + v * 2 ^ 21, rest)
unfolding write_more
read_more-write_more_21 acc v rest fits = elim (Bool-cases (leb 128 v)) [
  | inl big ↦
      let whole : acc + (v % 128) * 2 ^ 21 + (v / 128) * 2 ^ 28 ≡ acc + v * 2 ^ 21 = omega arith in
      rw (big, write_more)
        (read_more_continue 21 acc v (write_more 0 (v / 128) ++ rest) (omega arith) (omega arith)
          ∙ read_more-write_more_28 (acc + (v % 128) * 2 ^ 21) (v / 128) rest (omega arith)
          ∙ rw whole refl)
  | inr small ↦
      rw (small, write_more) (read_more_last 21 acc v rest (ground arith) (omega arith) fits)
]

read_more-write_more_14 :
    (acc v : ℕ) (rest : Bytes)
    → acc + v * 2 ^ 14 < 2 ^ 32
    → read_more 14 acc (write_more 2 v ++ rest) ≡ some (acc + v * 2 ^ 14, rest)
unfolding write_more
read_more-write_more_14 acc v rest fits = elim (Bool-cases (leb 128 v)) [
  | inl big ↦
      let whole : acc + (v % 128) * 2 ^ 14 + (v / 128) * 2 ^ 21 ≡ acc + v * 2 ^ 14 = omega arith in
      rw (big, write_more)
        (read_more_continue 14 acc v (write_more 1 (v / 128) ++ rest) (omega arith) (omega arith)
          ∙ read_more-write_more_21 (acc + (v % 128) * 2 ^ 14) (v / 128) rest (omega arith)
          ∙ rw whole refl)
  | inr small ↦
      rw (small, write_more) (read_more_last 14 acc v rest (ground arith) (omega arith) fits)
]

read_more-write_more_7 :
    (acc v : ℕ) (rest : Bytes)
    → acc + v * 2 ^ 7 < 2 ^ 32
    → read_more 7 acc (write_more 3 v ++ rest) ≡ some (acc + v * 2 ^ 7, rest)
unfolding write_more
read_more-write_more_7 acc v rest fits = elim (Bool-cases (leb 128 v)) [
  | inl big ↦
      let whole : acc + (v % 128) * 2 ^ 7 + (v / 128) * 2 ^ 14 ≡ acc + v * 2 ^ 7 = omega arith in
      rw (big, write_more)
        (read_more_continue 7 acc v (write_more 2 (v / 128) ++ rest) (omega arith) (omega arith)
          ∙ read_more-write_more_14 (acc + (v % 128) * 2 ^ 7) (v / 128) rest (omega arith)
          ∙ rw whole refl)
  | inr small ↦
      rw (small, write_more) (read_more_last 7 acc v rest (ground arith) (omega arith) fits)
]

pub read_more-write_more :
    (acc v : ℕ) (rest : Bytes)
    → acc + v * 2 ^ 0 < 2 ^ 32
    → read_more 0 acc (write_more 4 v ++ rest) ≡ some (acc + v * 2 ^ 0, rest)
unfolding write_more
read_more-write_more acc v rest fits = elim (Bool-cases (leb 128 v)) [
  | inl big ↦
      let whole : acc + (v % 128) * 2 ^ 0 + (v / 128) * 2 ^ 7 ≡ acc + v * 2 ^ 0 = omega arith in
      rw (big, write_more)
        (read_more_continue 0 acc v (write_more 3 (v / 128) ++ rest) (omega arith) (omega arith)
          ∙ read_more-write_more_7 (acc + (v % 128) * 2 ^ 0) (v / 128) rest (omega arith)
          ∙ rw whole refl)
  | inr small ↦
      rw (small, write_more) (read_more_last 0 acc v rest (ground arith) (omega arith) fits)
]

-- The reader of integers takes back what the writer puts, whatever stands behind it: for a prefix
-- of four bits and any number of 32 bits.
pub read_integer-write_integer_raw :
    (value : ℕ) (rest : Bytes)
    → value < 2 ^ 32
    → read_integer 4 (write_integer_raw value 4 ++ rest) ≡ some (value, rest)
unfolding read_integer write_integer_raw
read_integer-write_integer_raw value rest small = elim (Bool-cases (ltb value 15)) [
  | inl short ↦
      let low : value % 256 % 16 ≡ value = ground arith in
      rw (short, write_integer_raw) (rw (low, short) refl)
  | inr long ↦
      rw (long, write_integer_raw)
        (read_more-write_more 15 (value - 15) rest (omega arith) ∙ ground arith)
]

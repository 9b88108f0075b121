-- ===== src/Base/Wire.antt =====
-- Big-endian integers in byte strings: the loops of `put32`, `put64`, `get32`, `get64` of
-- src/framework/node/node_proto.cpp, which the other codecs write out byte by byte.
use Prim.Native.Nat.{ℕ, zero, suc, ◌+◌, ◌*◌, ◌/◌, ◌%◌, ◌^◌, ◌<◌}
use mathlib.Core.Path.{◌≡◌, refl}
use mathlib.Core.List.{[], ◌∷◌}
use native.Mathlib.Omega.{arith}
use proto_relay.Base.Lists.{length, All}
use proto_relay.Base.ByteString.{Bytes, IsByte}

-- `for (int i = w - 1; i >= 0; --i) s.push_back(char(n >> (i * 8)));`
unfoldable pub put : ℕ → ℕ → Bytes
put zero n = []
put (suc i) n = (n / 256 ^ i % 256) ∷ put i n

-- `for (...) n = (n << 8) | uint8_t(p[i]);` on a byte string of the field's width
unfoldable pub get : ℕ → Bytes → ℕ
get n [] = n
get n (b ∷ bs) = get (n * 256 + b) bs

pub length-put : (w n : ℕ) → length (put w n) ≡ w
unfolding put
length-put zero n = refl
length-put (suc i) n = omega (arith, length-put i n)

pub put-IsByte : (w n : ℕ) → All IsByte (put w n)
unfolding put
put-IsByte zero n = tt
put-IsByte (suc i) n = (omega arith, put-IsByte i n)

pub get-put_one : (n : ℕ) → n < 256 → get 0 (put 1 n) ≡ n
unfolding put get
get-put_one n h = omega arith

pub get-put_two : (n : ℕ) → n < 256 ^ 2 → get 0 (put 2 n) ≡ n
unfolding put get
get-put_two n h = omega arith

pub get-put_three : (n : ℕ) → n < 256 ^ 3 → get 0 (put 3 n) ≡ n
unfolding put get
get-put_three n h = omega arith

pub get-put_four : (n : ℕ) → n < 256 ^ 4 → get 0 (put 4 n) ≡ n
unfolding put get
get-put_four n h = omega arith

pub get-put_eight : (n : ℕ) → n < 256 ^ 8 → get 0 (put 8 n) ≡ n
unfolding put get
get-put_eight n h = omega arith

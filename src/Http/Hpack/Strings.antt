-- ===== src/Http/Hpack/Strings.antt =====
-- The strings of HPACK: what `write_string_raw` puts and what `read_string` makes of it.
use mathlib.Core.List.{append_assoc}
use proto_relay.Base.{
  ◌+◌, ◌-◌, ◌*◌, ◌%◌, ◌^◌, ◌≤◌, ◌<◌, Bool, true, false, some, ◌∷◌, ◌++◌, ◌≡◌, refl, arith, length,
  ltb, leb, if◌then◌else◌, Bytes, length-append, take-append, drop-append,
}
use proto_relay.Http.Hpack.{
  read_integer, read_string, read_sized, with_rest, read_body, write_more, write_string_raw,
}
use proto_relay.Http.Hpack.Huffman.{huffman_decode}
use proto_relay.Http.Hpack.Integers.{read_more-write_more}

read_body_append :
    (huff : Bool) (s rest : Bytes)
    → read_body huff (length s) (s ++ rest)
      ≡ (if huff then with_rest rest (huffman_decode s) else some (s, rest))
unfolding read_body
read_body_append huff s rest =
    let enough : ltb (length (s ++ rest)) (length s) ≡ false =
      ground (arith, length-append s rest) in
    rw (enough, take-append s rest, drop-append s rest) refl

read_string_sized :
    (s rest : Bytes) → length s < 127 → read_string (length s ∷ s ++ rest) ≡ some (s, rest)
unfolding read_string read_integer read_sized
read_string_sized s rest short =
    let low : length s % 128 ≡ length s = omega arith in
    let in_prefix : ltb (length s) 127 ≡ true = ground arith in
    let raw : leb 128 (length s) ≡ false = ground arith in
    rw (raw, low, in_prefix) (read_body_append false s rest)

-- A name or a value shorter than 127 bytes is read back as it was written.
pub read_string-write_string_raw :
    (s rest : Bytes) → length s < 127 → read_string (write_string_raw s ++ rest) ≡ some (s, rest)
unfolding read_string write_string_raw read_integer read_sized
read_string-write_string_raw s rest short =
    let size : length s % 2 ^ 32 ≡ length s = omega arith in
    let small : ltb (length s) 127 ≡ true = ground arith in
    let byte : length s % 256 ≡ length s = omega arith in
    rw (size, small, byte, write_string_raw) (read_string_sized s rest short)

-- A name or a value of 127 bytes or more goes out with the Huffman bit set over raw bytes: a reader
-- gets what Huffman decoding makes of the string, or fails.
pub read_string_long :
    (s rest : Bytes)
    → 127 ≤ length s
    → length s < 2 ^ 32
    → read_string (write_string_raw s ++ rest) ≡ with_rest rest (huffman_decode s)
unfolding read_string write_string_raw read_integer read_sized
read_string_long s rest long fits =
    let size : length s % 2 ^ 32 ≡ length s = omega arith in
    let big : ltb (length s) 127 ≡ false = ground arith in
    let back : 127 + (length s - 127) * 2 ^ 0 ≡ length s = omega arith in
    rw (size, big, write_string_raw)
      (rw
        (
          append_assoc (write_more 4 (length s - 127)) s rest,
          read_more-write_more 127 (length s - 127) (s ++ rest) (omega arith),
          back,
        )
        (read_body_append true s rest))

-- ===== src/Http/Framer.antt =====
-- src/framework/http/h2/h2_framer.cpp: the frames of HTTP/2 as bytes. A frame type is the byte that
-- stands for it, since the source casts any byte to `FrameType`.
use proto_relay.Base.{
  ℕ, zero, suc, ◌+◌, ◌-◌, ◌*◌, ◌/◌, ◌%◌, ◌^◌, ◌≤◌, ◌<◌, Bool, true, false, Option, none, some, [],
  ◌∷◌, ◌++◌, ◌≡◌, refl, inl, inr, arith, length, take, drop, ltb, if◌then◌else◌, Bytes, Bool-cases,
  length-append, length-take, take-append, ◌∙◌,
}

pub record Frame : Type 0 where
  pub type : ℕ
  pub flags : ℕ
  pub stream_id : ℕ
  pub payload : Bytes

abbrev pub frame_header_size : ℕ
frame_header_size = 9

-- The byte at an offset; the callers have checked that there is one.
unfoldable pub byte : Bytes → ℕ → ℕ
byte s off = elim (drop off s) [ [] ↦ 0 | b ∷ _ ↦ b ]

-- The shifted bytes stand in disjoint bits, so that `|` is `+`.
unfoldable pub be24 : Bytes → ℕ → ℕ
unfolding byte
be24 s off = byte s off * 2 ^ 16 + (byte s (off + 1) * 2 ^ 8 + byte s (off + 2))

unfoldable pub be31 : Bytes → ℕ → ℕ
unfolding byte
be31 s off =
    (byte s off % 128) * 2 ^ 24
    + (byte s (off + 1) * 2 ^ 16 + (byte s (off + 2) * 2 ^ 8 + byte s (off + 3)))

unfoldable pub u24 : ℕ → Bytes
u24 v = (v / 2 ^ 16) % 256 ∷ (v / 2 ^ 8) % 256 ∷ v % 256 ∷ []

-- The four bytes of a stream id or a window increment, the reserved bit cleared.
unfoldable pub u31 : ℕ → Bytes
u31 v = (v / 2 ^ 24) % 128 ∷ (v / 2 ^ 16) % 256 ∷ (v / 2 ^ 8) % 256 ∷ v % 256 ∷ []

-- The four bytes of an error code or a setting.
unfoldable pub u32 : ℕ → Bytes
u32 v = (v / 2 ^ 24) % 256 ∷ (v / 2 ^ 16) % 256 ∷ (v / 2 ^ 8) % 256 ∷ v % 256 ∷ []

unfoldable pub frame_length : Bytes → ℕ
unfolding be24
frame_length raw = if ltb (length raw) frame_header_size then 0 else be24 raw 0

unfoldable pub parse_frame : Bytes → Option Frame
unfolding be24 be31 byte
parse_frame raw =
    if ltb (length raw) frame_header_size
    then none
    else let len = be24 raw 0 in
      if ltb (length raw) (frame_header_size + len)
      then none
      else some (record {
        type = byte raw 3;
        flags = byte raw 4;
        stream_id = be31 raw 5;
        payload = take len (drop frame_header_size raw);
      })

-- The casts to `uint32_t` of the payload size and to `uint8_t` of the flags are in the bytes.
unfoldable pub serialize_frame : ℕ → ℕ → ℕ → Bytes → Bytes
unfolding u24 u31
serialize_frame type flags stream_id payload =
    u24 (length payload % 2 ^ 32) ++ (type % 256 ∷ flags % 256 ∷ []) ++ u31 stream_id ++ payload

abbrev pub setting : ℕ → ℕ → Bytes
setting id v = (id / 256) % 256 ∷ id % 256 ∷ u32 v

unfoldable pub build_settings_frame : Bytes
unfolding serialize_frame u32
build_settings_frame = serialize_frame 4 0 0 (setting 3 128 ++ setting 4 65535)

unfoldable pub build_settings_ack : Bytes
unfolding serialize_frame
build_settings_ack = serialize_frame 4 1 0 []

-- `p.resize(8, '\0')`
unfoldable pub resize : ℕ → Bytes → Bytes
resize zero p = []
resize (suc n) [] = 0 ∷ resize n []
resize (suc n) (b ∷ p) = b ∷ resize n p

unfoldable pub build_ping_ack : Bytes → Bytes
unfolding serialize_frame resize
build_ping_ack opaque8 = serialize_frame 6 1 0 (resize 8 opaque8)

unfoldable pub build_data : ℕ → Bytes → Bool → Bytes
unfolding serialize_frame
build_data stream_id body end_stream =
    serialize_frame 0 (if end_stream then 1 else 0) stream_id body

unfoldable pub build_headers : ℕ → Bytes → Bool → Bytes
unfolding serialize_frame
build_headers stream_id block end_stream =
    serialize_frame 1 (if end_stream then 5 else 4) stream_id block

unfoldable pub build_headers_200 : ℕ → Bool → Bytes
unfolding build_headers
build_headers_200 stream_id end_stream = build_headers stream_id (136 ∷ []) end_stream

unfoldable pub build_goaway : ℕ → ℕ → Bytes
unfolding serialize_frame u31 u32
build_goaway last_stream code = serialize_frame 7 0 0 (u31 last_stream ++ u32 code)

unfoldable pub build_rst_stream : ℕ → ℕ → Bytes
unfolding serialize_frame u32
build_rst_stream stream_id code = serialize_frame 3 0 stream_id (u32 code)

unfoldable pub build_window_update : ℕ → ℕ → Bytes
unfolding serialize_frame u31
build_window_update stream_id increment = serialize_frame 8 0 stream_id (u31 increment)

-- What `parse_frame` makes of nine header bytes and the rest.
parse_frame-nine :
    (a b c type flags x y z w : ℕ) (rest : Bytes)
    → parse_frame (a ∷ b ∷ c ∷ type ∷ flags ∷ x ∷ y ∷ z ∷ w ∷ rest) ≡ (
        let len = a * 2 ^ 16 + (b * 2 ^ 8 + c) in
        if ltb (length rest) len
        then none
        else some (record {
          type = type;
          flags = flags;
          stream_id = (x % 128) * 2 ^ 24 + (y * 2 ^ 16 + (z * 2 ^ 8 + w));
          payload = take len rest;
        }))
unfolding parse_frame
parse_frame-nine a b c type flags x y z w rest = ground arith

-- A serialized frame, with anything behind it, parses to the frame it was made of, where the
-- payload is shorter than 2^24 bytes and the stream id is one of 31 bits.
pub parse_frame-serialize_frame :
    (type flags stream_id : ℕ) (payload later : Bytes)
    → type < 256
    → flags < 256
    → stream_id < 2 ^ 31
    → length payload < 2 ^ 24
    → parse_frame (serialize_frame type flags stream_id payload ++ later)
      ≡ some (record { type = type; flags = flags; stream_id = stream_id; payload = payload })
unfolding parse_frame serialize_frame u24 u31 be24 be31 byte
parse_frame-serialize_frame type flags stream_id payload later t f s p =
    let n = length payload in
    let sized : ((n % 2 ^ 32 / 2 ^ 16) % 256) * 2 ^ 16
          + (((n % 2 ^ 32 / 2 ^ 8) % 256) * 2 ^ 8 + (n % 2 ^ 32) % 256)
        ≡ n =
      omega arith in
    let stream : (((stream_id / 2 ^ 24) % 128) % 128) * 2 ^ 24
          + (((stream_id / 2 ^ 16) % 256) * 2 ^ 16
              + (((stream_id / 2 ^ 8) % 256) * 2 ^ 8 + stream_id % 256))
        ≡ stream_id =
      omega arith in
    let type_byte : type % 256 ≡ type = omega arith in
    let flags_byte : flags % 256 ≡ flags = omega arith in
    let long : ltb (length (payload ++ later)) n ≡ false =
      ground (arith, length-append payload later) in
    parse_frame-nine _ _ _ _ _ _ _ _ _ (payload ++ later)
    ∙ rw (sized, stream, type_byte, flags_byte, long, take-append payload later) refl

parse_frame_short : (raw : Bytes) → length raw < frame_header_size → parse_frame raw ≡ none
unfolding parse_frame
parse_frame_short raw short = ground arith

take_beyond :
    (n : ℕ) (xs ys : Bytes) → length xs ≤ n → take n (xs ++ ys) ≡ xs ++ take (n - length xs) ys
take_beyond n [] ys long = ground arith
take_beyond zero (x ∷ xs) ys long = ground arith
take_beyond (suc n) (x ∷ xs) ys long = ground (arith, take_beyond n xs ys)

-- Cut anywhere, a serialized frame does not parse yet.
pub parse_frame_partial :
    (type flags stream_id n : ℕ) (payload : Bytes)
    → length payload < 2 ^ 24
    → n < length (serialize_frame type flags stream_id payload)
    → parse_frame (take n (serialize_frame type flags stream_id payload)) ≡ none
unfolding parse_frame serialize_frame u24 u31 be24 be31 byte
parse_frame_partial type flags stream_id n payload p short =
    let size = length payload in
    let header : Bytes = u24 (size % 2 ^ 32) ++ (type % 256 ∷ flags % 256 ∷ []) ++ u31 stream_id in
    let sized : ((size % 2 ^ 32 / 2 ^ 16) % 256) * 2 ^ 16
          + (((size % 2 ^ 32 / 2 ^ 8) % 256) * 2 ^ 8 + (size % 2 ^ 32) % 256)
        ≡ size =
      omega arith in
    elim (Bool-cases (ltb n frame_header_size)) [
      | inl in_header ↦
          parse_frame_short (take n (serialize_frame type flags stream_id payload))
            (ground (arith, length-take n (serialize_frame type flags stream_id payload)))
      | inr beyond ↦
          let cut : ltb (length (take (n - 9) payload)) size ≡ true =
            ground (arith, length-take (n - 9) payload) in
          rw (take_beyond n header payload (ground arith))
            (parse_frame-nine _ _ _ _ _ _ _ _ _ (take (n - 9) payload) ∙ rw (sized, cut) refl)
    ]

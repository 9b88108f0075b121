-- ===== src/Tests/Http.antt =====
-- src/framework/http/h2 at concrete inputs.
use proto_relay.Base.{some, List, [], ◌∷◌, ◌++◌, ◌≡◌, refl, Bytes, bytes_eq, codes, arith, true}
use proto_relay.Http.Framer.{parse_frame, serialize_frame, parse_frame-serialize_frame}
use proto_relay.Http.Hpack.{
  new_decoder, decode, encode_response_headers, encode_header, read_integer, write_integer_raw,
  write_more, read_string, write_string_raw, with_rest, insert_entry,
}
use proto_relay.Http.Hpack.Huffman.{huffman_decode, symbol}
use proto_relay.Http.Hpack.Integers.{read_integer-write_integer_raw}
use proto_relay.Http.Hpack.Strings.{read_string_long}
use proto_relay.Http.Hpack.RoundTrip.{decode-encode_response_headers}
use proto_relay.Http.Hpack.Bounds.{IsBounded, insert_entry-IsBounded}
use proto_relay.Http.Hpack.Tables.{
  Header, static_entries, static_table_find, static_index_by_name, find_both, find_name,
}

huffman_decode_test :
    huffman_decode (241 ∷ 227 ∷ 194 ∷ 229 ∷ 242 ∷ 58 ∷ 107 ∷ 160 ∷ 171 ∷ 144 ∷ 244 ∷ 255 ∷ [])
    ≡ some (codes "www.example.com")
unfolding huffman_decode symbol
huffman_decode_test = refl

abbrev response : List Header
response =
    (codes ":status", codes "200")
    ∷ (codes "content-type", codes "text/html")
    ∷ (codes "x-id", codes "7")
    ∷ []

encode_response_headers_test :
    encode_response_headers response
    ≡ 136 ∷ 15 ∷ 16 ∷ 9 ∷ codes "text/html" ++ (0 ∷ 4 ∷ codes "x-id" ++ (1 ∷ codes "7"))
unfolding encode_response_headers encode_header write_integer_raw write_string_raw write_more
    static_table_find static_index_by_name find_both find_name static_entries bytes_eq
encode_response_headers_test = refl

decode-encode_response_headers_example :
    decode (encode_response_headers response) new_decoder
    ≡ record { ok = true; out = response; decoder = new_decoder }
decode-encode_response_headers_example =
    decode-encode_response_headers response new_decoder
      ((omega arith, omega arith), ((omega arith, omega arith), ((omega arith, omega arith), tt)))

read_integer-write_integer_raw_example :
    read_integer 4 (write_integer_raw 1337 4 ++ (7 ∷ [])) ≡ some (1337, 7 ∷ [])
read_integer-write_integer_raw_example = read_integer-write_integer_raw 1337 (7 ∷ []) (omega arith)

-- 128 bytes `z`.
abbrev doubled : Bytes → Bytes
doubled s = s ++ s

abbrev long_value : Bytes
long_value = doubled (doubled (doubled (doubled (codes "zzzzzzzz"))))

read_string_long_example :
    read_string (write_string_raw long_value ++ (1 ∷ []))
    ≡ with_rest (1 ∷ []) (huffman_decode long_value)
read_string_long_example = read_string_long long_value (1 ∷ []) (omega arith) (omega arith)

new_decoder-IsBounded : IsBounded new_decoder
new_decoder-IsBounded = record { accounted = refl; within = omega arith; capped = omega arith }

insert_entry-IsBounded_example : IsBounded (insert_entry (codes "x-id", codes "7") new_decoder)
insert_entry-IsBounded_example =
    insert_entry-IsBounded (codes "x-id", codes "7") new_decoder (omega arith) (omega arith)
      new_decoder-IsBounded

parse_frame-serialize_frame_example :
    parse_frame (serialize_frame 0 1 5 (codes "body") ++ codes "more")
    ≡ some (record { type = 0; flags = 1; stream_id = 5; payload = codes "body" })
parse_frame-serialize_frame_example =
    parse_frame-serialize_frame 0 1 5 (codes "body") (codes "more") (omega arith) (omega arith)
      (omega arith) (omega arith)

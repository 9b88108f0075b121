-- ===== src/Http/Hpack.antt =====
-- src/framework/http/h2/h2_hpack.cpp, include/framework/http/h2/h2_hpack.h: HPACK. A position in a
-- block is the suffix that starts there. A byte is a number below 256, so `b & 0x80` is 128 ≤ b.
pub mod Tables
pub mod Huffman
pub mod Integers
pub mod Strings
pub mod RoundTrip
pub mod Bounds
use mathlib.Core.List.{reverse}
use proto_relay.Base.{
  ℕ, zero, suc, ◌+◌, ◌-◌, ◌*◌, ◌/◌, ◌%◌, ◌^◌, Bool, true, false, ◌||◌, Option, none, some, List, [],
  ◌∷◌, ◌++◌, length, take, drop, get_elem?, ltb, leb, ◌==◌, if◌then◌else◌, Bytes,
}
use proto_relay.Http.Hpack.Tables.{Header, static_table_at, static_index_by_name, static_table_find}
use proto_relay.Http.Hpack.Huffman.{huffman_decode}

-- The loop of `read_integer` over the continuation bytes, in 32 bits.
unfoldable pub read_more : ℕ → ℕ → Bytes → Option (ℕ × Bytes)
read_more shift value [] = none
read_more shift value (byte ∷ rest) =
    let value' = (value + ((byte % 128) * 2 ^ shift) % 2 ^ 32) % 2 ^ 32 in
    let later = read_more (shift + 7) value' rest in
    if ltb 28 shift then none else if leb 128 byte then later else some (value', rest)

unfoldable pub read_integer : ℕ → Bytes → Option (ℕ × Bytes)
unfolding read_more
read_integer prefix [] = none
read_integer prefix (first ∷ rest) =
    let mask = 2 ^ prefix - 1 in
    let value = first % 2 ^ prefix in
    if ltb value mask then some (value, rest) else read_more 0 mask rest

unfoldable pub with_rest : Bytes → Option Bytes → Option (Bytes × Bytes)
with_rest rest none = none
with_rest rest (some s) = some (s, rest)

-- The string once its length is known.
unfoldable pub read_body : Bool → ℕ → Bytes → Option (Bytes × Bytes)
unfolding with_rest
read_body huff len rest =
    if ltb (length rest) len
    then none
    else if huff
    then with_rest (drop len rest) (huffman_decode (take len rest))
    else some (take len rest, drop len rest)

unfoldable pub read_sized : Bool → Option (ℕ × Bytes) → Option (Bytes × Bytes)
unfolding read_body
read_sized huff none = none
read_sized huff (some (len, rest)) = read_body huff len rest

unfoldable pub read_string : Bytes → Option (Bytes × Bytes)
unfolding read_integer read_sized
read_string [] = none
read_string (first ∷ rest) = read_sized (leb 128 first) (read_integer 7 (first ∷ rest))

pub record HeaderDecoder : Type 0 where
  pub dynamic : List Header
  pub size : ℕ
  pub capacity : ℕ

abbrev pub max_header_table_size : ℕ
max_header_table_size = 4096

abbrev pub new_decoder : HeaderDecoder
new_decoder = record { dynamic = []; size = 0; capacity = 4096 }

-- The loop of `trim` on the reversed table, with `size_` in 64 bits.
unfoldable pub trim_back : ℕ → ℕ → List Header → List Header × ℕ
trim_back capacity size [] = ([], size)
trim_back capacity size ((name, value) ∷ entries) =
    if ltb capacity size
    then trim_back capacity ((size + 2 ^ 64 - (32 + length name + length value)) % 2 ^ 64) entries
    else ((name, value) ∷ entries, size)

unfoldable pub trim : HeaderDecoder → HeaderDecoder
unfolding trim_back
trim d =
    let (entries, size) = trim_back d.capacity d.size (reverse d.dynamic) in
    record d { dynamic = reverse entries; size = size }

unfoldable pub set_header_table_size : ℕ → HeaderDecoder → HeaderDecoder
unfolding trim
set_header_table_size n d =
    trim (record d { capacity = if ltb max_header_table_size n then max_header_table_size else n })

-- The name at an index of the static or the dynamic table.
unfoldable pub lookup : ℕ → HeaderDecoder → Option Bytes
lookup index d =
    if index == 0
    then none
    else if leb index 61
    then some (static_table_at index).0
    else elim (get_elem? d.dynamic (index - 62)) [ none ↦ none | some entry ↦ some entry.0 ]

unfoldable pub read_name : ℕ → HeaderDecoder → Bytes → Option (Bytes × Bytes)
read_name idx d rest = if idx == 0 then read_string rest else with_rest rest (lookup idx d)

unfoldable pub with_value : Bytes → Option (Bytes × Bytes) → Option (Header × Bytes)
with_value name none = none
with_value name (some (value, rest)) = some ((name, value), rest)

unfoldable pub with_name : Option (Bytes × Bytes) → Option (Header × Bytes)
unfolding with_value
with_name none = none
with_name (some (name, rest)) = with_value name (read_string rest)

unfoldable pub with_index : HeaderDecoder → Option (ℕ × Bytes) → Option (Header × Bytes)
unfolding with_name
with_index d none = none
with_index d (some (idx, rest)) = with_name (read_name idx d rest)

-- A literal: an index of `prefix` bits, the name and the value.
unfoldable pub read_literal : ℕ → HeaderDecoder → Bytes → Option (Header × Bytes)
unfolding with_index
read_literal prefix d rest = with_index d (read_integer prefix rest)

-- The whole row of the static or the dynamic table.
unfoldable pub row : ℕ → HeaderDecoder → Option Header
row idx d =
    if idx == 0
    then none
    else if leb idx 61
    then some (static_table_at idx)
    else get_elem? d.dynamic (idx - 62)

-- The new entry of the dynamic table; its size is computed in 32 bits.
unfoldable pub insert_entry : Header → HeaderDecoder → HeaderDecoder
unfolding trim
insert_entry entry d =
    let entry_size = (32 + length entry.0 % 2 ^ 32 + length entry.1 % 2 ^ 32) % 2 ^ 32 in
    if ltb d.capacity entry_size
    then record d { dynamic = []; size = 0 }
    else trim (record d { dynamic = entry ∷ d.dynamic; size = d.size + entry_size })

-- What one turn of the loop of `decode` comes to.
pub data Turn : Type 0 where
  failed : Turn
  field : Header → HeaderDecoder → Bytes → Turn
  resized : HeaderDecoder → Bytes → Turn

unfoldable pub with_row : HeaderDecoder → Bytes → Option Header → Turn
with_row d rest none = failed
with_row d rest (some entry) = field entry d rest

unfoldable pub indexed_at : HeaderDecoder → Option (ℕ × Bytes) → Turn
unfolding with_row
indexed_at d none = failed
indexed_at d (some (idx, rest)) = with_row d rest (row idx d)

unfoldable pub indexed : HeaderDecoder → Bytes → Turn
unfolding indexed_at
indexed d block = indexed_at d (read_integer 7 block)

unfoldable pub incremental : HeaderDecoder → Bytes → Turn
unfolding insert_entry
incremental d block = elim (read_literal 6 d block) [
  | none ↦ failed
  | some (entry, rest) ↦ field entry (insert_entry entry d) rest
]

unfoldable pub resizing : HeaderDecoder → Bytes → Turn
unfolding set_header_table_size
resizing d block = elim (read_integer 5 block) [
  | none ↦ failed
  | some (size, rest) ↦ resized (set_header_table_size size d) rest
]

unfoldable pub plain_field : HeaderDecoder → Option (Header × Bytes) → Turn
plain_field d none = failed
plain_field d (some (entry, rest)) = field entry d rest

unfoldable pub plain : HeaderDecoder → Bytes → Turn
unfolding plain_field
plain d block = plain_field d (read_literal 4 d block)

unfoldable pub turn : ℕ → HeaderDecoder → Bytes → Turn
unfolding indexed incremental resizing plain
turn b d block =
    if leb 128 b
    then indexed d block
    else if leb 64 (b % 128)
    then incremental d block
    else if leb 32 (b % 64)
    then resizing d block
    else plain d block

-- What `decode` leaves: its result, the headers so far, and the decoder.
pub record Result : Type 0 where
  pub ok : Bool
  pub out : List Header
  pub decoder : HeaderDecoder

-- The loop, on fuel. A turn takes at least one byte, so the length of the block is enough.
unfoldable pub decode_loop : ℕ → List Header → HeaderDecoder → Bytes → Result
decode_loop fuel out d [] = record { ok = true; out = out; decoder = d }
decode_loop zero out d (b ∷ rest) = record { ok = false; out = out; decoder = d }
decode_loop (suc fuel) out d (b ∷ rest) = elim (turn b d (b ∷ rest)) [
  | failed ↦ record { ok = false; out = out; decoder = d }
  | field entry d' rest' ↦ decode_loop fuel (out ++ entry ∷ []) d' rest'
  | resized d' rest' ↦ decode_loop fuel out d' rest'
]

unfoldable pub decode : Bytes → HeaderDecoder → Result
decode block d = decode_loop (length block) [] d block

-- The loop of the writers over what is left of the value; five bytes are enough for 32 bits.
unfoldable pub write_more : ℕ → ℕ → Bytes
write_more zero value = value % 256 ∷ []
write_more (suc fuel) value =
    let later = write_more fuel (value / 128) in
    if leb 128 value then (value % 128 + 128) ∷ later else value % 256 ∷ []

unfoldable pub write_integer_raw : ℕ → ℕ → Bytes
unfolding write_more
write_integer_raw value prefix =
    let mask = 2 ^ prefix - 1 in
    if ltb value mask then value % 256 ∷ [] else mask % 256 ∷ write_more 4 (value - mask)

unfoldable pub write_string_raw : Bytes → Bytes
write_string_raw s =
    let len = length s % 2 ^ 32 in
    if ltb len 127 then len % 256 ∷ s else 255 ∷ write_more 4 (len - 127) ++ s

unfoldable pub encode_header : Header → Bytes
encode_header (name, value) =
    let full = static_table_find name value in
    let index = static_index_by_name name in
    if ltb 0 full
    then (128 + full) ∷ []
    else write_integer_raw index 4
      ++ ((if index == 0 then write_string_raw name else []) ++ write_string_raw value)

unfoldable pub encode_response_headers : List Header → Bytes
encode_response_headers [] = []
encode_response_headers (h ∷ headers) = encode_header h ++ encode_response_headers headers

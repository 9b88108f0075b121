-- ===== src/Http/Hpack/RoundTrip.antt =====
use mathlib.Core.Path.{subst}
-- The headers that `encode_response_headers` writes are those that `decode` reads.
use mathlib.Core.List.{append_assoc, append-nil}
use proto_relay.Base.{
  ℕ, zero, suc, ◌+◌, ◌-◌, ◌%◌, ◌^◌, ◌≤◌, ◌<◌, true, false, some, List, [], ◌∷◌, ◌++◌, ◌≡◌, ◌⊎◌, ◌∙◌,
  ap, refl, inl, inr, arith, length, get_elem?, ltb, leb, ◌==◌, if◌then◌else◌, ◌&&◌, Bytes,
  bytes_eq, bytes_eq_iff, Bool-cases, All, length-append,
}
use proto_relay.Http.Hpack.{
  HeaderDecoder, field, read_integer, read_name, read_literal, with_rest, with_index, with_name,
  with_value, indexed_at, with_row, plain_field, lookup, row, turn, plain, indexed, decode,
  decode_loop, write_more, write_integer_raw, write_string_raw, encode_header,
  encode_response_headers,
}
use proto_relay.Http.Hpack.Tables.{
  Header, static_entries, static_table_at, find_name, find_both, static_index_by_name,
  static_table_find,
}
use proto_relay.Http.Hpack.Integers.{read_integer-write_integer_raw}
use proto_relay.Http.Hpack.Strings.{read_string-write_string_raw}

-- A header whose name and value are shorter than 127 bytes.
abbrev pub IsShort : Header → Type 0
IsShort h = (length h.0 < 127) × (length h.1 < 127)

-- The entry of the found number, counted from `i`, is the pair that was sought.
abbrev Found : ℕ → Header → List Header → ℕ → Type 0
Found i h entries k =
    (k ≡ 0) ⊎ ((i ≤ k) × ((k < i + length entries) × (get_elem? entries (k - i) ≡ some h)))

get_elem?-later :
    (i k : ℕ) (x h : Header) (entries : List Header)
    → i + 1 ≤ k
    → get_elem? entries (k - (i + 1)) ≡ some h
    → get_elem? (x ∷ entries) (k - i) ≡ some h
get_elem?-later i k x h entries above there =
    let next : k - i ≡ suc (k - (i + 1)) = omega arith in rw next there

find_both-Found :
    (i : ℕ) (name value : Bytes) (entries : List Header)
    → 0 < i
    → Found i (name, value) entries (find_both i name value entries)
unfolding find_both
find_both-Found i name value [] pos = inl refl
find_both-Found i name value ((n, v) ∷ entries) pos =
    elim (Bool-cases (bytes_eq name n && bytes_eq value v)) [
      | inl same ↦
          let zeroth : i - i ≡ 0 = omega arith in
          rw same (
            inr (
              omega arith,
              (omega arith, rw zeroth (ground (arith, bytes_eq_iff name n, bytes_eq_iff value v))),
            ))
      | inr on ↦ rw on (elim (find_both-Found (i + 1) name value entries (omega arith)) [
        | inl nowhere ↦ inl nowhere
        | inr (above, (below, there)) ↦
            inr (omega arith, (omega arith, get_elem?-later i _ (n, v) _ entries above there))
      ])
    ]

find_name-Found :
    (i : ℕ) (name : Bytes) (entries : List Header)
    → 0 < i
    → (find_name i name entries ≡ 0)
      ⊎ ((v : Bytes) × Found i (name, v) entries (find_name i name entries))
unfolding find_name
find_name-Found i name [] pos = inl refl
find_name-Found i name ((n, v) ∷ entries) pos = elim (Bool-cases (bytes_eq name n)) [
  | inl same ↦
      let zeroth : i - i ≡ 0 = omega arith in
      rw same
        (inr (v, inr (omega arith, (omega arith, rw zeroth (ground (arith, bytes_eq_iff name n))))))
  | inr on ↦ rw on (elim (find_name-Found (i + 1) name entries (omega arith)) [
    | inl nowhere ↦ inl nowhere
    | inr (w, inl nowhere) ↦ inl nowhere
    | inr (w, inr (above, (below, there))) ↦
        inr (w, inr (omega arith, (omega arith, get_elem?-later i _ (n, v) _ entries above there)))
  ])
]

length-static_entries : length static_entries ≡ 61
unfolding static_entries
length-static_entries = refl

static_table_at-entry :
    (k : ℕ) (h : Header)
    → 1 ≤ k
    → k < 1 + length static_entries
    → get_elem? static_entries (k - 1) ≡ some h
    → static_table_at k ≡ h
unfolding static_table_at
static_table_at-entry k h above below there =
    let low : ltb k 1 ≡ false = ground arith in
    let high : ltb 61 k ≡ false = ground (arith, length-static_entries) in
    rw (low, high, there) refl

static_table_at-find :
    (name value : Bytes)
    → (static_table_find name value ≡ 0)
      ⊎ ((0 < static_table_find name value)
          × ((static_table_find name value ≤ 61)
              × (static_table_at (static_table_find name value) ≡ (name, value))))
unfolding static_table_find
static_table_at-find name value = elim (find_both-Found 1 name value static_entries (omega arith)) [
  | inl nowhere ↦ inl nowhere
  | inr (above, (below, there)) ↦ inr (
    omega arith,
    (omega (arith, length-static_entries), static_table_at-entry _ _ above below there),
  )
]

static_table_at-name :
    (name : Bytes)
    → (static_index_by_name name ≡ 0)
      ⊎ ((0 < static_index_by_name name)
          × ((static_index_by_name name ≤ 61)
              × ((static_table_at (static_index_by_name name)).0 ≡ name)))
unfolding static_index_by_name
static_table_at-name name = elim (find_name-Found 1 name static_entries (omega arith)) [
  | inl nowhere ↦ inl nowhere
  | inr (v, inl nowhere) ↦ inl nowhere
  | inr (v, inr (above, (below, there))) ↦ inr (
    omega arith,
    (
      omega (arith, length-static_entries),
      ap (λ h. h.0) (static_table_at-entry _ _ above below there),
    ),
  )
]

-- One turn of `decode` on an index gives the row, and the decoder unchanged.
indexed-encode :
    (k : ℕ) (h : Header) (d : HeaderDecoder) (rest : Bytes)
    → 0 < k
    → k ≤ 61
    → static_table_at k ≡ h
    → turn (128 + k) d ((128 + k) ∷ rest) ≡ field h d rest
unfolding turn indexed indexed_at with_row row read_integer
indexed-encode k h d rest pos top there =
    let high : leb 128 (128 + k) ≡ true = ground arith in
    let low : (128 + k) % 128 ≡ k = omega arith in
    let in_prefix : ltb k 127 ≡ true = ground arith in
    let some_index : (k == 0) ≡ false = ground arith in
    let static : leb k 61 ≡ true = ground arith in
    let one : read_integer 7 ((128 + k) ∷ rest) ≡ some (k, rest) = rw (low, in_prefix) refl in
    let whole : row k d ≡ some h = rw (some_index, static, there) refl in
    rw high (ap (indexed_at d) one ∙ ap (with_row d rest) whole)

lookup-static :
    (k : ℕ) (name : Bytes) (d : HeaderDecoder)
    → (k == 0) ≡ false
    → k ≤ 61
    → (static_table_at k).0 ≡ name
    → lookup k d ≡ some name
unfolding lookup
lookup-static k name d some_index top known =
    let static : leb k 61 ≡ true = ground arith in rw (some_index, static, known) refl

read_name-encode :
    (name : Bytes) (d : HeaderDecoder) (rest : Bytes)
    → length name < 127
    → read_name
        (static_index_by_name name)
        d
        ((if static_index_by_name name == 0 then write_string_raw name else []) ++ rest)
      ≡ some (name, rest)
unfolding read_name with_rest
read_name-encode name d rest short = elim (static_table_at-name name) [
  | inl new ↦ rw new (read_string-write_string_raw name rest short)
  | inr (pos, (top, known)) ↦
      let some_index : (static_index_by_name name == 0) ≡ false = ground arith in
      rw some_index (ap (with_rest rest) (lookup-static _ name d some_index top known))
]

read_literal-encode :
    (h : Header) (d : HeaderDecoder) (rest : Bytes)
    → IsShort h
    → read_literal 4 d (
        write_integer_raw (static_index_by_name h.0) 4
        ++ ((if static_index_by_name h.0 == 0 then write_string_raw h.0 else [])
            ++ (write_string_raw h.1 ++ rest)))
      ≡ some (h, rest)
unfolding read_literal with_index with_name with_value
read_literal-encode (name, value) d rest short =
    ap (with_index d)
      (read_integer-write_integer_raw (static_index_by_name name) _ (index_small name))
    ∙ ap with_name (read_name-encode name d (write_string_raw value ++ rest) short.0)
    ∙ ap (with_value name) (read_string-write_string_raw value rest short.1)
  where
    index_small : (name : Bytes) → static_index_by_name name < 2 ^ 32
    index_small name = elim (static_table_at-name name) [
      | inl new ↦ omega arith
      | inr (pos, (top, known)) ↦ omega arith
    ]

-- A first byte below 16 stands for a literal that is not indexed.
turn-literal :
    (b : ℕ) (d : HeaderDecoder) (rest : Bytes) → b < 16 → turn b d (b ∷ rest) ≡ plain d (b ∷ rest)
unfolding turn
turn-literal b d rest small =
    let indexed_bit : leb 128 b ≡ false = ground arith in
    let incremental_bit : leb 64 (b % 128) ≡ false = ground arith in
    let resize_bit : leb 32 (b % 64) ≡ false = ground arith in
    rw (indexed_bit, incremental_bit, resize_bit) refl

write_integer_raw-head :
    (value : ℕ) → (b : ℕ) × (more : Bytes) × ((b < 16) × (write_integer_raw value 4 ≡ b ∷ more))
unfolding write_integer_raw
write_integer_raw-head value = elim (Bool-cases (ltb value 15)) [
  | inl short ↦ (value % 256, [], (ground arith, rw (short, write_integer_raw) refl))
  | inr long ↦ (15, write_more 4 (value - 15), (omega arith, rw (long, write_integer_raw) refl))
]

-- What an encoded header begins with, and what a turn of `decode` makes of it.
abbrev Turned : Header → HeaderDecoder → Bytes → Type 0
Turned h d rest =
    (b : ℕ) × (tail : Bytes) × ((encode_header h ++ rest ≡ b ∷ tail)
      × (turn b d (b ∷ tail) ≡ field h d rest))

encode_header-Turned : (h : Header) (d : HeaderDecoder) (rest : Bytes) → IsShort h → Turned h d rest
unfolding encode_header plain plain_field
encode_header-Turned (name, value) d rest short = elim (static_table_at-find name value) [
  | inl nowhere ↦
      let (b, more, (small, begins)) = write_integer_raw-head (static_index_by_name name) in
      let literal = read_literal-encode (name, value) d rest short in
      let w = write_integer_raw (static_index_by_name name) 4 in
      let n = if static_index_by_name name == 0 then write_string_raw name else [] in
      let v = write_string_raw value in
      let not_full : ltb 0 (static_table_find name value) ≡ false = ground arith in
      let opened : read_literal 4 d (b ∷ more ++ (n ++ (v ++ rest))) ≡ some ((name, value), rest) =
        subst (λ x. read_literal 4 d (x ++ (n ++ (v ++ rest))) ≡ some ((name, value), rest)) begins
          literal in
      (
        b,
        more ++ (n ++ (v ++ rest)),
        (
          rw (not_full, encode_header)
              (append_assoc w (n ++ v) rest
                ∙ ap (λ x. w ++ x) (append_assoc n v rest)
                ∙ ap (λ x. x ++ (n ++ (v ++ rest))) begins),
          turn-literal b d _ small ∙ ap (plain_field d) opened,
        ),
      )
  | inr (pos, (top, known)) ↦
      let full : ltb 0 (static_table_find name value) ≡ true = ground arith in
      (
        128 + static_table_find name value,
        rest,
        (rw (full, encode_header) refl, indexed-encode _ (name, value) d rest pos top known),
      )
]

decode_loop-encode :
    (headers : List Header) (fuel : ℕ) (out : List Header) (d : HeaderDecoder)
    → All IsShort headers
    → length headers ≤ fuel
    → decode_loop fuel out d (encode_response_headers headers)
      ≡ record { ok = true; out = out ++ headers; decoder = d }
unfolding decode_loop encode_response_headers
decode_loop-encode [] fuel out d short enough = rw (append-nil out) refl
decode_loop-encode (h ∷ headers) zero out d short enough = ground arith
decode_loop-encode (h ∷ headers) (suc fuel) out d short enough =
    let (b, tail, (begins, turned)) =
      encode_header-Turned h d (encode_response_headers headers) short.0 in
    rw begins (
      rw (turned, decode_loop)
        (decode_loop-encode headers fuel (out ++ h ∷ []) d short.1 (omega arith)
          ∙ rw (append_assoc out (h ∷ []) headers) refl))

encode_header-nonempty :
    (h : Header) (rest : Bytes) → length rest < length (encode_header h ++ rest)
unfolding encode_header
encode_header-nonempty (name, value) rest =
    let (b, more, (small, begins)) = write_integer_raw-head (static_index_by_name name) in
    elim (Bool-cases (ltb 0 (static_table_find name value))) [
      | inl full ↦ rw (full, encode_header) (omega arith)
      | inr literal ↦
          rw (literal, begins, encode_header)
            (omega (
              arith,
              length-append
                  (more
                    ++ ((if static_index_by_name name == 0 then write_string_raw name else [])
                        ++ write_string_raw value))
                  rest,
            ))
    ]

encode_response_headers-length :
    (headers : List Header) → length headers ≤ length (encode_response_headers headers)
unfolding encode_response_headers
encode_response_headers-length [] = omega arith
encode_response_headers-length (h ∷ headers) = omega (
  arith,
  encode_header-nonempty h (encode_response_headers headers),
  encode_response_headers-length headers,
)

-- `decode` reads back, in order, the headers that `encode_response_headers` wrote, with the dynamic
-- table unchanged, whatever it holds: where every name and every value is shorter than 127 bytes.
pub decode-encode_response_headers :
    (headers : List Header) (d : HeaderDecoder)
    → All IsShort headers
    → decode (encode_response_headers headers) d ≡ record { ok = true; out = headers; decoder = d }
unfolding decode
decode-encode_response_headers headers d short =
    decode_loop-encode headers _ [] d short (encode_response_headers-length headers)

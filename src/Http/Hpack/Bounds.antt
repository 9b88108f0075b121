-- ===== src/Http/Hpack/Bounds.antt =====
-- The dynamic table stays within its capacity, and the capacity within 4096 bytes.
use mathlib.Core.List.{reverse, reverse_aux}
use proto_relay.Base.{
  ℕ, ◌+◌, ◌-◌, ◌%◌, ◌^◌, ◌≤◌, ◌<◌, List, [], ◌∷◌, ◌≡◌, ◌∙◌, sym, refl, inl, inr, arith, length, ltb,
  Bool-cases,
}
use proto_relay.Http.Hpack.{
  HeaderDecoder, max_header_table_size, trim_back, trim, set_header_table_size, insert_entry,
}
use proto_relay.Http.Hpack.Tables.{Header}

-- What the entries take by the accounting of HPACK.
abbrev pub bytes_of : List Header → ℕ
bytes_of [] = 0
bytes_of ((name, value) ∷ entries) = 32 + length name + length value + bytes_of entries

-- `size_` is what the entries take, and no more than the capacity, which is at most 4096.
pub record IsBounded (d : HeaderDecoder) : Type 0 where
  pub accounted : d.size ≡ bytes_of d.dynamic
  pub within : d.size ≤ d.capacity
  pub capped : d.capacity ≤ max_header_table_size

bytes_of-reverse_aux :
    (xs ys : List Header) → bytes_of (reverse_aux xs ys) ≡ bytes_of xs + bytes_of ys
bytes_of-reverse_aux [] ys = omega arith
bytes_of-reverse_aux (x ∷ xs) ys = omega (arith, bytes_of-reverse_aux xs (x ∷ ys))

bytes_of-reverse : (xs : List Header) → bytes_of (reverse xs) ≡ bytes_of xs
bytes_of-reverse xs = omega (arith, bytes_of-reverse_aux xs [])

trim_back_lem :
    (capacity size : ℕ) (entries : List Header)
    → size ≡ bytes_of entries
    → size < 2 ^ 64
    → ((trim_back capacity size entries).1 ≡ bytes_of (trim_back capacity size entries).0)
      × ((trim_back capacity size entries).1 ≤ capacity)
unfolding trim_back
trim_back_lem capacity size [] e small = (e, omega arith)
trim_back_lem capacity size ((name, value) ∷ entries) e small =
    elim (Bool-cases (ltb capacity size)) [
      | inl over ↦ rw over (
          trim_back_lem capacity ((size + 2 ^ 64 - (32 + length name + length value)) % 2 ^ 64)
            entries (omega arith) (omega arith))
      | inr fits ↦ rw fits (e, ground arith)
    ]

trim-IsBounded :
    (d : HeaderDecoder)
    → d.size ≡ bytes_of d.dynamic
    → d.size < 2 ^ 64
    → d.capacity ≤ max_header_table_size
    → IsBounded (trim d)
unfolding trim
trim-IsBounded d e small capped =
    let (sum, within) =
      trim_back_lem d.capacity d.size (reverse d.dynamic) (e ∙ sym (bytes_of-reverse d.dynamic))
        small in
    record { accounted = sum ∙ sym (bytes_of-reverse _); within = within; capped = capped }

-- A change of the capacity, by SETTINGS or inside a block, keeps the table bounded.
pub set_header_table_size-IsBounded :
    (n : ℕ) (d : HeaderDecoder) → IsBounded d → IsBounded (set_header_table_size n d)
unfolding set_header_table_size
set_header_table_size-IsBounded n d v =
    trim-IsBounded _ v.accounted (omega (arith, v.within, v.capped)) (ground arith)

-- A new entry keeps the table bounded, even one that is larger than the table, where its name and
-- its value are shorter than 2^30 bytes.
pub insert_entry-IsBounded :
    (h : Header) (d : HeaderDecoder)
    → length h.0 < 2 ^ 30
    → length h.1 < 2 ^ 30
    → IsBounded d
    → IsBounded (insert_entry h d)
unfolding insert_entry
insert_entry-IsBounded h d name value v =
    let size = (32 + length h.0 % 2 ^ 32 + length h.1 % 2 ^ 32) % 2 ^ 32 in
    let exact : size ≡ 32 + length h.0 + length h.1 = omega arith in
    elim (Bool-cases (ltb d.capacity size)) [
      | inl large ↦ rw large (record { accounted = refl; within = omega arith; capped = v.capped })
      | inr fits ↦ rw fits (
          trim-IsBounded (record d { dynamic = h ∷ d.dynamic; size = d.size + size })
            (omega (arith, v.accounted, exact)) (omega (arith, v.within, v.capped, exact)) v.capped)
    ]

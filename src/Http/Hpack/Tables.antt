-- ===== src/Http/Hpack/Tables.antt =====
-- src/framework/http/h2/h2_hpack.cpp: the static table and the search in it.
use proto_relay.Base.{
  ℕ, ◌+◌, ◌-◌, ◌&&◌, ◌||◌, none, some, List, [], ◌∷◌, get_elem?, ltb, if◌then◌else◌, Bytes,
  bytes_eq, codes,
}

abbrev pub Header : Type 0
Header = Bytes × Bytes

unfoldable pub static_entries : List Header
static_entries =
    (codes ":authority", [])
    ∷ (codes ":method", codes "GET")
    ∷ (codes ":method", codes "POST")
    ∷ (codes ":path", codes "/")
    ∷ (codes ":path", codes "/index.html")
    ∷ (codes ":scheme", codes "http")
    ∷ (codes ":scheme", codes "https")
    ∷ (codes ":status", codes "200")
    ∷ (codes ":status", codes "204")
    ∷ (codes ":status", codes "206")
    ∷ (codes ":status", codes "304")
    ∷ (codes ":status", codes "400")
    ∷ (codes ":status", codes "404")
    ∷ (codes ":status", codes "500")
    ∷ (codes "accept-charset", [])
    ∷ (codes "accept-encoding", codes "gzip, deflate")
    ∷ (codes "accept-language", [])
    ∷ (codes "accept-ranges", [])
    ∷ (codes "accept", [])
    ∷ (codes "access-control-allow-origin", [])
    ∷ (codes "age", [])
    ∷ (codes "allow", [])
    ∷ (codes "authorization", [])
    ∷ (codes "cache-control", [])
    ∷ (codes "content-disposition", [])
    ∷ (codes "content-encoding", [])
    ∷ (codes "content-language", [])
    ∷ (codes "content-length", [])
    ∷ (codes "content-location", [])
    ∷ (codes "content-range", [])
    ∷ (codes "content-type", [])
    ∷ (codes "cookie", [])
    ∷ (codes "date", [])
    ∷ (codes "etag", [])
    ∷ (codes "expect", [])
    ∷ (codes "expires", [])
    ∷ (codes "from", [])
    ∷ (codes "host", [])
    ∷ (codes "if-match", [])
    ∷ (codes "if-modified-since", [])
    ∷ (codes "if-none-match", [])
    ∷ (codes "if-range", [])
    ∷ (codes "if-unmodified-since", [])
    ∷ (codes "last-modified", [])
    ∷ (codes "link", [])
    ∷ (codes "location", [])
    ∷ (codes "max-forwards", [])
    ∷ (codes "proxy-authenticate", [])
    ∷ (codes "proxy-authorization", [])
    ∷ (codes "range", [])
    ∷ (codes "referer", [])
    ∷ (codes "refresh", [])
    ∷ (codes "retry-after", [])
    ∷ (codes "server", [])
    ∷ (codes "set-cookie", [])
    ∷ (codes "strict-transport-security", [])
    ∷ (codes "transfer-encoding", [])
    ∷ (codes "user-agent", [])
    ∷ (codes "vary", [])
    ∷ (codes "via", [])
    ∷ (codes "www-authenticate", [])
    ∷ []

unfoldable pub static_table_at : ℕ → Header
static_table_at index =
    if ltb index 1 || ltb 61 index
    then ([], [])
    else elim (get_elem? static_entries (index - 1)) [ none ↦ ([], []) | some entry ↦ entry ]

-- The loop of `static_index_by_name` from the entry numbered `i` on; 0 where there is none.
unfoldable pub find_name : ℕ → Bytes → List Header → ℕ
find_name i name [] = 0
find_name i name ((n, v) ∷ entries) = if bytes_eq name n then i else find_name (i + 1) name entries

unfoldable pub static_index_by_name : Bytes → ℕ
static_index_by_name name = find_name 1 name static_entries

-- The loop of `static_table_find`.
unfoldable pub find_both : ℕ → Bytes → Bytes → List Header → ℕ
find_both i name value [] = 0
find_both i name value ((n, v) ∷ entries) =
    if bytes_eq name n && bytes_eq value v then i else find_both (i + 1) name value entries

unfoldable pub static_table_find : Bytes → Bytes → ℕ
static_table_find name value = find_both 1 name value static_entries

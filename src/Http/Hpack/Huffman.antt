-- ===== src/Http/Hpack/Huffman.antt =====
-- src/framework/http/h2/h2_hpack.cpp, include/framework/http/h2/h2_huffman_table.h: the Huffman
-- code of HPACK, as a code word, its length in bits and its symbol.
use proto_relay.Base.{
  ℕ, ◌+◌, ◌-◌, ◌*◌, ◌/◌, ◌%◌, ◌^◌, ◌&&◌, ◌||◌, Option, none, some, List, [], ◌∷◌, ltb, ◌==◌,
  if◌then◌else◌, Bytes,
}

abbrev pub Entry : Type 0
Entry = ℕ × (ℕ × ℕ)

-- The entries of `kHuffman`.
unfoldable pub huffman_entries : List Entry
huffman_entries =
    (0, (5, 48))
    ∷ (1, (5, 49))
    ∷ (2, (5, 50))
    ∷ (3, (5, 97))
    ∷ (4, (5, 99))
    ∷ (5, (5, 101))
    ∷ (6, (5, 105))
    ∷ (7, (5, 111))
    ∷ (8, (5, 115))
    ∷ (9, (5, 116))
    ∷ (20, (6, 32))
    ∷ (21, (6, 37))
    ∷ (22, (6, 45))
    ∷ (23, (6, 46))
    ∷ (24, (6, 47))
    ∷ (25, (6, 51))
    ∷ (26, (6, 52))
    ∷ (27, (6, 53))
    ∷ (28, (6, 54))
    ∷ (29, (6, 55))
    ∷ (30, (6, 56))
    ∷ (31, (6, 57))
    ∷ (32, (6, 61))
    ∷ (33, (6, 65))
    ∷ (34, (6, 95))
    ∷ (35, (6, 98))
    ∷ (36, (6, 100))
    ∷ (37, (6, 102))
    ∷ (38, (6, 103))
    ∷ (39, (6, 104))
    ∷ (40, (6, 108))
    ∷ (41, (6, 109))
    ∷ (42, (6, 110))
    ∷ (43, (6, 112))
    ∷ (44, (6, 114))
    ∷ (45, (6, 117))
    ∷ (92, (7, 58))
    ∷ (93, (7, 66))
    ∷ (94, (7, 67))
    ∷ (95, (7, 68))
    ∷ (96, (7, 69))
    ∷ (97, (7, 70))
    ∷ (98, (7, 71))
    ∷ (99, (7, 72))
    ∷ (100, (7, 73))
    ∷ (101, (7, 74))
    ∷ (102, (7, 75))
    ∷ (103, (7, 76))
    ∷ (104, (7, 77))
    ∷ (105, (7, 78))
    ∷ (106, (7, 79))
    ∷ (107, (7, 80))
    ∷ (108, (7, 81))
    ∷ (109, (7, 82))
    ∷ (110, (7, 83))
    ∷ (111, (7, 84))
    ∷ (112, (7, 85))
    ∷ (113, (7, 86))
    ∷ (114, (7, 87))
    ∷ (115, (7, 89))
    ∷ (116, (7, 106))
    ∷ (117, (7, 107))
    ∷ (118, (7, 113))
    ∷ (119, (7, 118))
    ∷ (120, (7, 119))
    ∷ (121, (7, 120))
    ∷ (122, (7, 121))
    ∷ (123, (7, 122))
    ∷ (248, (8, 38))
    ∷ (249, (8, 42))
    ∷ (250, (8, 44))
    ∷ (251, (8, 59))
    ∷ (252, (8, 88))
    ∷ (253, (8, 90))
    ∷ (1016, (10, 33))
    ∷ (1017, (10, 34))
    ∷ (1018, (10, 40))
    ∷ (1019, (10, 41))
    ∷ (1020, (10, 63))
    ∷ (2042, (11, 39))
    ∷ (2043, (11, 43))
    ∷ (2044, (11, 124))
    ∷ (4090, (12, 35))
    ∷ (4091, (12, 62))
    ∷ (8184, (13, 0))
    ∷ (8185, (13, 36))
    ∷ (8186, (13, 64))
    ∷ (8187, (13, 91))
    ∷ (8188, (13, 93))
    ∷ (8189, (13, 126))
    ∷ (16380, (14, 94))
    ∷ (16381, (14, 125))
    ∷ (32764, (15, 60))
    ∷ (32765, (15, 96))
    ∷ (32766, (15, 123))
    ∷ (524272, (19, 92))
    ∷ (524273, (19, 195))
    ∷ (524274, (19, 208))
    ∷ (1048550, (20, 128))
    ∷ (1048551, (20, 130))
    ∷ (1048552, (20, 131))
    ∷ (1048553, (20, 162))
    ∷ (1048554, (20, 184))
    ∷ (1048555, (20, 194))
    ∷ (1048556, (20, 224))
    ∷ (1048557, (20, 226))
    ∷ (2097116, (21, 153))
    ∷ (2097117, (21, 161))
    ∷ (2097118, (21, 167))
    ∷ (2097119, (21, 172))
    ∷ (2097120, (21, 176))
    ∷ (2097121, (21, 177))
    ∷ (2097122, (21, 179))
    ∷ (2097123, (21, 209))
    ∷ (2097124, (21, 216))
    ∷ (2097125, (21, 217))
    ∷ (2097126, (21, 227))
    ∷ (2097127, (21, 229))
    ∷ (2097128, (21, 230))
    ∷ (4194258, (22, 129))
    ∷ (4194259, (22, 132))
    ∷ (4194260, (22, 133))
    ∷ (4194261, (22, 134))
    ∷ (4194262, (22, 136))
    ∷ (4194263, (22, 146))
    ∷ (4194264, (22, 154))
    ∷ (4194265, (22, 156))
    ∷ (4194266, (22, 160))
    ∷ (4194267, (22, 163))
    ∷ (4194268, (22, 164))
    ∷ (4194269, (22, 169))
    ∷ (4194270, (22, 170))
    ∷ (4194271, (22, 173))
    ∷ (4194272, (22, 178))
    ∷ (4194273, (22, 181))
    ∷ (4194274, (22, 185))
    ∷ (4194275, (22, 186))
    ∷ (4194276, (22, 187))
    ∷ (4194277, (22, 189))
    ∷ (4194278, (22, 190))
    ∷ (4194279, (22, 196))
    ∷ (4194280, (22, 198))
    ∷ (4194281, (22, 228))
    ∷ (4194282, (22, 232))
    ∷ (4194283, (22, 233))
    ∷ (8388568, (23, 1))
    ∷ (8388569, (23, 135))
    ∷ (8388570, (23, 137))
    ∷ (8388571, (23, 138))
    ∷ (8388572, (23, 139))
    ∷ (8388573, (23, 140))
    ∷ (8388574, (23, 141))
    ∷ (8388575, (23, 143))
    ∷ (8388576, (23, 147))
    ∷ (8388577, (23, 149))
    ∷ (8388578, (23, 150))
    ∷ (8388579, (23, 151))
    ∷ (8388580, (23, 152))
    ∷ (8388581, (23, 155))
    ∷ (8388582, (23, 157))
    ∷ (8388583, (23, 158))
    ∷ (8388584, (23, 165))
    ∷ (8388585, (23, 166))
    ∷ (8388586, (23, 168))
    ∷ (8388587, (23, 174))
    ∷ (8388588, (23, 175))
    ∷ (8388589, (23, 180))
    ∷ (8388590, (23, 182))
    ∷ (8388591, (23, 183))
    ∷ (8388592, (23, 188))
    ∷ (8388593, (23, 191))
    ∷ (8388594, (23, 197))
    ∷ (8388595, (23, 231))
    ∷ (8388596, (23, 239))
    ∷ (16777194, (24, 9))
    ∷ (16777195, (24, 142))
    ∷ (16777196, (24, 144))
    ∷ (16777197, (24, 145))
    ∷ (16777198, (24, 148))
    ∷ (16777199, (24, 159))
    ∷ (16777200, (24, 171))
    ∷ (16777201, (24, 206))
    ∷ (16777202, (24, 215))
    ∷ (16777203, (24, 225))
    ∷ (16777204, (24, 236))
    ∷ (16777205, (24, 237))
    ∷ (33554412, (25, 199))
    ∷ (33554413, (25, 207))
    ∷ (33554414, (25, 234))
    ∷ (33554415, (25, 235))
    ∷ (67108832, (26, 192))
    ∷ (67108833, (26, 193))
    ∷ (67108834, (26, 200))
    ∷ (67108835, (26, 201))
    ∷ (67108836, (26, 202))
    ∷ (67108837, (26, 205))
    ∷ (67108838, (26, 210))
    ∷ (67108839, (26, 213))
    ∷ (67108840, (26, 218))
    ∷ (67108841, (26, 219))
    ∷ (67108842, (26, 238))
    ∷ (67108843, (26, 240))
    ∷ (67108844, (26, 242))
    ∷ (67108845, (26, 243))
    ∷ (67108846, (26, 255))
    ∷ (134217694, (27, 203))
    ∷ (134217695, (27, 204))
    ∷ (134217696, (27, 211))
    ∷ (134217697, (27, 212))
    ∷ (134217698, (27, 214))
    ∷ (134217699, (27, 221))
    ∷ (134217700, (27, 222))
    ∷ (134217701, (27, 223))
    ∷ (134217702, (27, 241))
    ∷ (134217703, (27, 244))
    ∷ (134217704, (27, 245))
    ∷ (134217705, (27, 246))
    ∷ (134217706, (27, 247))
    ∷ (134217707, (27, 248))
    ∷ (134217708, (27, 250))
    ∷ (134217709, (27, 251))
    ∷ (134217710, (27, 252))
    ∷ (134217711, (27, 253))
    ∷ (134217712, (27, 254))
    ∷ (268435426, (28, 2))
    ∷ (268435427, (28, 3))
    ∷ (268435428, (28, 4))
    ∷ (268435429, (28, 5))
    ∷ (268435430, (28, 6))
    ∷ (268435431, (28, 7))
    ∷ (268435432, (28, 8))
    ∷ (268435433, (28, 11))
    ∷ (268435434, (28, 12))
    ∷ (268435435, (28, 14))
    ∷ (268435436, (28, 15))
    ∷ (268435437, (28, 16))
    ∷ (268435438, (28, 17))
    ∷ (268435439, (28, 18))
    ∷ (268435440, (28, 19))
    ∷ (268435441, (28, 20))
    ∷ (268435442, (28, 21))
    ∷ (268435443, (28, 23))
    ∷ (268435444, (28, 24))
    ∷ (268435445, (28, 25))
    ∷ (268435446, (28, 26))
    ∷ (268435447, (28, 27))
    ∷ (268435448, (28, 28))
    ∷ (268435449, (28, 29))
    ∷ (268435450, (28, 30))
    ∷ (268435451, (28, 31))
    ∷ (268435452, (28, 127))
    ∷ (268435453, (28, 220))
    ∷ (268435454, (28, 249))
    ∷ (1073741820, (30, 10))
    ∷ (1073741821, (30, 13))
    ∷ (1073741822, (30, 22))
    ∷ []

-- The eight bits of each byte, the highest first.
unfoldable pub bits_of : Bytes → List ℕ
bits_of [] = []
bits_of (c ∷ rest) =
    c / 128 % 2
    ∷ c / 64 % 2
    ∷ c / 32 % 2
    ∷ c / 16 % 2
    ∷ c / 8 % 2
    ∷ c / 4 % 2
    ∷ c / 2 % 2
    ∷ c % 2
    ∷ bits_of rest

-- The symbol of a code word of `nbits` bits.
unfoldable pub symbol : ℕ → ℕ → List Entry → Option ℕ
symbol value nbits [] = none
symbol value nbits ((bits, (len, sym)) ∷ entries) =
    if len == nbits && bits == value then some sym else symbol value nbits entries

-- `out.push_back`, where the rest decodes.
unfoldable pub push : ℕ → Option Bytes → Option Bytes
push sym none = none
push sym (some out) = some (sym ∷ out)

-- What is left at the end is padding: at most seven bits, all set.
unfoldable pub padding : ℕ → ℕ → Option Bytes
padding value nbits =
    if ltb 7 nbits then none else if nbits == 0 || value == 2 ^ nbits - 1 then some [] else none

unfoldable pub decode_bits : List ℕ → ℕ → ℕ → Option Bytes
unfolding padding symbol push huffman_entries
decode_bits [] value nbits = padding value nbits
decode_bits (bit ∷ bits) value nbits =
    let value' = (value * 2 + bit) % 2 ^ 32 in
    let nbits' = nbits + 1 in
    let none_matched = decode_bits bits value' nbits' in
    let after_match = decode_bits bits 0 0 in
    if ltb 30 nbits' then none else elim (symbol value' nbits' huffman_entries) [
      | none ↦ none_matched
      | some sym ↦ if sym == 256 then none else push sym after_match
    ]

unfoldable pub huffman_decode : Bytes → Option Bytes
unfolding decode_bits bits_of
huffman_decode coded = decode_bits (bits_of coded) 0 0
